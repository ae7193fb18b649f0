-- ===== src/Coremark/Links/Bench/Moves.antt =====
-- `core_bench_list`: a head that moves to the second place of the list.
use mathlib.Core.List.{Perm}
use mathlib.Core.List.Perm
use mlonmcu_sw.Base.{
  ℕ, ◌≡◌, ◌≢◌, refl, arith, ap, sym, subst, List, [], ◌∷◌, ◌++◌, All, false, ◌==◌,
}
use mlonmcu_sw.Coremark.Links.{Store, put_next}
use mlonmcu_sw.Coremark.Links.Chained.{Chained, Chained-put_next, Distinct}
use mlonmcu_sw.Coremark.Links.Insert.{Chained-linked}
use mlonmcu_sw.Coremark.Links.Remove.{successor}
use mlonmcu_sw.Coremark.Links.Bench.{cache_next}

All-drop :
    (P : ℕ → Type 0) (front : List ℕ) (y : ℕ) (back : List ℕ)
    → All P (front ++ y ∷ back)
    → P y × All P (front ++ back)
All-drop P [] y back h = h
All-drop P (z ∷ front) y back h =
    let (here, rest) = All-drop P front y back h.1 in (here, (h.0, rest))

-- An element of a list of distinct ones is not in the rest of it.
pub Distinct-drop :
    (front : List ℕ) (y : ℕ) (back : List ℕ)
    → Distinct (front ++ y ∷ back)
    → All (λ z. y ≢ z) (front ++ back) × Distinct (front ++ back)
Distinct-drop [] y back d = d
Distinct-drop (z ∷ front) y back d =
    let (apart, rest) = All-drop (λ w. z ≢ w) front y back d.0 in
    let (out, kept) = Distinct-drop front y back d.1 in (((λ e. apart (sym e)), out), (rest, kept))

All-split :
    (P : ℕ → Type 0) (front back : List ℕ) → All P (front ++ back) → All P front × All P back
All-split P [] back h = (tt, h)
All-split P (z ∷ front) back h = let (f, b) = All-split P front back h.1 in ((h.0, f), b)

drop_next :
    (front : List ℕ) (x y : ℕ) (back : List ℕ)
    → (front ++ x ∷ []) ++ y ∷ back ≡ front ++ x ∷ y ∷ back
drop_next [] x y back = refl
drop_next (z ∷ front) x y back = ap (λ l. z ∷ l) (drop_next front x y back)

drop_last : (front : List ℕ) (x : ℕ) (back : List ℕ) → (front ++ x ∷ []) ++ back ≡ front ++ x ∷ back
drop_last [] x back = refl
drop_last (z ∷ front) x back = ap (λ l. z ∷ l) (drop_last front x back)

Distinct-next :
    (front : List ℕ) (x y : ℕ) (back : List ℕ)
    → Distinct (front ++ x ∷ y ∷ back)
    → All (λ z. y ≢ z) (front ++ x ∷ back) × Distinct (front ++ x ∷ back)
Distinct-next front x y back d =
    let (out, kept) =
      Distinct-drop (front ++ x ∷ []) y back (subst Distinct (sym (drop_next front x y back)) d) in
    (
      subst (All (λ z. y ≢ z)) (drop_last front x back) out,
      subst Distinct (drop_last front x back) kept,
    )

-- The list goes on behind `x` as it went on behind `y`.
Chained-skip :
    (m : Store) (x y p : ℕ) (front back : List ℕ)
    → Chained m p (front ++ x ∷ y ∷ back)
    → All (λ z. x ≢ z) front
    → All (λ z. x ≢ z) back
    → Chained (put_next x (m.next y) m) p (front ++ x ∷ back)
Chained-skip m x y p [] back (head, alive, (at_y, live, ch)) fx bx =
    let next_x : (put_next x (m.next y) m).next x ≡ m.next y = ground arith in
    (head, alive, rw next_x (Chained-put_next m x (m.next y) (m.next y) back bx ch))
Chained-skip m x y p (z ∷ front) back (head, alive, ch) fx bx =
    let same : (z == x) ≡ false = ground (arith, fx.0) in
    (head, alive, rw same (Chained-skip m x y (m.next z) front back ch fx.1 bx))

pub move-Perm :
    (front : List ℕ) (x y : ℕ) (back : List ℕ)
    → Perm (y ∷ front ++ x ∷ back) (front ++ x ∷ y ∷ back)
move-Perm [] x y back = Perm.swap x y back
move-Perm (z ∷ front) x y back =
    Perm.trans (Perm.swap z y (front ++ x ∷ back)) (Perm.cons z (move-Perm front x y back))

-- The list `order` is that from `h` on, where `y` stands behind `h` instead of behind `x`.
module _ (m : Store) (h x y : ℕ) (rest front back : List ℕ) (shape : front ++ x ∷ back ≡ h ∷ rest)
    (ch : Chained m h (front ++ x ∷ y ∷ back)) (d : Distinct (front ++ x ∷ y ∷ back)) where
  pub Distinct-cached : Distinct (h ∷ y ∷ rest)
  Distinct-cached =
      let (out, kept) = Distinct-next front x y back d in
      let out' = subst (All (λ z. y ≢ z)) shape out in
      let kept' = subst Distinct shape kept in (((λ e. out'.0 (sym e)), kept'.0), (out'.1, kept'.1))

  pub Chained-cached : y ≢ 0 → Chained (cache_next x h m) h (h ∷ y ∷ rest)
  Chained-cached live =
      let e = successor m h x y front back ch in
      let (apart, _) = Distinct-drop front x (y ∷ back) d in
      let (fx, bx) = All-split (λ z. x ≢ z) front (y ∷ back) apart in
      let skipped = put_next x (m.next y) m in
      let at = subst (Chained skipped h) shape (Chained-skip m x y h front back ch fx bx.1) in
      let dd = Distinct-cached in
      subst
        (λ (f : ℕ).
          Chained
            (put_next h f (put_next f ((put_next x (m.next f) m).next h) (put_next x (m.next f) m)))
            h (h ∷ y ∷ rest))
        (sym e)
        (Chained-linked skipped h y live h [] rest at (λ i. dd.0.0 (sym i), dd.1.0) tt dd.0.1)

  pub cached-Perm : Perm (h ∷ y ∷ rest) (front ++ x ∷ y ∷ back)
  cached-Perm =
      Perm.trans (Perm.swap y h rest)
        (subst (λ l. Perm (y ∷ l) (front ++ x ∷ y ∷ back)) shape (move-Perm front x y back))
