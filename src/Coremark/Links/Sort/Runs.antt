-- ===== src/Coremark/Links/Sort/Runs.antt =====
-- `core_list_mergesort` on lists of runs: what each pass makes of them.
use mathlib.Core.List.Perm
use mathlib.Core.List.{Perm, append-nil, append_assoc, perm_middle}
use mlonmcu_sw.Base.{
  ℕ, ◌+◌, ◌*◌, ◌≡◌, ◌≤◌, refl, arith, sym, subst, List, [], ◌∷◌, ◌++◌, All, length, length-append,
  leb, Bool-cases, inl, inr, if◌then◌else◌,
}

abbrev pub concat : List (List ℕ) → List ℕ
concat [] = []
concat (r ∷ rs) = r ++ concat rs

-- Runs of a length, the last of which may be shorter.
abbrev pub Full : ℕ → List (List ℕ) → Type 0
Full n [] = Unit {0}
Full n (r ∷ []) = (1 ≤ length r) × (length r ≤ n)
Full n (r ∷ r' ∷ rs) = (length r ≡ n) × Full n (r' ∷ rs)

Full-cons :
    (n : ℕ) (r : List ℕ) (rs : List (List ℕ)) → 1 ≤ n → length r ≡ n → Full n rs → Full n (r ∷ rs)
Full-cons n r [] h e f = (omega (arith, h, e), omega (arith, e))
Full-cons n r (r' ∷ rs) h e f = (e, f)

-- Lists in the order of their keys.
module _ (key : ℕ → ℕ) where
  abbrev pub Sorted : List ℕ → Type 0
  Sorted [] = Unit {0}
  Sorted (x ∷ xs) = All (λ y. key x ≤ key y) xs × Sorted xs

  -- Of equal keys, that of the first run goes first.
  unfoldable pub merge : (first second : List ℕ) → List ℕ
  merge [] second = second
  merge (p ∷ first) [] = p ∷ first
  merge (p ∷ first) (q ∷ second) =
      let from_first = p ∷ merge first (q ∷ second) in
      let from_second = q ∷ merge (p ∷ first) second in
      if leb (key p) (key q) then from_first else from_second

  pub merge_nil : (xs : List ℕ) → merge xs [] ≡ xs
  unfolding merge
  merge_nil [] = refl
  merge_nil (x ∷ xs) = refl

  All-merge : (P : ℕ → Type 0) (xs ys : List ℕ) → All P xs → All P ys → All P (merge xs ys)
  unfolding merge
  All-merge P [] ys h k = k
  All-merge P (x ∷ xs) [] h k = h
  All-merge P (x ∷ xs) (y ∷ ys) h k = elim (Bool-cases (leb (key x) (key y))) [
    | inl e ↦ rw e (h.0, All-merge P xs (y ∷ ys) h.1 k)
    | inr e ↦ rw e (k.0, All-merge P (x ∷ xs) ys h k.1)
  ]

  All-le :
      (a b : ℕ) (xs : List ℕ)
      → key a ≤ key b
      → All (λ y. key b ≤ key y) xs
      → All (λ y. key a ≤ key y) xs
  All-le a b [] h k = tt
  All-le a b (x ∷ xs) h k = (omega (arith, h, k.0), All-le a b xs h k.1)

  merge-Sorted : (xs ys : List ℕ) → Sorted xs → Sorted ys → Sorted (merge xs ys)
  unfolding merge
  merge-Sorted [] ys h k = k
  merge-Sorted (x ∷ xs) [] h k = h
  merge-Sorted (x ∷ xs) (y ∷ ys) h k = elim (Bool-cases (leb (key x) (key y))) [
    | inl e ↦
        let le : key x ≤ key y = ground (arith, e) in
        rw e (
          All-merge (λ z. key x ≤ key z) xs (y ∷ ys) h.0 (le, All-le x y ys le k.0),
          merge-Sorted xs (y ∷ ys) h.1 k,
        )
    | inr e ↦
        let le : key y ≤ key x = ground (arith, e) in
        rw e (
          All-merge (λ z. key y ≤ key z) (x ∷ xs) ys (le, All-le y x xs le h.0) k.0,
          merge-Sorted (x ∷ xs) ys h k.1,
        )
  ]

  length-merge :
      (first second : List ℕ) → length (merge first second) ≡ length first + length second
  unfolding merge
  length-merge [] second = omega arith
  length-merge (p ∷ first) [] = omega arith
  length-merge (p ∷ first) (q ∷ second) = elim (Bool-cases (leb (key p) (key q))) [
    | inl e ↦ rw e (omega (arith, length-merge first (q ∷ second)))
    | inr e ↦ rw e (omega (arith, length-merge (p ∷ first) second))
  ]

  -- A pass merges the runs two by two.
  abbrev pub pairs : List (List ℕ) → List (List ℕ)
  pairs [] = []
  pairs (r ∷ []) = r ∷ []
  pairs (r ∷ r' ∷ rs) = merge r r' ∷ pairs rs

  pub Full-pairs : (n : ℕ) (rs : List (List ℕ)) → 1 ≤ n → Full n rs → Full (n * 2) (pairs rs)
  Full-pairs n [] h f = tt
  Full-pairs n (r ∷ []) h f = (f.0, omega (arith, f.1))
  Full-pairs n (r ∷ r' ∷ []) h f =
      (omega (arith, length-merge r r', f.0, h), omega (arith, length-merge r r', f.0, f.1.1))
  Full-pairs n (r ∷ r' ∷ r'' ∷ rs) h f =
      Full-cons (n * 2) (merge r r') (pairs (r'' ∷ rs)) (omega (arith, h))
        (omega (arith, length-merge r r', f.0, f.1.0)) (Full-pairs n (r'' ∷ rs) h f.1.1)

  pub All-Sorted-pairs : (rs : List (List ℕ)) → All Sorted rs → All Sorted (pairs rs)
  All-Sorted-pairs [] h = tt
  All-Sorted-pairs (r ∷ []) h = h
  All-Sorted-pairs (r ∷ r' ∷ rs) h = (merge-Sorted r r' h.0 h.1.0, All-Sorted-pairs rs h.1.1)

  pub length-pairs : (rs : List (List ℕ)) → length (pairs rs) * 2 ≤ length rs + 1
  length-pairs [] = omega arith
  length-pairs (r ∷ []) = omega arith
  length-pairs (r ∷ r' ∷ rs) = omega (arith, length-pairs rs)

  merge-Perm : (xs ys : List ℕ) → Perm (merge xs ys) (xs ++ ys)
  unfolding merge
  merge-Perm [] ys = Perm.refl ys
  merge-Perm (x ∷ xs) [] =
      subst (λ l. Perm (x ∷ xs) (x ∷ l)) (sym (append-nil xs)) (Perm.refl (x ∷ xs))
  merge-Perm (x ∷ xs) (y ∷ ys) = elim (Bool-cases (leb (key x) (key y))) [
    | inl e ↦ rw e (Perm.cons x (merge-Perm xs (y ∷ ys)))
    | inr e ↦
        rw e
          (Perm.trans (Perm.cons y (merge-Perm (x ∷ xs) ys)) (Perm.symm (perm_middle (x ∷ xs) ys)))
  ]

  pub pairs-Perm : (rs : List (List ℕ)) → Perm (concat (pairs rs)) (concat rs)
  pairs-Perm [] = Perm.refl []
  pairs-Perm (r ∷ []) = Perm.refl (r ++ [])
  pairs-Perm (r ∷ r' ∷ rs) =
      subst (λ l. Perm (merge r r' ++ concat (pairs rs)) l) (append_assoc r r' (concat rs))
        (Perm.append (merge-Perm r r') (pairs-Perm rs))

  pub length-concat-pairs : (rs : List (List ℕ)) → length (concat (pairs rs)) ≡ length (concat rs)
  length-concat-pairs [] = refl
  length-concat-pairs (r ∷ []) = refl
  length-concat-pairs (r ∷ r' ∷ rs) = omega (
    arith,
    length-append (merge r r') (concat (pairs rs)),
    length-merge r r',
    length-append r (r' ++ concat rs),
    length-append r' (concat rs),
    length-concat-pairs rs,
  )

  pub pairs_some : (r : List ℕ) (rs : List (List ℕ)) → 1 ≤ length (pairs (r ∷ rs))
  pairs_some r [] = omega arith
  pairs_some r (r' ∷ rs) = omega arith
