-- ===== src/Coremark/Links/Remove.antt =====
-- `core_list_remove` on the list.
use mlonmcu_sw.Base.{ℕ, ◌≡◌, ◌≢◌, refl, arith, List, [], ◌∷◌, ◌++◌, All}
use mlonmcu_sw.Coremark.Links.{Store, put_next, put_info, core_list_remove}
use mlonmcu_sw.Coremark.Links.Chained.{Chained, Chained-put_next}
use mlonmcu_sw.Coremark.Links.Insert.{Chained-same_next}

-- The store after the item `y` behind `x` went out of the list, with the data of `x`.
pub record Removed (m : Store) (p x y : ℕ) (front back : List ℕ) (out : ℕ × Store) : Type 0 where
  pub item : out.0 ≡ y
  pub list : Chained out.1 p (front ++ x ∷ back)
  pub alone : out.1.next y ≡ 0
  pub moved : out.1.info x ≡ m.info y
  pub taken : out.1.info y ≡ m.info x
  pub others : (z : ℕ) → z ≢ x → z ≢ y → out.1.info z ≡ m.info z

module _ (m : Store) (x y : ℕ) (apart : x ≢ y) where
  abbrev unlinked : Store
  unlinked = put_next y 0 (put_next x (m.next y) m)

  Chained-unlinked :
      (p : ℕ) (front back : List ℕ)
      → Chained m p (front ++ x ∷ y ∷ back)
      → All (λ z. x ≢ z) front
      → All (λ z. y ≢ z) front
      → All (λ z. x ≢ z) back
      → All (λ z. y ≢ z) back
      → Chained unlinked p (front ++ x ∷ back)
  Chained-unlinked p [] back (head, alive, (at_y, live, ch)) fx fy bx by =
      let next_x : unlinked.next x ≡ m.next y = ground (arith, apart) in
      let m' = put_next x (m.next y) m in
      let rest =
        Chained-put_next m' y 0 (m.next y) back by
          (Chained-put_next m x (m.next y) (m.next y) back bx ch) in
      (head, alive, rw next_x rest)
  Chained-unlinked p (z ∷ front) back (head, alive, ch) fx fy bx by =
      let same : unlinked.next z ≡ m.next z = ground (arith, fx.0, fy.0) in
      let rest = Chained-unlinked (m.next z) front back ch fx.1 fy.1 bx by in
      (head, alive, rw same rest)

pub successor :
    (m : Store) (p x y : ℕ) (front back : List ℕ)
    → Chained m p (front ++ x ∷ y ∷ back)
    → m.next x ≡ y
successor m p x y [] back (head, alive, (at_y, live, ch)) = at_y
successor m p x y (z ∷ front) back (head, alive, ch) = successor m (m.next z) x y front back ch

-- On a list in which the heads `x` and `y` follow each other and do not come again, `core_list_remove` of `x`
-- returns `y` alone: the list goes on behind `x` as it went on behind `y`, and `x` and `y` have exchanged their
-- data, while all other heads keep theirs.
pub core_list_remove-Removed :
    (m : Store) (p x y : ℕ) (front back : List ℕ)
    → Chained m p (front ++ x ∷ y ∷ back)
    → x ≢ y
    → All (λ z. x ≢ z) front
    → All (λ z. y ≢ z) front
    → All (λ z. x ≢ z) back
    → All (λ z. y ≢ z) back
    → Removed m p x y front back (core_list_remove x m)
core_list_remove-Removed m p x y front back ch apart fx fy bx by =
    let e = successor m p x y front back ch in
    let list = Chained-unlinked m x y apart p front back ch fx fy bx by in
    let swapped = put_info y (m.info x) (put_info x (m.info y) m) in
    let final : Store = put_next y 0 (put_next x (m.next y) swapped) in
    let value : core_list_remove x m ≡ (y, final) = unfold core_list_remove in rw e refl in
    rw value record {
      item = refl;
      list = Chained-same_next (unlinked m x y apart) final p (front ++ x ∷ back) (λ z. refl) list;
      alone = ground arith;
      moved = ground (arith, apart);
      taken = ground (arith, apart);
      others = λ z ne ne'. ground (arith, ne, ne');
    }
