-- ===== src/Coremark/Links/Chained.antt =====
-- The list of heads that a store holds.
use mlonmcu_sw.Base.{ℕ, ◌≡◌, ◌≢◌, arith, List, [], ◌∷◌, All, ◌==◌, false}
use mlonmcu_sw.Coremark.Links.{Store, put_next}

abbrev pub Chained : Store → ℕ → List ℕ → Type 0
Chained m p [] = p ≡ 0
Chained m p (x ∷ xs) = (p ≡ x) × (x ≢ 0) × Chained m (m.next x) xs

abbrev pub Distinct : List ℕ → Type 0
Distinct [] = Unit {0}
Distinct (x ∷ xs) = All (λ y. x ≢ y) xs × Distinct xs

-- A write to another head leaves a list alone.
pub Chained-put_next :
    (m : Store) (x v p : ℕ) (xs : List ℕ)
    → All (λ y. x ≢ y) xs
    → Chained m p xs
    → Chained (put_next x v m) p xs
Chained-put_next m x v p [] ne ch = ch
Chained-put_next m x v p (y ∷ xs) ne (at, live, ch) =
    let other : (y == x) ≡ false = ground (arith, ne.0) in
    (at, live, rw other (Chained-put_next m x v (m.next y) xs ne.1 ch))
