-- ===== src/Coremark/Links/Reverse.antt =====
-- `core_list_reverse`.
use mlonmcu_sw.Base.{
  ℕ, zero, suc, ◌<◌, ◌≡◌, ◌≢◌, refl, arith, List, [], ◌∷◌, All, ◌==◌, length, false, sym,
}
use mlonmcu_sw.Base.Partial.{Returns, returns}
use mlonmcu_sw.Coremark.Links.{Store, put_next, reverse_loop, core_list_reverse}
use mlonmcu_sw.Coremark.Links.Chained.{Chained, Distinct, Chained-put_next}

-- The first list backwards, and the second one behind it.
abbrev pub reverse_onto : List ℕ → List ℕ → List ℕ
reverse_onto [] ys = ys
reverse_onto (x ∷ xs) ys = reverse_onto xs (x ∷ ys)

-- No head is in both lists.
abbrev pub Disjoint : List ℕ → List ℕ → Type 0
Disjoint xs ys = All (λ x. All (λ y. x ≢ y) ys) xs

pub Disjoint-cons :
    (x : ℕ) (xs ys : List ℕ) → All (λ y. x ≢ y) xs → Disjoint xs ys → Disjoint xs (x ∷ ys)
Disjoint-cons x [] ys ne d = tt
Disjoint-cons x (z ∷ xs) ys ne d = (((λ e. ne.0 (sym e)), d.0), Disjoint-cons x xs ys ne.1 d.1)

reverse_loop-Chained :
    (fuel : ℕ) (m : Store) (next list : ℕ) (xs ys : List ℕ)
    → Chained m list xs
    → Chained m next ys
    → Distinct xs
    → Disjoint xs ys
    → length xs < fuel
    → Returns (λ out. Chained out.1 out.0 (reverse_onto xs ys)) (reverse_loop fuel m next list)
unfolding reverse_loop
reverse_loop-Chained zero m next list xs ys ch ch' dx d f = absurd (omega arith)
reverse_loop-Chained (suc fuel) m next list [] ys ch ch' dx d f = rw ch (returns ch')
reverse_loop-Chained (suc fuel) m next list (x ∷ xs) ys (at, live, ch) ch' dx d f =
    let go : (x == 0) ≡ false = ground (arith, live) in
    let m' = put_next x next m in
    let rest = Chained-put_next m x next (m.next x) xs dx.0 ch in
    let behind = Chained-put_next m x next next ys d.0 ch' in
    let written : m'.next x ≡ next = ground arith in
    let turned : Chained m' x (x ∷ ys) = (refl, live, rw written behind) in
    rw (at, go)
      (reverse_loop-Chained fuel m' x (m.next x) xs (x ∷ ys) rest turned dx.1
        (Disjoint-cons x xs ys dx.0 d.1) (omega arith))

pub nothing_shared : (xs : List ℕ) → Disjoint xs []
nothing_shared [] = tt
nothing_shared (x ∷ xs) = (tt, nothing_shared xs)

-- On a list of distinct heads, fewer than the fuel, `core_list_reverse` returns, and from the result
-- on the store holds the heads in the opposite order.
pub core_list_reverse-Chained :
    (fuel : ℕ) (m : Store) (list : ℕ) (xs : List ℕ)
    → Chained m list xs
    → Distinct xs
    → length xs < fuel
    → Returns (λ out. Chained out.1 out.0 (reverse_onto xs [])) (core_list_reverse fuel m list)
unfolding core_list_reverse
core_list_reverse-Chained fuel m list xs ch dx f =
    reverse_loop-Chained fuel m 0 list xs [] ch refl dx (nothing_shared xs) f
