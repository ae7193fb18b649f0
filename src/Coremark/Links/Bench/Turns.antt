-- ===== src/Coremark/Links/Bench/Turns.antt =====
-- `core_bench_list`: the list that `core_list_reverse` turns around.
use mathlib.Core.List.Perm
use mathlib.Core.List.{Perm, perm_middle, append_assoc}
use mathlib.Core.Nat as Nat
use mathlib.Core.List as Lists
use mlonmcu_sw.Base.Partial.{Returns, returns}
use mlonmcu_sw.Base.{
  ℕ, zero, suc, ◌≡◌, refl, ap, sym, ◌∙◌, Option, some, none, List, [], ◌∷◌, ◌++◌, length,
  Bool-cases, inl, inr, ◌==◌,
}
use mlonmcu_sw.Coremark.Links.{Store, put_next, reverse_loop}
use mlonmcu_sw.Coremark.Links.Chained.{Distinct}
use mlonmcu_sw.Coremark.Links.Reverse.{reverse_onto, Disjoint, Disjoint-cons, nothing_shared}

pub reverse_onto-Perm : (xs ys : List ℕ) → Perm (reverse_onto xs ys) (xs ++ ys)
reverse_onto-Perm [] ys = Perm.refl ys
reverse_onto-Perm (x ∷ xs) ys = Perm.trans (reverse_onto-Perm xs (x ∷ ys)) (perm_middle xs ys)

reverse_onto-Distinct :
    (xs ys : List ℕ) → Distinct xs → Distinct ys → Disjoint xs ys → Distinct (reverse_onto xs ys)
reverse_onto-Distinct [] ys dx dy apart = dy
reverse_onto-Distinct (x ∷ xs) ys dx dy apart =
    reverse_onto-Distinct xs (x ∷ ys) dx.1 (apart.0, dy) (Disjoint-cons x xs ys dx.0 apart.1)

pub reversed-Distinct : (xs : List ℕ) → Distinct xs → Distinct (reverse_onto xs [])
reversed-Distinct xs d = reverse_onto-Distinct xs [] d tt (nothing_shared xs)

onto-append : (xs ys : List ℕ) → reverse_onto xs ys ≡ reverse_onto xs [] ++ ys
onto-append [] ys = refl
onto-append (x ∷ xs) ys =
    onto-append xs (x ∷ ys)
    ∙ sym (append_assoc (reverse_onto xs []) (x ∷ []) ys)
    ∙ ap (λ l. l ++ ys) (sym (onto-append xs (x ∷ [])))

onto_both : (xs ys zs : List ℕ) → reverse_onto (xs ++ ys) zs ≡ reverse_onto ys (reverse_onto xs zs)
onto_both [] ys zs = refl
onto_both (x ∷ xs) ys zs = onto_both xs ys (x ∷ zs)

-- What stood in front of `x` stands behind it then.
pub reversed_around :
    (front : List ℕ) (x : ℕ) (back : List ℕ)
    → reverse_onto (front ++ x ∷ back) [] ≡ reverse_onto back [] ++ x ∷ reverse_onto front []
reversed_around front x back =
    onto_both front (x ∷ back) [] ∙ onto-append back (x ∷ reverse_onto front [])

-- A store, if any, with these data.
pub data Keeps (info data16 idx : ℕ → ℕ) : Option (ℕ × Store) → Type 0 where
  nothing : Keeps info data16 idx none
  kept :
      {out : ℕ × Store}
      → out.1.info ≡ info
      → out.1.data16 ≡ data16
      → out.1.idx ≡ idx
      → Keeps info data16 idx (some out)

pub reverse_loop-Keeps :
    (fuel : ℕ) (m : Store) (next list : ℕ)
    → Keeps m.info m.data16 m.idx (reverse_loop fuel m next list)
unfolding reverse_loop
reverse_loop-Keeps zero m next list = nothing
reverse_loop-Keeps (suc fuel) m next list = elim (Bool-cases (list == 0)) [
  | inl z ↦ rw z (kept refl refl refl)
  | inr z ↦ rw z (reverse_loop-Keeps fuel (put_next list next m) list (m.next list))
]

pub Returns-Keeps :
    {P : ℕ × Store → Type 0} {info data16 idx : ℕ → ℕ} {o : Option (ℕ × Store)}
    → Returns P o
    → Keeps info data16 idx o
    → Returns (λ out. P out × (out.1.info ≡ info) × (out.1.data16 ≡ data16) × (out.1.idx ≡ idx)) o
Returns-Keeps (returns p) (kept i d x) = returns (p, i, d, x)

-- The native count of the library's one.
counted : Nat.ℕ → ℕ
counted Nat.zero = 0
counted (Nat.suc n) = suc (counted n)

counted-length : (xs : List ℕ) → counted (Lists.length xs) ≡ length xs
unfolding counted
counted-length [] = refl
counted-length (x ∷ xs) = ap suc (counted-length xs)

pub Perm-length : (xs ys : List ℕ) → Perm xs ys → length xs ≡ length ys
Perm-length xs ys p = sym (counted-length xs) ∙ ap counted (Perm.length-eq p) ∙ counted-length ys
