-- ===== src/Coremark/Links/Sort/ByIdx.antt =====
-- `core_list_mergesort` with `cmp_idx`, where `res` is NULL, as core_bench_list calls it.
use mlonmcu_sw.Base.{
  ◌*◌, ◌/◌, ◌⊎◌, ap, ◌∙◌, ℕ, ◌+◌, ◌%◌, ◌^◌, ◌≡◌, ◌<◌, inl, inr, refl, arith, sym, subst, Bool-cases,
  not, Option, some, List, ◌∷◌, length, ltb, leb, ◌==◌, if◌then◌else◌, slt32, sub32,
}
use mlonmcu_sw.Base.Partial.{Returns, returns}
use mlonmcu_sw.Coremark.Calc.{cmp_idx, regenerate}
use mlonmcu_sw.Coremark.Matrix.{extend}
use mlonmcu_sw.Coremark.Links.{Store}
use mlonmcu_sw.Coremark.Links.Chained.{Chained, Distinct}
use mlonmcu_sw.Coremark.Links.Sort.{core_list_mergesort}
use mlonmcu_sw.Coremark.Links.Sort.Steps.{ByKey}
use mlonmcu_sw.Coremark.Links.Sort.Sorting.{IsSorting, core_list_mergesort-IsSorting}

-- The data of the list, at their addresses.
pub record Items : Type 0 where
  pub data16 : ℕ → ℕ
  pub idx : ℕ → ℕ

unfoldable pub compare_idx : (a b : ℕ) → Items → Option (ℕ × Items)
compare_idx a b d =
    let (r, data_a, data_b) = cmp_idx (d.data16 a) (d.idx a) (d.data16 b) (d.idx b) in
    some (
      r,
      record d { data16 = λ x. if x == b then data_b else if x == a then data_a else d.data16 x },
    )

-- The order of `ee_s16` on its patterns.
abbrev pub signed : ℕ → ℕ
signed v = (v + 2 ^ 15) % 2 ^ 16

less_idx :
    (v w : ℕ)
    → v < 2 ^ 16
    → w < 2 ^ 16
    → slt32 0 (sub32 (extend v) (extend w)) ≡ not (leb (signed v) (signed w))
less_idx v w sv sw = elim (Bool-cases (ltb v (2 ^ 15))) [
  | inl p ↦ elim (Bool-cases (ltb w (2 ^ 15))) [
    | inl q ↦ rw (p, q) (ground arith)
    | inr q ↦ rw (p, q) (ground arith)
  ]
  | inr p ↦ elim (Bool-cases (ltb w (2 ^ 15))) [
    | inl q ↦ rw (p, q) (ground arith)
    | inr q ↦ rw (p, q) (ground arith)
  ]
]

-- A datum as it was, or with its upper byte in the place of the lower one, too.
abbrev pub Rebuilt : (old new : ℕ) → Type 0
Rebuilt old new = (new ≡ old) ⊎ (new ≡ old / 2 ^ 8 * 2 ^ 8 + old / 2 ^ 8 % 2 ^ 8)

pub Rebuilt-trans : (old new newest : ℕ) → Rebuilt old new → Rebuilt new newest → Rebuilt old newest
Rebuilt-trans old new newest (inl e) h = subst (λ (o : ℕ). Rebuilt o newest) e h
Rebuilt-trans old new newest (inr e) (inl e') = inr (e' ∙ e)
Rebuilt-trans old new newest (inr e) (inr e') = inr (omega (arith, e, e'))

-- Items with the same indices, and with data as they were or rebuilt.
pub record IsKept (d e : Items) : Type 0 where
  pub idx : e.idx ≡ d.idx
  pub data16 : (a : ℕ) → Rebuilt (d.data16 a) (e.data16 a)

pub compare_idx-ByKey :
    (d : Items)
    → ((a : ℕ) → d.idx a < 2 ^ 16)
    → ByKey (IsKept d) (λ a. signed (d.idx a)) compare_idx
unfolding compare_idx cmp_idx
compare_idx-ByKey d small = record {
  decides = λ a b e k. returns (
    subst
        (λ (i : ℕ → ℕ).
          slt32 0 (sub32 (extend (i a)) (extend (i b)))
          ≡ not (leb (signed (d.idx a)) (signed (d.idx b))))
        (sym k.idx) (less_idx (d.idx a) (d.idx b) (small a) (small b)),
    record { idx = k.idx; data16 = λ x. rebuilt a b e k x },
  );
}
  where
    rebuilt :
        (a b : ℕ) (e : Items)
        → IsKept d e
        → (x : ℕ)
        → Rebuilt (d.data16 x) (
            if x == b
            then regenerate (e.data16 b)
            else if x == a
            then regenerate (e.data16 a)
            else e.data16 x)
    rebuilt a b e k x = elim (Bool-cases (x == b)) [
      | inl z ↦
          let at : x ≡ b = ground (arith, z) in
          rw z (
            Rebuilt-trans (d.data16 x) (e.data16 x) (regenerate (e.data16 b)) (k.data16 x)
              (inr (ap (λ (c : ℕ). regenerate (e.data16 c)) (sym at))))
      | inr z ↦ elim (Bool-cases (x == a)) [
        | inl y ↦
            let at : x ≡ a = ground (arith, y) in
            rw (z, y)
              (Rebuilt-trans (d.data16 x) (e.data16 x) (regenerate (e.data16 a)) (k.data16 x)
                (inr (ap (λ (c : ℕ). regenerate (e.data16 c)) (sym at))))
        | inr y ↦ rw (z, y) (k.data16 x)
      ]
    ]

-- On a list of distinct heads, at least one, fewer than the fuel and than 2 ^ 30, with indices below
-- 2 ^ 16, the sort with `cmp_idx` returns. From the result on, the store holds the same heads in the
-- signed order of their indices, each with the data pointer that it had. No index has changed, and each
-- datum is as it was or has its upper byte in the place of the lower one, too.
pub core_list_mergesort-by_idx :
    (fuel list : ℕ) (m : Store) (d : Items) (x : ℕ) (xs : List ℕ)
    → Chained m list (x ∷ xs)
    → Distinct (x ∷ xs)
    → length (x ∷ xs) < fuel
    → length (x ∷ xs) < 2 ^ 30
    → ((a : ℕ) → d.idx a < 2 ^ 16)
    → Returns
        (IsSorting (IsKept d) m.info (λ a. signed (d.idx a)) (x ∷ xs))
        (core_list_mergesort compare_idx fuel list m d)
core_list_mergesort-by_idx fuel list m d x xs ch distinct f short small =
    core_list_mergesort-IsSorting (IsKept d) m.info compare_idx (λ a. signed (d.idx a))
      (compare_idx-ByKey d small) fuel list m d x xs ch distinct f short refl
      (record { idx = refl; data16 = λ a. inl refl })
