-- ===== src/Coremark/Links/Sort/Examples.antt =====
-- `core_list_mergesort` on three heads.
use mlonmcu_sw.Base.{ℕ, ◌^◌, ◌≡◌, ◌<◌, inl, refl, arith, List, [], ◌∷◌, some, if◌then◌else◌, ◌==◌}
use mlonmcu_sw.Base.Partial.{Returns, ◌>>=◌}
use mlonmcu_sw.Coremark.Calc.{cmp_idx}
use mlonmcu_sw.Coremark.Links.{Store}
use mlonmcu_sw.Coremark.Links.Chained.{Chained, Distinct}
use mlonmcu_sw.Coremark.Links.Sort.{
  core_list_mergesort, sort_loop, pass_loop, walk, merge_loop, merge_step,
}
use mlonmcu_sw.Coremark.Links.Sort.Sorting.{IsSorting, core_list_mergesort-IsSorting}
use mlonmcu_sw.Coremark.Links.Sort.ByIdx.{
  Items, IsKept, compare_idx, compare_idx-ByKey, signed, core_list_mergesort-by_idx,
}

-- Heads at 8, 16 and 24, with data at 100, 104 and 108 and the indices 7, -1 and 3.
abbrev three : Store
three = record {
  next = λ x. if x == 8 then 16 else if x == 16 then 24 else 0;
  info = λ x. if x == 8 then 100 else if x == 16 then 104 else 108;
  data16 = λ x. 0;
  idx = λ x. 0;
}

abbrev items : Items
items = record { data16 = λ x. 0; idx = λ x. if x == 100 then 7 else if x == 104 then 65535 else 3 }

abbrev heads : List ℕ
heads = 8 ∷ 16 ∷ 24 ∷ []

heads-Distinct : Distinct heads
heads-Distinct = ((omega arith, (omega arith, tt)), ((omega arith, tt), (tt, tt)))

three-Chained : Chained three 8 heads
three-Chained = (refl, omega arith, (refl, omega arith, (refl, omega arith, refl)))

small : (a : ℕ) → items.idx a < 2 ^ 16
small a = ground arith

-- The list that the sort makes of them, from its head on.
in_order :
    ◌>>=◌ {B = List ℕ}
      (core_list_mergesort compare_idx 4 8 three items)
      (λ out. some (out.0 ∷ out.1.next 16 ∷ out.1.next 24 ∷ out.1.next 8 ∷ []))
    ≡ some (16 ∷ 24 ∷ 8 ∷ 0 ∷ [])
unfolding core_list_mergesort sort_loop pass_loop walk merge_loop merge_step compare_idx cmp_idx
in_order = refl

core_list_mergesort-IsSorting_example :
    Returns
      (IsSorting (IsKept items) three.info (λ a. signed (items.idx a)) heads)
      (core_list_mergesort compare_idx 4 8 three items)
core_list_mergesort-IsSorting_example =
    core_list_mergesort-IsSorting (IsKept items) three.info compare_idx (λ a. signed (items.idx a))
      (compare_idx-ByKey items small) 4 8 three items 8 (16 ∷ 24 ∷ []) three-Chained heads-Distinct
      (omega arith) (omega arith) refl (record { idx = refl; data16 = λ a. inl refl })

core_list_mergesort-by_idx_example :
    Returns
      (IsSorting (IsKept items) three.info (λ a. signed (items.idx a)) heads)
      (core_list_mergesort compare_idx 4 8 three items)
core_list_mergesort-by_idx_example =
    core_list_mergesort-by_idx 4 8 three items 8 (16 ∷ 24 ∷ []) three-Chained heads-Distinct
      (omega arith) (omega arith) small
