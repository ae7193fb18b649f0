-- ===== src/Coremark/Links/Init/Examples.antt =====
-- `core_list_init` on a block for four heads.
use mlonmcu_sw.Base.{ℕ, ◌≡◌, refl, arith, List, [], ◌∷◌, some}
use mlonmcu_sw.Base.Partial.{Returns, ◌>>=◌}
use mlonmcu_sw.Coremark.Calc.{cmp_idx}
use mlonmcu_sw.Coremark.Links.{Store, core_list_insert_new, copy_info}
use mlonmcu_sw.Coremark.Links.Sort.{
  core_list_mergesort, sort_loop, pass_loop, walk, merge_loop, merge_step,
}
use mlonmcu_sw.Coremark.Links.Sort.ByIdx.{compare_idx}
use mlonmcu_sw.Coremark.Links.Init.{core_list_init, sort_by_idx, insert_loop, index_loop}
use mlonmcu_sw.Coremark.Links.Init.Listed.{IsListed, core_list_init-IsListed}

abbrev zeroed : Store
zeroed = record { next = λ x. 0; info = λ x. 0; data16 = λ x. 0; idx = λ x. 0 }

-- The first three heads, and the index of the second.
abbrev along : ℕ × Store → List ℕ
along (list, m) = list ∷ m.next list ∷ m.next (m.next list) ∷ m.idx (m.info (m.next list)) ∷ []

-- The head that was inserted last gets the lowest index but for the fake one.
listed :
    ◌>>=◌ {B = List ℕ} (core_list_init 10 140 1000 0 zeroed) (λ out. some (along out))
    ≡ some (1000 ∷ 1024 ∷ 1016 ∷ 513 ∷ [])
unfolding core_list_init sort_by_idx insert_loop index_loop core_list_insert_new copy_info
    core_list_mergesort sort_loop pass_loop walk merge_loop merge_step compare_idx cmp_idx
listed = refl

core_list_init-IsListed_example : Returns (IsListed 1000 3) (core_list_init 10 140 1000 7 zeroed)
core_list_init-IsListed_example =
    core_list_init-IsListed 10 140 1000 7 zeroed (omega arith) (omega arith) (omega arith)
      (omega arith) (λ a. omega arith)
