-- ===== src/Coremark/Links/Examples.antt =====
-- The list operations on three heads.
use mlonmcu_sw.Base.{ℕ, ◌≡◌, refl, arith, List, [], ◌∷◌, if◌then◌else◌, ◌==◌}
use mlonmcu_sw.Base.Partial.{Returns}
use mlonmcu_sw.Coremark.Links.{
  Store, ListData, core_list_remove, core_list_undo_remove, core_list_reverse, core_list_find,
  core_list_insert_new,
}
use mlonmcu_sw.Coremark.Links.Chained.{Chained}
use mlonmcu_sw.Coremark.Links.Undo.{SameStore, core_list_undo_remove-SameStore}
use mlonmcu_sw.Coremark.Links.Remove.{Removed, core_list_remove-Removed}
use mlonmcu_sw.Coremark.Links.Reverse.{core_list_reverse-Chained}
use mlonmcu_sw.Coremark.Links.Find.{Found, core_list_find-Found}
use mlonmcu_sw.Coremark.Links.Insert.{Outcome, core_list_insert_new-Outcome}

-- Heads at 8, 16 and 24, with data at 100, 104 and 108.
abbrev three : Store
three = record {
  next = λ x. if x == 8 then 16 else if x == 16 then 24 else 0;
  info = λ x. if x == 8 then 100 else if x == 16 then 104 else 108;
  data16 = λ x. x;
  idx = λ x. if x == 104 then 7 else 3;
}

abbrev heads : List ℕ
heads = 8 ∷ 16 ∷ 24 ∷ []

three-Chained : Chained three 8 heads
three-Chained = (refl, omega arith, (refl, omega arith, (refl, omega arith, refl)))

core_list_undo_remove-SameStore_example :
    let (ret, m') = core_list_remove 16 three in
    (ret ≡ 24) × SameStore three (core_list_undo_remove ret 16 m').1
core_list_undo_remove-SameStore_example = core_list_undo_remove-SameStore 16 three (omega arith)

core_list_reverse-Chained_example :
    Returns (λ out. Chained out.1 out.0 (24 ∷ 16 ∷ 8 ∷ [])) (core_list_reverse 4 three 8)
core_list_reverse-Chained_example =
    core_list_reverse-Chained 4 three 8 heads three-Chained
      ((omega arith, (omega arith, tt)), ((omega arith, tt), (tt, tt))) (omega arith)

abbrev seven : ListData
seven = record { data16 = 0; idx = 7 }

core_list_find-Found_example : Returns (Found three seven heads) (core_list_find 4 three 8 seven)
core_list_find-Found_example =
    core_list_find-Found 4 three 8 seven heads three-Chained (omega arith)

core_list_insert_new-Outcome_example :
    Outcome three 8 8 seven []
      (16 ∷ 24 ∷ [])
      32
      112
      80
      140
      (core_list_insert_new 8 seven 32 112 80 140 three)
core_list_insert_new-Outcome_example =
    core_list_insert_new-Outcome three 8 8 seven [] (16 ∷ 24 ∷ []) 32 112 80 140 (omega arith)
      (omega arith) (omega arith) three-Chained (omega arith, (omega arith, (omega arith, tt))) tt
      (omega arith, (omega arith, tt))

core_list_remove-Removed_example : Removed three 8 8 16 [] (24 ∷ []) (core_list_remove 8 three)
core_list_remove-Removed_example =
    core_list_remove-Removed three 8 8 16 [] (24 ∷ []) three-Chained (omega arith) tt tt
      (omega arith, tt) (omega arith, tt)
