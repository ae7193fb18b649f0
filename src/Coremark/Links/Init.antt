-- ===== src/Coremark/Links/Init.antt =====
-- `core_list_init` of lib/coremark/core_list_join.c. Heads and data lie in the block one behind the other,
-- at 8 and at 4 bytes each. `none` is missing fuel or an access through NULL. The seed is given by its
-- pattern.
pub mod Block
pub mod Listed
pub mod Examples
use mlonmcu_sw.Base.{
  ℕ, zero, suc, ◌+◌, ◌*◌, ◌/◌, ◌%◌, ◌^◌, bit_or, bit_xor, Option, some, none, not, ◌==◌, ltb,
  if◌then◌else◌, u16, u32, sub32,
}
use mlonmcu_sw.Base.Partial.{◌>>=◌}
use mlonmcu_sw.Coremark.Links.{
  Store, ListData, put_next, put_info, copy_info, Inserted, core_list_insert_new,
}
use mlonmcu_sw.Coremark.Links.Sort.{core_list_mergesort}
use mlonmcu_sw.Coremark.Links.Sort.ByIdx.{Items, compare_idx}

abbrev pub items_of : Store → Items
items_of m = record { data16 = m.data16; idx = m.idx }

abbrev pub put_items : Items → Store → Store
put_items d m = record m { data16 = d.data16; idx = d.idx }

-- `core_list_mergesort(list, cmp_idx, NULL)`.
unfoldable pub sort_by_idx : (fuel list : ℕ) → Store → Option (ℕ × Store)
sort_by_idx fuel list m =
    core_list_mergesort compare_idx fuel list m (items_of m) >>= λ (list, m, d).
    some (list, put_items d m)

-- The data of round `i`.
abbrev pub pattern_of : (seed i : ℕ) → ℕ
pattern_of seed i =
    let datpat = bit_xor (seed % 2 ^ 4) (i % 2 ^ 4) in
    let dat = datpat * 2 ^ 3 + i % 2 ^ 3 in dat * 2 ^ 8 + dat

-- `n` rounds from `i` on.
unfoldable pub insert_loop : (n i seed list memblock_end datablock_end : ℕ) → Inserted → Inserted
insert_loop zero i seed list memblock_end datablock_end at = at
insert_loop (suc n) i seed list memblock_end datablock_end at =
    insert_loop n (i + 1) seed list memblock_end datablock_end (
      core_list_insert_new list (record { data16 = pattern_of seed i; idx = 0x7fff }) at.memblock
        at.datablock memblock_end datablock_end at.store)

abbrev pub index_of : (size seed i : ℕ) → ℕ
index_of size seed i =
    if ltb i (size / 5)
    then u16 i
    else bit_or (u32 (i + 1) % 2 ^ 3 * 2 ^ 8) (bit_xor (u16 i) seed) % 2 ^ 14

unfoldable pub index_loop : (fuel size seed i finder : ℕ) → Store → Option Store
index_loop zero size seed i finder m = none
index_loop (suc fuel) size seed i finder m =
    let set = record m {
      idx = λ x. if x == m.info finder then index_of size seed i else m.idx x;
    } in
    let round = index_loop fuel size seed (u32 (i + 1)) (m.next finder) set in
    if not (m.next finder == 0) then round else some m

-- The fake item for the head of the list.
abbrev pub head_item : (list datablock : ℕ) → Store → Store
head_item list datablock m =
    copy_info datablock (record { data16 = 0x8080; idx = 0 })
      (put_info list datablock (put_next list 0 m))

unfoldable pub core_list_init : (fuel blksize memblock seed : ℕ) → Store → Option (ℕ × Store)
core_list_init fuel blksize memblock seed m =
    let size = sub32 (blksize / 20) 2 in
    let memblock_end = u32 (memblock + size * 8) in
    let datablock_end = u32 (memblock_end + size * 4) in
    let tail =
      core_list_insert_new memblock (record { data16 = 0xffff; idx = 0x7fff }) (u32 (memblock + 8))
        (u32 (memblock_end + 4)) memblock_end datablock_end (head_item memblock memblock_end m) in
    let full = insert_loop size 0 seed memblock memblock_end datablock_end tail in
    let finder = full.store.next memblock in
    let sorted = index_loop fuel size seed 1 finder full.store >>= sort_by_idx fuel memblock in
    if finder == 0 then none else sorted
