-- ===== src/Coremark/Links.antt =====
-- lib/coremark/core_list_join.c: the operations on the linked list. Pointers are numbers, NULL is 0, and
-- the fields of the heads and of the data lie at their addresses. `none` is a walk that did not end
-- within the fuel. Elements of `ee_s16` are given by their patterns.
pub mod Undo
pub mod Chained
pub mod Reverse
pub mod Find
pub mod Insert
pub mod Remove
pub mod Sort
pub mod Init
pub mod Bench
pub mod Examples
use mlonmcu_sw.Base.{
  u32, ℕ, zero, suc, ◌+◌, ◌%◌, ◌^◌, Bool, Option, some, none, not, ◌==◌, ltb, leb, if◌then◌else◌,
  ◌&&◌,
}

-- `list_head` and `list_data`.
pub record Store : Type 0 where
  pub next : ℕ → ℕ
  pub info : ℕ → ℕ
  pub data16 : ℕ → ℕ
  pub idx : ℕ → ℕ

abbrev pub put_next : ℕ → ℕ → Store → Store
put_next p v m = record m { next = λ x. if x == p then v else m.next x }

abbrev pub put_info : ℕ → ℕ → Store → Store
put_info p v m = record m { info = λ x. if x == p then v else m.info x }

-- `core_list_remove`: the removed head and the store.
unfoldable pub core_list_remove : ℕ → Store → ℕ × Store
core_list_remove item m =
    let ret = m.next item in
    let tmp = m.info item in
    let m = put_info item (m.info ret) m in
    let m = put_info ret tmp m in
    let m = put_next item (m.next (m.next item)) m in (ret, put_next ret 0 m)

unfoldable pub core_list_undo_remove : (item_removed item_modified : ℕ) → Store → ℕ × Store
core_list_undo_remove item_removed item_modified m =
    let tmp = m.info item_removed in
    let m = put_info item_removed (m.info item_modified) m in
    let m = put_info item_modified tmp m in
    let m = put_next item_removed (m.next item_modified) m in
    (item_removed, put_next item_modified item_removed m)

-- The data to look for.
pub record ListData : Type 0 where
  pub data16 : ℕ
  pub idx : ℕ

-- The test of the loop for the kind of search that the index selects.
unfoldable pub matches : Store → ListData → ℕ → Bool
matches m info p =
    if ltb info.idx (2 ^ 15)
    then m.idx (m.info p) == info.idx
    else (m.data16 (m.info p) % 2 ^ 8) == info.data16

unfoldable pub find_loop : ℕ → Store → ListData → ℕ → Option ℕ
unfolding matches
find_loop zero m info list = none
find_loop (suc fuel) m info list =
    let round = find_loop fuel m info (m.next list) in
    if not (list == 0) && not (matches m info list) then round else some list

unfoldable pub core_list_find : ℕ → Store → ℕ → ListData → Option ℕ
unfolding find_loop
core_list_find fuel m list info = find_loop fuel m info list

unfoldable pub reverse_loop : ℕ → Store → (next list : ℕ) → Option (ℕ × Store)
reverse_loop zero m next list = none
reverse_loop (suc fuel) m next list =
    let round = reverse_loop fuel (put_next list next m) list (m.next list) in
    if not (list == 0) then round else some (next, m)

unfoldable pub core_list_reverse : ℕ → Store → ℕ → Option (ℕ × Store)
unfolding reverse_loop
core_list_reverse fuel m list = reverse_loop fuel m 0 list

-- `copy_info`.
unfoldable pub copy_info : (to : ℕ) → ListData → Store → Store
copy_info to info m = record m {
  data16 = λ x. if x == to then info.data16 else m.data16 x;
  idx = λ x. if x == to then info.idx else m.idx x;
}

-- The result of `core_list_insert_new`, and what the pointers that it advances hold then. A head
-- has 8 bytes, data has 4.
pub record Inserted : Type 0 where
  pub item : ℕ
  pub memblock : ℕ
  pub datablock : ℕ
  pub store : Store

unfoldable pub core_list_insert_new :
    (insert_point : ℕ)
    → ListData
    → (memblock datablock memblock_end datablock_end : ℕ) → Store
    → Inserted
unfolding copy_info
core_list_insert_new insert_point info memblock datablock memblock_end datablock_end m =
    let no_room : Inserted = record {
      item = 0;
      memblock = memblock;
      datablock = datablock;
      store = m;
    } in
    if leb memblock_end (u32 (memblock + 8))
    then no_room
    else if leb datablock_end (u32 (datablock + 4))
    then no_room
    else let m = put_next memblock (m.next insert_point) m in
      let m = put_next insert_point memblock m in
      let m = put_info memblock datablock m in
      record {
        item = memblock;
        memblock = u32 (memblock + 8);
        datablock = u32 (datablock + 4);
        store = copy_info datablock info m;
      }
