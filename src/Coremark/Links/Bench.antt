-- ===== src/Coremark/Links/Bench.antt =====
-- `core_bench_list` of lib/coremark/core_list_join.c. `none` is missing fuel or an access through NULL.
-- `finder_idx` and `find_num` are given by their patterns, and `unset` is what the variable for the data
-- to look for holds before the first round.
pub mod Moves
pub mod Turns
pub mod Rounds
pub mod Back
pub mod Examples
use mlonmcu_sw.Base.{
  ℕ, zero, suc, ◌+◌, ◌-◌, ◌*◌, ◌/◌, ◌%◌, ◌^◌, Option, some, none, not, ◌==◌, ltb, leb,
  if◌then◌else◌, ◌&&◌, ◌||◌, u16,
}
use mlonmcu_sw.Base.Partial.{◌>>=◌}
use mlonmcu_sw.Coremark.Util.{crc16}
use mlonmcu_sw.Coremark.Calc.{Results, cmp_complex}
use mlonmcu_sw.Coremark.Links.{
  Store, ListData, put_next, core_list_find, core_list_reverse, core_list_remove,
  core_list_undo_remove,
}
use mlonmcu_sw.Coremark.Links.Sort.{core_list_mergesort}
use mlonmcu_sw.Coremark.Links.Sort.ByIdx.{Items}
use mlonmcu_sw.Coremark.Links.Init.{items_of, put_items, sort_by_idx}

-- `cmp_complex` on the data of the list.
unfoldable pub compare_complex : (a b : ℕ) → Items × Results → Option (ℕ × (Items × Results))
compare_complex a b (d, res) =
    cmp_complex (d.data16 a) (d.data16 b) res >>= λ (r, data_a, data_b, res). some (
      r,
      (
        record d { data16 = λ x. if x == b then data_b else if x == a then data_a else d.data16 x },
        res,
      ),
    )

-- The variables of the searches.
pub record Search : Type 0 where
  pub retval : ℕ
  pub found : ℕ
  pub missed : ℕ
  pub list : ℕ
  pub info : ListData
  pub store : Store

-- The item behind the found one moves to the place behind the head.
abbrev pub cache_next : (this_find list : ℕ) → Store → Store
cache_next this_find list m =
    let finder = m.next this_find in
    let m = put_next this_find (m.next finder) m in
    let m = put_next finder (m.next list) m in put_next list finder m

unfoldable pub find_round : (fuel i : ℕ) → Search → Option Search
find_round fuel i s = do
  let info : ListData = record s.info { data16 = i % 2 ^ 8 }
  let next_info : ListData = record info {
    idx = if ltb info.idx (2 ^ 15) then u16 (info.idx + 1) else info.idx;
  }
  this_find ← core_list_find fuel s.store s.list info
  (list, m) ← core_list_reverse fuel s.store s.list
  let second = m.data16 (m.info (m.next list))
  let value = m.data16 (m.info this_find)
  let missed : Search = record s {
    retval = u16 (s.retval + second / 2 ^ 8 % 2);
    missed = u16 (s.missed + 1);
    list = list;
    info = next_info;
    store = m;
  }
  let found : Search = record s {
    retval = if value % 2 == 0 then s.retval else u16 (s.retval + value / 2 ^ 9 % 2);
    found = u16 (s.found + 1);
    list = list;
    info = next_info;
    store = if m.next this_find == 0 then m else cache_next this_find list m;
  }
  if this_find == 0
      then (if list == 0 || m.next list == 0 then none else some missed)
      else some found

-- `n` rounds from `i` on.
unfoldable pub search_loop : (fuel n i : ℕ) → Search → Option Search
search_loop fuel zero i s = some s
search_loop fuel (suc n) i s = find_round fuel i s >>= search_loop fuel n (i + 1)

-- The checksum gets the data of the head of the list once for each item from `finder` on.
unfoldable pub crc_loop : (fuel : ℕ) → Store → (list finder retval : ℕ) → Option ℕ
crc_loop zero m list finder retval = none
crc_loop (suc fuel) m list finder retval =
    let rest = crc_loop fuel m list (m.next finder) (crc16 (m.data16 (m.info list)) retval) in
    if not (finder == 0) then rest else some retval

-- The head of the list behind the sort by the data, if there is one.
unfoldable pub sort_by_data :
    (fuel finder_idx list : ℕ) → Store → Results → Option (ℕ × Store × Results)
sort_by_data fuel finder_idx list m res =
    let sorted =
      core_list_mergesort compare_complex fuel list m (items_of m, res) >>= λ (list, m, (d, res)).
      some (list, put_items d m, res) in
    if not (finder_idx == 0) && ltb finder_idx (2 ^ 15) then sorted else some (list, m, res)

-- The checksum, the memory, and the results of all kernels.
unfoldable pub core_bench_list :
    (fuel list find_num finder_idx unset : ℕ) → Store → Results → Option (ℕ × Store × Results)
core_bench_list fuel list find_num finder_idx unset m res = do
  s ← search_loop fuel (if ltb find_num (2 ^ 15) then find_num else 0) 0 (record {
    retval = 0;
    found = 0;
    missed = 0;
    list = list;
    info = record { data16 = unset; idx = finder_idx };
    store = m;
  })
  let retval = u16 (s.retval + s.found * 4 + (2 ^ 16 - s.missed))
  (list, m, res) ← sort_by_data fuel finder_idx s.list s.store res
  (remover, m) ←
      if list == 0 || m.next list == 0 || m.next (m.next list) == 0
      then none
      else some (core_list_remove (m.next list) m)
  finder ← core_list_find fuel m list s.info
  retval ← crc_loop fuel m list (if finder == 0 then m.next list else finder) retval
  let (remover, m) = core_list_undo_remove remover (m.next list) m
  (list, m) ← sort_by_idx fuel list m
  retval ← crc_loop fuel m list (m.next list) retval
  some (retval, m, res)
