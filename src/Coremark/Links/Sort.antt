-- ===== src/Coremark/Links/Sort.antt =====
-- `core_list_mergesort` of lib/coremark/core_list_join.c. `cmp` is a parameter: it gives the pattern of an
-- `ee_s32`, and may change the state that `res` and the data of the list make up. `none` is missing fuel or
-- a write through NULL.
pub mod Runs
pub mod Splits
pub mod Adding
pub mod Steps
pub mod Passes
pub mod Sorting
pub mod ByIdx
pub mod Examples
use mlonmcu_sw.Base.{
  ℕ, zero, suc, ◌+◌, ◌-◌, ◌*◌, Bool, Option, some, none, not, ◌==◌, leb, if◌then◌else◌, ◌&&◌, ◌||◌,
  u32, slt32,
}
use mlonmcu_sw.Base.Partial.{◌>>=◌}
use mlonmcu_sw.Coremark.Links.{Store, put_next}

-- The variables of the sort.
pub record Merging (S : Type 0) : Type 0 where
  pub list : ℕ
  pub tail : ℕ
  pub p : ℕ
  pub q : ℕ
  pub psize : ℕ
  pub qsize : ℕ
  pub store : Store
  pub res : S

-- The next element of the merged list.
abbrev pub add : {S : Type 0} → (e : ℕ) → Merging S → Merging S
add e st = record st {
  store = if st.tail == 0 then st.store else put_next st.tail e st.store;
  list = if st.tail == 0 then e else st.list;
  tail = e;
}

abbrev pub from_p : {S : Type 0} → Merging S → Merging S
from_p st = add st.p (record st { p = st.store.next st.p; psize = st.psize - 1 })

abbrev pub from_q : {S : Type 0} → Merging S → Merging S
from_q st = add st.q (record st { q = st.store.next st.q; qsize = st.qsize - 1 })

-- The walk of at most `insize` places along from `q`.
unfoldable pub walk : (insize : ℕ) → Store → (q psize : ℕ) → ℕ × ℕ
walk zero m q psize = (q, psize)
walk (suc n) m q psize =
    let rest = walk n m (m.next q) (psize + 1) in
    if m.next q == 0 then (m.next q, psize + 1) else rest

module _ {S : Type 0} (cmp : ℕ → ℕ → S → Option (ℕ × S)) where
  -- One round of the merge, up to `tail = e`.
  unfoldable pub merge_step : Merging S → Option (Merging S)
  merge_step st =
      if st.psize == 0
      then some (from_q st)
      else if st.qsize == 0 || st.q == 0
      then some (from_p st)
      else (cmp (st.store.info st.p) (st.store.info st.q) st.res >>= λ (r, res). some (
          if slt32 0 r then from_q (record st { res = res }) else from_p (record st { res = res })))

  unfoldable pub merge_loop : (fuel : ℕ) → Merging S → Option (Merging S)
  unfolding merge_step
  merge_loop zero st = none
  merge_loop (suc fuel) st =
      let more = merge_step st >>= merge_loop fuel in
      if not (st.psize == 0) || (not (st.qsize == 0) && not (st.q == 0)) then more else some st

  -- The loop over the pairs of runs.
  unfoldable pub pass_loop : (fuel insize : ℕ) → (nmerges : ℕ) → Merging S → Option (ℕ × Merging S)
  pass_loop zero insize nmerges st = none
  pass_loop (suc fuel) insize nmerges st =
      let (q, psize) = walk insize st.store st.p 0 in
      let round =
        merge_loop (psize + insize + 1) (record st { q = q; psize = psize; qsize = insize })
        >>= λ st'. pass_loop fuel insize (nmerges + 1) (record st' { p = st'.q }) in
      if not (st.p == 0) then round else some (nmerges, st)

  unfoldable pub sort_loop : (fuel insize : ℕ) → (list : ℕ) → Store → S → Option (ℕ × Store × S)
  sort_loop zero insize list m res = none
  sort_loop (suc fuel) insize list m res =
      pass_loop (suc fuel) insize 0
        (record { list = 0; tail = 0; p = list; q = 0; psize = 0; qsize = 0; store = m; res = res })
      >>= λ (nmerges, st).
          let m = put_next st.tail 0 st.store in
          let again = sort_loop fuel (u32 (insize * 2)) st.list m st.res in
          if st.tail == 0 then none else if leb nmerges 1 then some (st.list, m, st.res) else again

  unfoldable pub core_list_mergesort : (fuel list : ℕ) → Store → S → Option (ℕ × Store × S)
  core_list_mergesort fuel list m res = sort_loop fuel 1 list m res
