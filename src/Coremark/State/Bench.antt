-- ===== src/Coremark/State/Bench.antt =====
-- `core_bench_state`: two scans of the text with a corruption after each. The memory is the list
-- of the bytes from `memblock` on; `none` is an access past its end, or a loop that does not end
-- within the fuel. `step` is positive.
pub mod Corrupt
pub mod Machine
pub mod Restore
pub mod Run
use mlonmcu_sw.Base.{ℕ, zero, suc, ◌+◌, ◌≡◌, Option, none, some, List, [], ◌∷◌, ltb, ◌==◌, bit_xor}
use mlonmcu_sw.Base.{if◌then◌else◌, u8, get_elem?, get_or, set, length, replicate}
use mlonmcu_sw.Base.Partial.{◌>>=◌}
use mlonmcu_sw.Coremark.Util.{crcu32}
use mlonmcu_sw.Coremark.State.Machine.{count, core_state_transition}

-- `track_counts` and `final_counts`.
pub record Counts : Type 0 where
  pub track : List ℕ
  pub final : List ℕ

-- `while (*p != 0)`, on the text from `p` on.
unfoldable pub machine_loop : ℕ → List ℕ → Counts → Option Counts
machine_loop zero text counts = none
machine_loop (suc fuel) [] counts = none
machine_loop (suc fuel) (c ∷ text) counts =
    let round = (do
      r ← core_state_transition (c ∷ text) counts.track
      machine_loop fuel r.rest (record { track = r.counts; final = count r.state counts.final })) in
    if c == 0 then some counts else round

-- `while (p < (memblock + blksize))`, with `p` at the index `i`.
unfoldable pub corrupt_loop : ℕ → (blksize seed step i : ℕ) → List ℕ → Option (List ℕ)
corrupt_loop zero blksize seed step i memory = none
corrupt_loop (suc fuel) blksize seed step i memory =
    let round = (do
      b ← get_elem? memory i
      corrupt_loop fuel blksize seed step (i + step)
          (if b == b',' then memory else set memory i (bit_xor b (u8 seed)))) in
    if ltb i blksize then round else some memory

-- The loop over the states at the end.
unfoldable pub sum_loop : ℕ → ℕ → Counts → ℕ → ℕ
sum_loop zero i counts crc = crc
sum_loop (suc left) i counts crc =
    sum_loop left (i + 1) counts
      (crcu32 (get_or counts.track i 0) (crcu32 (get_or counts.final i 0) crc))

abbrev pub no_counts : Counts
no_counts = record { track = replicate 8 0; final = replicate 8 0 }

-- Each scan has a round for every byte of the memory, each corruption one for every byte of the
-- block.
unfoldable pub core_bench_state :
    (blksize : ℕ) → List ℕ → (seed1 seed2 step crc : ℕ) → Option (List ℕ × ℕ)
unfolding machine_loop corrupt_loop sum_loop
core_bench_state blksize memory seed1 seed2 step crc = do
  counts ← machine_loop (length memory + 1) memory no_counts
  corrupted ← corrupt_loop (blksize + 1) blksize seed1 step 0 memory
  counts ← machine_loop (length memory + 1) corrupted counts
  restored ← corrupt_loop (blksize + 1) blksize seed2 step 0 corrupted
  some (restored, sum_loop 8 0 counts crc)
