-- ===== src/Coremark/State/Examples.antt =====
-- Tests of the state machine benchmark, and its theorems at concrete inputs.
use mlonmcu_sw.Base.{ℕ, ◌+◌, ◌≡◌, ◌≢◌, ◌↔◌, refl, arith, some, List, [], ◌∷◌, ◌++◌, replicate, inr}
use mlonmcu_sw.Coremark.State.Machine.{
  invalid, int, float, scientific, Scanned, core_state_transition,
}
use mlonmcu_sw.Coremark.State.Grammar.{IsInt, IsFloat, IsScientific}
use mlonmcu_sw.Coremark.State.Grammar.Classify.{core_state_transition_classifies}
use mlonmcu_sw.Coremark.State.Input.{core_init_state, choose}
use mlonmcu_sw.Coremark.State.Input.Filled.{EveryPattern}
use mlonmcu_sw.Coremark.State.Input.Written.{Written, core_init_state-Written}
use mlonmcu_sw.Coremark.State.Bench.{corrupt_loop, core_bench_state}
use mlonmcu_sw.Coremark.State.Bench.Restore.{Twice, StaysApart, corrupt_loop-Twice}
use mlonmcu_sw.Coremark.State.Bench.Run.{core_bench_state_restores}

abbrev memory : List ℕ
memory = replicate 42 7

-- "5012,5012,35.54400,35.54400,5.500e+3," and zeros, and the two bytes behind the block.
abbrev filled : List ℕ
filled =
    b'5' ∷ b'0' ∷ b'1' ∷ b'2' ∷ b',' ∷ b'5' ∷ b'0' ∷ b'1' ∷ b'2' ∷ b',' ∷ b'3' ∷ b'5' ∷ b'.' ∷ b'5'
    ∷ b'4' ∷ b'4' ∷ b'0' ∷ b'0' ∷ b',' ∷ b'3' ∷ b'5' ∷ b'.' ∷ b'5' ∷ b'4' ∷ b'4' ∷ b'0' ∷ b'0'
    ∷ b',' ∷ b'5' ∷ b'.' ∷ b'5' ∷ b'0' ∷ b'0' ∷ b'e' ∷ b'+' ∷ b'3' ∷ b',' ∷ 0 ∷ 0 ∷ 0 ∷ 7 ∷ 7 ∷ []

text : core_init_state 40 0 memory ≡ some filled
unfolding core_init_state choose
text = refl

abbrev counts : List ℕ
counts = replicate 8 0

abbrev number : List ℕ
number = b'-' ∷ b'8' ∷ b'7' ∷ b'e' ∷ []

core_state_transition_classifies_example :
    (r : Scanned) × (core_state_transition (number ++ b',' ∷ []) counts ≡ some r)
    × ((r.state ≡ int) ↔ IsInt number)
    × ((r.state ≡ float) ↔ IsFloat number)
    × ((r.state ≡ scientific) ↔ IsScientific number)
    × (r.state ≢ invalid → r.rest ≡ [])
core_state_transition_classifies_example =
    core_state_transition_classifies number [] counts (omega arith)

core_init_state-Written_example :
    (q : List ℕ) × (core_init_state 40 5 memory ≡ some q) × Written 40 5 memory q
core_init_state-Written_example =
    core_init_state-Written 40 5 memory (omega arith) (omega arith) (omega arith)

-- With the seed 0x15 a '9' becomes a comma and stays one.
corrupt_loop-Twice_example :
    (q r : List ℕ) × (corrupt_loop (3 + 1) 3 0x15 2 0 (b'9' ∷ b'9' ∷ b'8' ∷ []) ≡ some q)
    × (corrupt_loop (3 + 1) 3 0x3415 2 0 q ≡ some r)
    × Twice 3 0x15 2 (b'9' ∷ b'9' ∷ b'8' ∷ []) r
corrupt_loop-Twice_example =
    corrupt_loop-Twice 3 0x15 0x3415 2 (b'9' ∷ b'9' ∷ b'8' ∷ []) (omega arith) (omega arith) refl

validation_apart : EveryPattern (StaysApart 0x3415)
validation_apart = omega arith

core_bench_state_restores_example :
    (q : List ℕ) × (crc' : ℕ) × (core_init_state 40 0x3415 memory ≡ some q)
    × (core_bench_state 40 q 0x3415 0x3415 34 0 ≡ some (q, crc'))
core_bench_state_restores_example =
    core_bench_state_restores 40 0x3415 0x3415 0x3415 34 0 memory (omega arith) (omega arith)
      (omega arith) (omega arith) refl validation_apart (inr (omega arith))
