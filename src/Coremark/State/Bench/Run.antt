-- ===== src/Coremark/State/Bench/Run.antt =====
-- The benchmark on the text that `core_init_state` made.
use native.Mathlib.Nat.{mod-add-mod, mod-eq_of_lt}
use mlonmcu_sw.Base.{ℕ, ◌+◌, ◌-◌, ◌%◌, ◌^◌, ◌≤◌, ◌<◌, ◌≡◌, ◌≢◌, refl, arith, ◌∙◌, sym, ap}
use mlonmcu_sw.Base.{true, false, inl, inr, some, List, Bool-cases, u8, get_or, length}
use mlonmcu_sw.Base.Partial.{Returns, returns, bind, result}
use mlonmcu_sw.Coremark.State.Input.{core_init_state}
use mlonmcu_sw.Coremark.State.Input.Filled.{EveryPattern, Filled, core_init_state-Filled}
use mlonmcu_sw.Coremark.State.Bench.{no_counts, core_bench_state}
use mlonmcu_sw.Coremark.State.Bench.Corrupt.{meets, Corrupted, corrupt_loop-Corrupted}
use mlonmcu_sw.Coremark.State.Bench.Machine.{HasNul, HasNul-get_or, machine_loop_ends}
use mlonmcu_sw.Coremark.State.Bench.Restore.{StaysApart, Twice-eq, Corrupted-Twice}

-- A walk of two steps or more does not meet two neighbours.
not_both : (j step : ℕ) → 2 ≤ step → j % step ≡ 0 → (j + 1) % step ≢ 0
not_both j step h e f =
    let one : (j + 1) % step ≡ 1 =
      sym (mod-add-mod j step 1) ∙ ap (λ t. (t + 1) % step) e ∙ mod-eq_of_lt (omega arith) in
    omega arith

unmet :
    (size step j : ℕ) → 2 ≤ step → meets size step 0 j ≡ true → meets size step 0 (j + 1) ≡ false
unmet size step j h met = elim (Bool-cases (meets size step 0 (j + 1))) [
  | inl also ↦ absurd (not_both j step h (ground arith) (ground arith))
  | inr passed ↦ passed
]

-- The corruption leaves one of the two zeros at the end of the text.
still_ends :
    {P : ℕ → Type 0} (size seed step : ℕ) {p q r : List ℕ}
    → 2 ≤ step
    → 2 ≤ size
    → size ≤ length q
    → Filled P size p q
    → Corrupted size seed step 0 q r
    → HasNul r
still_ends size seed step {q} {r} h two room f c =
    elim (Bool-cases (meets size step 0 (size - 2))) [
      | inl met ↦
          let next : size - 2 + 1 ≡ size - 1 = omega arith in
          let passed : meets size step 0 (size - 1) ≡ false =
            rw next at (unmet size step (size - 2) h met) in
          let kept : get_or r (size - 1) 0 ≡ get_or q (size - 1) 0 =
            rw passed at (c.bytes (size - 1)) in
          HasNul-get_or r (size - 1) (omega (arith, c.same_length)) (kept ∙ f.ended)
      | inr passed ↦
          let kept : get_or r (size - 2) 0 ≡ get_or q (size - 2) 0 =
            rw passed at (c.bytes (size - 2)) in
          HasNul-get_or r (size - 2) (omega (arith, c.same_length)) (kept ∙ f.ended_twice two)
    ]

bench-Returns :
    (size seed1 seed2 step crc : ℕ) (p q : List ℕ)
    → 2 ≤ size
    → size ≤ length q
    → 2 ≤ step
    → u8 seed1 ≡ u8 seed2
    → Filled (StaysApart seed1) size p q
    → Returns (λ r. r.0 ≡ q) (core_bench_state size q seed1 seed2 step crc)
unfolding core_bench_state
bench-Returns size seed1 seed2 step crc p q two room h same f =
    let nul = HasNul-get_or q (size - 1) (omega arith) f.ended in
    let walk = λ (seed : ℕ). corrupt_loop-Corrupted size seed step (omega arith) (size + 1) 0 in
    bind (machine_loop_ends (length q + 1) q no_counts nul (omega arith)) λ counts _.
      bind (walk seed1 q room (omega arith) (omega arith)) λ r c.
        bind
          (machine_loop_ends (length q + 1) r counts (still_ends size seed1 step h two room f c)
            (omega (arith, c.same_length)))
          λ counts' _.
            bind (walk seed2 r (omega (arith, c.same_length)) (omega arith) (omega arith)) λ t d.
              returns (
                Twice-eq size seed1 step q t f.bytes
                  (Corrupted-Twice size seed1 seed2 step q r t same c d))

-- On the text of `core_init_state`, in a block of 2 to 2 ^ 31 - 1 bytes, `core_bench_state` ends
-- within the memory for every step of at least two and every two seeds that agree as bytes. It
-- leaves the whole memory as it was, if the mask makes a comma of no pattern byte and of no zero.
pub core_bench_state_restores :
    (size seed seed1 seed2 step crc : ℕ) (p : List ℕ)
    → 2 ≤ size
    → size < 2 ^ 31
    → size ≤ length p
    → 2 ≤ step
    → u8 seed1 ≡ u8 seed2
    → EveryPattern (StaysApart seed1)
    → StaysApart seed1 0
    → (q : List ℕ) × (crc' : ℕ) × (core_init_state size seed p ≡ some q)
      × (core_bench_state size q seed1 seed2 step crc ≡ some (q, crc'))
core_bench_state_restores size seed seed1 seed2 step crc p two small room h same apart null =
    let (q, init, f) =
      core_init_state-Filled (StaysApart seed1) size seed p apart (inl refl) null (omega arith)
        small room in
    let (r, bench, e) =
      result
        (bench-Returns size seed1 seed2 step crc p q two (omega (arith, f.same_length)) h same f) in
    (q, r.1, init, bench ∙ ap (λ t. some (t, r.1)) e)
