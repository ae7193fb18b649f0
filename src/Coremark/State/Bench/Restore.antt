-- ===== src/Coremark/State/Bench/Restore.antt =====
-- Two corruptions with one seed.
use mlonmcu_sw.Base.{ℕ, ◌+◌, ◌≤◌, ◌<◌, ◌≡◌, ◌≢◌, ◌⊎◌, arith, ◌∙◌, ap}
use mlonmcu_sw.Base.{true, inl, inr, some, List, ◌==◌, bit_xor, Bool-cases}
use mlonmcu_sw.Base.{if◌then◌else◌, u8, get_or, get_or_ext, length}
use mlonmcu_sw.Base.Bits.{bit_xor_twice}
use mlonmcu_sw.Base.Partial.{result}
use mlonmcu_sw.Coremark.State.Bench.{corrupt_loop}
use mlonmcu_sw.Coremark.State.Bench.Corrupt.{mask, meets, Corrupted, corrupt_loop-Corrupted}

-- The byte that two masks leave: a byte that the first made a comma stays one.
abbrev pub left_over : ℕ → ℕ → ℕ
left_over seed b = if bit_xor b (u8 seed) == b',' then b',' else b

mask-mask : (seed seed' b : ℕ) → u8 seed ≡ u8 seed' → mask seed' (mask seed b) ≡ left_over seed b
mask-mask seed seed' b e = rw (← e) (ground (arith, bit_xor_twice b (u8 seed)))

-- What two corruptions of `p` leave.
pub record Twice (blksize seed step : ℕ) (p q : List ℕ) : Type 0 where
  pub same_length : length q ≡ length p
  pub bytes :
      (j : ℕ)
      → get_or q j 0
        ≡ (if meets blksize step 0 j then left_over seed (get_or p j 0) else get_or p j 0)

pub Corrupted-Twice :
    (blksize seed seed' step : ℕ) (p q r : List ℕ)
    → u8 seed ≡ u8 seed'
    → Corrupted blksize seed step 0 p q
    → Corrupted blksize seed' step 0 q r
    → Twice blksize seed step p r
Corrupted-Twice blksize seed seed' step p q r e c d = record {
  same_length = d.same_length ∙ c.same_length;
  bytes = λ j. elim (Bool-cases (meets blksize step 0 j)) [
    | inl met ↦
        let first : get_or q j 0 ≡ mask seed (get_or p j 0) = rw met at (c.bytes j) in
        let second : get_or r j 0 ≡ mask seed' (get_or q j 0) = rw met at (d.bytes j) in
        rw met (second ∙ ap (mask seed') first ∙ mask-mask seed seed' (get_or p j 0) e)
    | inr passed ↦
        let first : get_or q j 0 ≡ get_or p j 0 = rw passed at (c.bytes j) in
        let second : get_or r j 0 ≡ get_or q j 0 = rw passed at (d.bytes j) in
        rw passed (second ∙ first)
  ];
}

-- The two loops of `core_bench_state` that corrupt the text and undo it, on a memory that holds the
-- block, with a positive step and seeds that agree as bytes: both end within the memory. Every byte is as before, but where the walk met a byte that
-- the first loop turned into a comma: that one stays a comma.
pub corrupt_loop-Twice :
    (blksize seed seed' step : ℕ) (p : List ℕ)
    → 0 < step
    → blksize ≤ length p
    → u8 seed ≡ u8 seed'
    → (q r : List ℕ) × (corrupt_loop (blksize + 1) blksize seed step 0 p ≡ some q)
      × (corrupt_loop (blksize + 1) blksize seed' step 0 q ≡ some r)
      × Twice blksize seed step p r
corrupt_loop-Twice blksize seed seed' step p pos room e =
    let (q, first, c) = result (
      corrupt_loop-Corrupted blksize seed step pos (blksize + 1) 0 p room (omega arith)
        (omega arith)) in
    let (r, second, d) = result (
      corrupt_loop-Corrupted blksize seed' step pos (blksize + 1) 0 q (omega (arith, c.same_length))
        (omega arith) (omega arith)) in
    (q, r, first, second, Corrupted-Twice blksize seed seed' step p q r e c d)

-- The mask makes no comma of the byte.
abbrev pub StaysApart : ℕ → ℕ → Type 0
StaysApart seed b = (b ≡ b',') ⊎ (bit_xor b (u8 seed) ≢ b',')

-- Nothing is left over where no byte of the block becomes a comma.
pub Twice-eq :
    (blksize seed step : ℕ) (p r : List ℕ)
    → ((j : ℕ) → j < blksize → StaysApart seed (get_or p j 0))
    → Twice blksize seed step p r
    → r ≡ p
Twice-eq blksize seed step p r clear t = get_or_ext 0 r p t.same_length λ j.
    elim (Bool-cases (meets blksize step 0 j)) [
      | inl met ↦
          let kept : get_or r j 0 ≡ left_over seed (get_or p j 0) = rw met at (t.bytes j) in
          kept ∙ unmasked (get_or p j 0) (clear j (met-lt j met))
      | inr passed ↦ rw passed at (t.bytes j)
    ]
  where
    met-lt : (j : ℕ) → meets blksize step 0 j ≡ true → j < blksize
    met-lt j h = ground arith

    unmasked : (b : ℕ) → StaysApart seed b → left_over seed b ≡ b
    unmasked b (inl e) = ground arith
    unmasked b (inr ne) = ground arith
