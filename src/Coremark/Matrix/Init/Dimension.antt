-- ===== src/Coremark/Matrix/Init/Dimension.antt =====
-- The dimension that `core_init_matrix` chooses, and what it fills the matrices with.
use native.Mathlib.Nat.{mul-le-mul, add-mul, mul-add, one-mul, mul-one}
use mlonmcu_sw.Base.{
  ℕ, zero, suc, ◌+◌, ◌*◌, ◌-◌, ◌^◌, ◌≤◌, ◌<◌, ◌≡◌, ◌⊎◌, inl, inr, arith, ltb, ltb→lt,
}
use mlonmcu_sw.Base.{u32, Bool-cases, true, false}
use mlonmcu_sw.Base.Partial.{Returns, returns}
use mlonmcu_sw.Coremark.Matrix.Cells.{le-square}
use mlonmcu_sw.Coremark.Matrix.Init.{dimension_loop}

-- The loop stops at the first `i` whose three matrices fill the block.
abbrev pub IsLast : (blksize i : ℕ) → Type 0
IsLast blksize i = (1 ≤ i) × (8 * ((i - 1) * (i - 1)) < blksize) × (blksize ≤ 8 * (i * i))

pub root-lt : (i : ℕ) → 8 * (i * i) < 2 ^ 31 → i < 2 ^ 14
root-lt i h = elim (Bool-cases (ltb i (2 ^ 14))) [
  | inl lt ↦ ltb→lt i (2 ^ 14) lt
  | inr ge ↦
      let big : 2 ^ 14 * 2 ^ 14 ≤ i * i =
        mul-le-mul {n₁ = 2 ^ 14} {m₁ = 2 ^ 14} (ground arith) (ground arith) in
      absurd (omega (arith, big))
]

square-suc : (i : ℕ) → (i + 1) * (i + 1) ≡ i * i + i + i + 1
square-suc i = omega (arith, add-mul i 1 (i + 1), mul-add i i 1, one-mul (i + 1), mul-one i)

module _ (blksize : ℕ) (small : blksize < 2 ^ 31) where
  pub dimension_loop-IsLast :
      (fuel i : ℕ)
      → blksize < i + fuel
      → 8 * (i * i) < blksize ⊎ IsLast blksize i
      → Returns (IsLast blksize) (dimension_loop fuel blksize i (8 * (i * i)))
  unfolding dimension_loop
  dimension_loop-IsLast zero i enough (inl more) = absurd (omega (arith, more, le-square i))
  dimension_loop-IsLast zero i enough (inr (pos, below, above)) =
      absurd (omega (arith, below, le-square (i - 1)))
  dimension_loop-IsLast (suc fuel) i enough (inr (pos, below, above)) =
      let stop : ltb (8 * (i * i)) blksize ≡ false = ground (arith, above) in
      rw stop (returns (pos, below, above))
  dimension_loop-IsLast (suc fuel) i enough (inl more) =
      let go : ltb (8 * (i * i)) blksize ≡ true = ground (arith, more) in
      let few : i < 2 ^ 14 = root-lt i (omega (arith, more)) in
      let next : u32 (i + 1) ≡ i + 1 = omega (arith, few) in
      let area : u32 ((i + 1) * (i + 1) * 2 * 4) ≡ 8 * ((i + 1) * (i + 1)) =
        omega (arith, square-suc i, few, more) in
      rw (go, next, area) (dimension_loop-IsLast fuel (i + 1) (omega arith) last)
    where
      back : 8 * ((i + 1 - 1) * (i + 1 - 1)) < blksize
      back = let e : i + 1 - 1 ≡ i = omega arith in rw e more

      last : 8 * ((i + 1) * (i + 1)) < blksize ⊎ IsLast blksize (i + 1)
      last = elim (Bool-cases (ltb (8 * ((i + 1) * (i + 1))) blksize)) [
        | inl lt ↦ inl (ltb→lt (8 * ((i + 1) * (i + 1))) blksize lt)
        | inr ge ↦ inr (omega arith, back, ground (arith, ge))
      ]
