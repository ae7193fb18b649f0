-- ===== src/Coremark/Matrix/Init.antt =====
-- `core_init_matrix`. The memory at A and at B is given by two lists, and pointers are `ee_u32`.
pub mod Dimension
pub mod Layout
use mlonmcu_sw.Base.{ℕ, zero, suc, ◌+◌, ◌*◌, ◌-◌, ◌%◌, ◌^◌, Option, some, none, List, ltb, ◌==◌}
use mlonmcu_sw.Base.{if◌then◌else◌, u16, u32, sub32}
use mlonmcu_sw.Base.Partial.{◌>>=◌}
use mlonmcu_sw.Base.Loop.{for_cells}
use mlonmcu_sw.Coremark.Matrix.{cell, put}

-- `align_mem` of core_portme.h.
abbrev pub align_mem : ℕ → ℕ
align_mem x = u32 (4 + (sub32 x 1 - sub32 x 1 % 4))

-- `% 65536` on `ee_s32`, with the sign of the dividend.
abbrev pub remainder : ℕ → ℕ
remainder x = if ltb x (2 ^ 31) then x % 65536 else sub32 0 ((2 ^ 32 - x) % 65536)

-- `while (j < blksize)`: the last `i`.
unfoldable pub dimension_loop : ℕ → (blksize i j : ℕ) → Option ℕ
dimension_loop zero blksize i j = none
dimension_loop (suc fuel) blksize i j =
    let round =
      dimension_loop fuel blksize (u32 (i + 1)) (u32 (u32 (i + 1) * u32 (i + 1) * 2 * 4)) in
    if ltb j blksize then round else some i

-- The locals of the loops that fill the matrices.
pub record Filling : Type 0 where
  pub seed : ℕ
  pub order : ℕ
  pub a : List ℕ
  pub b : List ℕ

unfoldable pub init_at : (size i j : ℕ) → Filling → Option Filling
init_at size i j f = do
  let seed = remainder (u32 (f.order * f.seed))
  let value = u16 (seed + f.order)
  b ← put f.b (cell size i j) value
  a ← put f.a (cell size i j) (u16 (value + f.order) % 256)
  some (record { seed = seed; order = u32 (f.order + 1); a = a; b = b })

-- `mat_params`, with the memory at A and at B.
pub record MatParams : Type 0 where
  pub size : ℕ
  pub a_at : ℕ
  pub b_at : ℕ
  pub c_at : ℕ
  pub a : List ℕ
  pub b : List ℕ

-- `blksize + 1` rounds are enough for the dimension.
unfoldable pub core_init_matrix : (blksize memblk seed : ℕ) → (a b : List ℕ) → Option MatParams
unfolding dimension_loop for_cells init_at
core_init_matrix blksize memblk seed a b = do
  i ← dimension_loop (blksize + 1) blksize 0 0
  let size = sub32 i 1
  let a_at = align_mem memblk
  let b_at = u32 (a_at + 2 * u32 (size * size))
  f ←
      for_cells size (init_at size)
        (record { seed = (if seed == 0 then 1 else seed); order = 1; a = a; b = b })
  some (record {
    size = size;
    a_at = a_at;
    b_at = b_at;
    c_at = align_mem (u32 (b_at + 2 * u32 (size * size)));
    a = f.a;
    b = f.b;
  })
