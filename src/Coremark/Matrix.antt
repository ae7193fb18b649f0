-- ===== src/Coremark/Matrix.antt =====
-- lib/coremark/core_matrix.c. Elements of MATDAT (`ee_s16`) and of MATRES (`ee_s32`) are given by
-- their patterns, a matrix is the list of its rows one behind the other, and `none` is an access outside of it.
-- The matrices A, B and C do not overlap.
pub mod Cells
pub mod Const
pub mod Product
pub mod Vector
pub mod Sums
pub mod Test
pub mod Init
pub mod Examples
use mlonmcu_sw.Base.{
  ℕ, zero, suc, ◌+◌, ◌*◌, ◌-◌, ◌%◌, ◌^◌, ◌>>>◌, Option, some, none, List, ltb, ◌==◌, bit_and,
  bit_or,
}
use mlonmcu_sw.Base.{if◌then◌else◌, u16, u32, sub32, slt32, get_elem?, set, length}
use mlonmcu_sw.Base.Partial.{◌>>=◌}
use mlonmcu_sw.Base.Loop.{for_loop, for_cells}
use mlonmcu_sw.Coremark.Util.{crc16}

-- The conversion from `ee_s16` to `ee_s32`.
abbrev pub extend : ℕ → ℕ
extend x = if ltb x (2 ^ 15) then x else x + (2 ^ 32 - 2 ^ 16)

-- The product of two elements, which fits `ee_s32`.
abbrev pub times : ℕ → ℕ → ℕ
times x y = u32 (extend x * extend y)

abbrev pub put : List ℕ → ℕ → ℕ → Option (List ℕ)
put m at value = if ltb at (length m) then some (set m at value) else none

-- `i * N + j` on `ee_u32`.
abbrev pub cell : (size i j : ℕ) → ℕ
cell size i j = u32 (i * size + j)

-- `bit_extract`.
abbrev pub bit_extract : (x from to : ℕ) → ℕ
bit_extract x from to = (x >>> from) % 2 ^ to

-- One element of `matrix_add_const`.
unfoldable pub add_const_at : (size val i j : ℕ) → List ℕ → Option (List ℕ)
add_const_at size val i j a = do
  x ← get_elem? a (cell size i j)
  put a (cell size i j) (u16 (x + val))

unfoldable pub matrix_add_const : (size : ℕ) → List ℕ → (val : ℕ) → Option (List ℕ)
unfolding for_cells add_const_at
matrix_add_const size a val = for_cells size (add_const_at size val) a

unfoldable pub mul_const_at : (size : ℕ) → List ℕ → (val i j : ℕ) → List ℕ → Option (List ℕ)
mul_const_at size a val i j c = do
  x ← get_elem? a (cell size i j)
  put c (cell size i j) (times x val)

unfoldable pub matrix_mul_const : (size : ℕ) → (c a : List ℕ) → (val : ℕ) → Option (List ℕ)
unfolding for_cells mul_const_at
matrix_mul_const size c a val = for_cells size (mul_const_at size a val) c

-- `C[at] += term`.
abbrev pub add_to : List ℕ → (at term : ℕ) → Option (List ℕ)
add_to c at term = do sum ← get_elem? c at; put c at (u32 (sum + term))

-- The product of A[i * N + j] and B[j] is added to C[i].
unfoldable pub vect_term : (size : ℕ) → (a b : List ℕ) → (i j : ℕ) → List ℕ → Option (List ℕ)
vect_term size a b i j c = do
  x ← get_elem? a (cell size i j)
  y ← get_elem? b j
  add_to c i (times x y)

unfoldable pub vect_row : (size : ℕ) → (a b : List ℕ) → ℕ → List ℕ → Option (List ℕ)
unfolding for_loop vect_term
vect_row size a b i c = do c ← put c i 0; for_loop size 0 (vect_term size a b i) c

unfoldable pub matrix_mul_vect : (size : ℕ) → (c a b : List ℕ) → Option (List ℕ)
unfolding for_loop vect_row
matrix_mul_vect size c a b = for_loop size 0 (vect_row size a b) c

-- What the two products of matrices add to an element for one `k`.
abbrev pub plain : ℕ → ℕ → ℕ
plain x y = times x y

abbrev pub extracted : ℕ → ℕ → ℕ
extracted x y = bit_extract (times x y) 2 4 * bit_extract (times x y) 5 7

-- The loops of the two products, which differ in the term only.
module _ (term : ℕ → ℕ → ℕ) (size : ℕ) (a b : List ℕ) where
  unfoldable pub product_term : (i j k : ℕ) → List ℕ → Option (List ℕ)
  product_term i j k c = do
    x ← get_elem? a (cell size i k)
    y ← get_elem? b (cell size k j)
    add_to c (cell size i j) (term x y)

  unfoldable pub product_at : (i j : ℕ) → List ℕ → Option (List ℕ)
  unfolding for_loop product_term
  product_at i j c = do c ← put c (cell size i j) 0; for_loop size 0 (product_term i j) c

unfoldable pub matrix_mul_matrix : (size : ℕ) → (c a b : List ℕ) → Option (List ℕ)
unfolding for_cells product_at
matrix_mul_matrix size c a b = for_cells size (product_at plain size a b) c

unfoldable pub matrix_mul_matrix_bitextract : (size : ℕ) → (c a b : List ℕ) → Option (List ℕ)
unfolding for_cells product_at
matrix_mul_matrix_bitextract size c a b = for_cells size (product_at extracted size a b) c

-- The locals of `matrix_sum`.
pub record Sum : Type 0 where
  pub tmp : ℕ
  pub prev : ℕ
  pub ret : ℕ

unfoldable pub sum_at : (size : ℕ) → List ℕ → (clipval i j : ℕ) → Sum → Option Sum
sum_at size c clipval i j s = do
  cur ← get_elem? c (cell size i j)
  let tmp = u32 (s.tmp + cur)
  some (
      if slt32 (extend clipval) tmp
      then record { tmp = 0; prev = cur; ret = u16 (s.ret + 10) }
      else record {
        tmp = tmp;
        prev = cur;
        ret = u16 (s.ret + (if slt32 s.prev cur then 1 else 0));
      })

unfoldable pub matrix_sum : (size : ℕ) → List ℕ → (clipval : ℕ) → Option ℕ
unfolding for_cells sum_at
matrix_sum size c clipval = do
  s ← for_cells size (sum_at size c clipval) (record { tmp = 0; prev = 0; ret = 0 })
  some s.ret

-- The matrices A and C after the test, and the checksum.
pub record Tested : Type 0 where
  pub a : List ℕ
  pub c : List ℕ
  pub crc : ℕ

-- `crc16` takes the sum as an `ee_s16`, which `matrix_sum` gives.
unfoldable pub matrix_test : (size : ℕ) → (c a b : List ℕ) → (val : ℕ) → Option Tested
unfolding matrix_add_const matrix_mul_const matrix_mul_vect matrix_mul_matrix
    matrix_mul_matrix_bitextract matrix_sum
matrix_test size c a b val = do
  let clipval = bit_or 0xf000 val
  changed ← matrix_add_const size a val
  c ← matrix_mul_const size c changed val
  sum ← matrix_sum size c clipval
  let crc = crc16 sum 0
  c ← matrix_mul_vect size c changed b
  sum ← matrix_sum size c clipval
  let crc = crc16 sum crc
  c ← matrix_mul_matrix size c changed b
  sum ← matrix_sum size c clipval
  let crc = crc16 sum crc
  c ← matrix_mul_matrix_bitextract size c changed b
  sum ← matrix_sum size c clipval
  let crc = crc16 sum crc
  restored ← matrix_add_const size changed (u16 (2 ^ 16 - val))
  some (record { a = restored; c = c; crc = crc })

unfoldable pub core_bench_matrix : (size : ℕ) → (c a b : List ℕ) → (seed crc : ℕ) → Option Tested
unfolding matrix_test
core_bench_matrix size c a b seed crc = do
  t ← matrix_test size c a b seed
  some (record t { crc = crc16 t.crc crc })
