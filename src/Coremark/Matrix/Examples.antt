-- ===== src/Coremark/Matrix/Examples.antt =====
-- The matrix functions on matrices of two rows.
use mlonmcu_sw.Base.{ℕ, suc, zero, ◌<◌, ◌^◌, ◌≡◌, refl, arith, List, [], ◌∷◌, get_or, some}
use mlonmcu_sw.Base.Partial.{Returns}
use mlonmcu_sw.Base.Loop.{for_loop, for_cells}
use mlonmcu_sw.Coremark.Matrix.{
  plain, matrix_mul_matrix, matrix_mul_vect, matrix_test, product_at, product_term,
}
use mlonmcu_sw.Coremark.Matrix.Cells.{Written}
use mlonmcu_sw.Coremark.Matrix.Vector.{vector_of, matrix_mul_vect-Written}
use mlonmcu_sw.Coremark.Matrix.Test.{
  Multiplied, Restored, matrix_mul_matrix-Multiplied, matrix_test-Restored,
}
use mlonmcu_sw.Coremark.Matrix.Init.{core_init_matrix}
use mlonmcu_sw.Coremark.Matrix.Init.Layout.{Laid, core_init_matrix-Laid}

-- The last element is -1.
abbrev left_matrix : List ℕ
left_matrix = 1 ∷ 2 ∷ 3 ∷ 0xffff ∷ []

abbrev right_matrix : List ℕ
right_matrix = 5 ∷ 6 ∷ 7 ∷ 8 ∷ []

abbrev no_matrix : List ℕ
no_matrix = 0 ∷ 0 ∷ 0 ∷ 0 ∷ []

left_fits : (m : ℕ) → get_or left_matrix m 0 < 2 ^ 16
left_fits zero = omega arith
left_fits (suc zero) = omega arith
left_fits (suc (suc zero)) = omega arith
left_fits (suc (suc (suc zero))) = omega arith
left_fits (suc (suc (suc (suc m)))) = omega arith

-- The product has the rows 19, 22 and 8, 10.
two_rows : matrix_mul_matrix 2 no_matrix left_matrix right_matrix ≡ some (19 ∷ 22 ∷ 8 ∷ 10 ∷ [])
unfolding matrix_mul_matrix product_at product_term for_cells for_loop
two_rows = refl

matrix_mul_matrix-Multiplied_example :
    Returns
      (Multiplied plain 2 left_matrix right_matrix no_matrix)
      (matrix_mul_matrix 2 no_matrix left_matrix right_matrix)
matrix_mul_matrix-Multiplied_example =
    matrix_mul_matrix-Multiplied 2 left_matrix right_matrix no_matrix (omega arith) (omega arith)
      (omega arith) (omega arith)

matrix_mul_vect-Written_example :
    Returns
      (Written (vector_of 2 left_matrix right_matrix) no_matrix 2)
      (matrix_mul_vect 2 no_matrix left_matrix right_matrix)
matrix_mul_vect-Written_example =
    matrix_mul_vect-Written 2 left_matrix right_matrix no_matrix (omega arith) (omega arith)
      (omega arith) (omega arith)

matrix_test-Restored_example :
    Returns
      (Restored 2 left_matrix right_matrix no_matrix 0xfff0)
      (matrix_test 2 no_matrix left_matrix right_matrix 0xfff0)
matrix_test-Restored_example =
    matrix_test-Restored 2 left_matrix right_matrix no_matrix 0xfff0 (omega arith) refl
      (omega arith) (omega arith) (omega arith) left_fits

core_init_matrix-Laid_example :
    Returns
      (Laid 30 1000 left_matrix right_matrix)
      (core_init_matrix 30 1000 7 left_matrix right_matrix)
core_init_matrix-Laid_example =
    core_init_matrix-Laid 30 1000 7 left_matrix right_matrix (omega arith) (omega arith)
      (omega arith) refl (omega arith) (omega arith) (omega arith)
