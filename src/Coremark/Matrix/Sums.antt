-- ===== src/Coremark/Matrix/Sums.antt =====
-- The result of `matrix_sum`.
use mlonmcu_sw.Base.{ℕ, ◌+◌, ◌*◌, ◌^◌, ◌≤◌, ◌<◌, arith, List, length}
use mlonmcu_sw.Base.{get_elem?-get_or}
use mlonmcu_sw.Base.Partial.{Returns, returns, bind}
use mlonmcu_sw.Base.Loop.{for_cells-Returns}
use mlonmcu_sw.Coremark.Matrix.{Sum, sum_at, matrix_sum}
use mlonmcu_sw.Coremark.Matrix.Cells.{cell-lt, cell-plain}

pub matrix_sum-Returns :
    (size : ℕ) (c : List ℕ) (clipval : ℕ)
    → size * size < 2 ^ 32
    → size * size ≤ length c
    → Returns (λ ret. Unit {0}) (matrix_sum size c clipval)
unfolding matrix_sum sum_at
matrix_sum-Returns size c clipval small room =
    bind
      (for_cells-Returns size (sum_at size c clipval) (λ k s. Unit {0}) step
        (record { tmp = 0; prev = 0; ret = 0 }) tt)
      λ s h. returns tt
  where
    step :
        (i j : ℕ) (s : Sum)
        → i < size
        → j < size
        → Unit {0}
        → Returns (λ s'. Unit {0}) (sum_at size c clipval i j s)
    step i j s hi hj h =
        let here = get_elem?-get_or c (i * size + j) 0 (omega (arith, cell-lt size i j hi hj)) in
        rw (cell-plain size i j small hi hj, here) (returns tt)
