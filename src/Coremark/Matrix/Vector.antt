-- ===== src/Coremark/Matrix/Vector.antt =====
-- The product of a matrix with a vector.
use mlonmcu_sw.Base.{ℕ, ◌+◌, ◌*◌, ◌^◌, ◌≤◌, ◌<◌, refl, arith, List, length, get_or, u32}
use mlonmcu_sw.Base.{get_elem?-get_or}
use mlonmcu_sw.Base.Partial.{Returns, bind, mono}
use mlonmcu_sw.Base.Loop.{for_loop-Returns}
use mlonmcu_sw.Coremark.Matrix.{times, vect_term, vect_row, matrix_mul_vect}
use mlonmcu_sw.Coremark.Matrix.Cells.{cell-lt, cell-plain, Written, Written-start, Written-more}
use mlonmcu_sw.Coremark.Matrix.Product.{sum, Summed, put-Summed, add_to-Summed}

abbrev pub vector_terms : (size : ℕ) → (a b : List ℕ) → (i j : ℕ) → ℕ
vector_terms size a b i j = times (get_or a (i * size + j) 0) (get_or b j 0)

abbrev pub vector_of : (size : ℕ) → (a b : List ℕ) → ℕ → ℕ
vector_of size a b i = u32 (sum (vector_terms size a b i) size)

-- On a matrix A of N * N elements, fewer than 2 ^ 32, a B that has the first N and a C of N elements or more,
-- `matrix_mul_vect` returns: the first N elements of C are the products of the rows of A with the first row of
-- B, sums of N terms modulo 2 ^ 32, and the others are as before.
pub matrix_mul_vect-Written :
    (size : ℕ) (a b c : List ℕ)
    → size * size < 2 ^ 32
    → size * size ≤ length a
    → size ≤ length b
    → size ≤ length c
    → Returns (Written (vector_of size a b) c size) (matrix_mul_vect size c a b)
unfolding matrix_mul_vect vect_row vect_term
matrix_mul_vect-Written size a b c small room_a room_b room_c =
    for_loop-Returns (vect_row size a b) (Written (vector_of size a b) c) size row size 0 c
      (omega arith) (Written-start (vector_of size a b) c)
  where
    term :
        (i j : ℕ) (p r : List ℕ)
        → i < size
        → i < length p
        → j < size
        → Summed (vector_terms size a b i) p i j r
        → Returns (Summed (vector_terms size a b i) p i (j + 1)) (vect_term size a b i j r)
    term i j p r hi inside hj s =
        let x = get_elem?-get_or a (i * size + j) 0 (omega (arith, cell-lt size i j hi hj)) in
        let y = get_elem?-get_or b j 0 (omega arith) in
        rw (cell-plain size i j small hi hj, x, y)
          (add_to-Summed (vector_terms size a b i) p i inside j (vector_terms size a b i j) r refl
            s)

    row :
        (i : ℕ) (q : List ℕ)
        → i < size
        → Written (vector_of size a b) c i q
        → Returns (Written (vector_of size a b) c (i + 1)) (vect_row size a b i q)
    row i q hi w =
        let inside : i < length q = omega (arith, w.same_length) in
        let summed = bind (put-Summed (vector_terms size a b i) q i inside) λ r s.
          for_loop-Returns (vect_term size a b i) (Summed (vector_terms size a b i) q i) size
            (λ j r' hj s'. term i j q r' hi inside hj s') size 0 r (omega arith) s in
        mono summed λ r s. Written-more (vector_of size a b) c q r i w s.same_length s.here s.others
