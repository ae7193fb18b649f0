-- ===== src/Coremark/Matrix/Test.antt =====
-- `matrix_test` puts the matrix A back.
use mlonmcu_sw.Base.{
  ℕ, ◌+◌, ◌-◌, ◌*◌, ◌^◌, ◌≤◌, ◌<◌, ◌≡◌, arith, ◌∙◌, List, length, get_or, u16, bit_or,
}
use mlonmcu_sw.Base.Partial.{Returns, returns, bind, mono}
use mlonmcu_sw.Coremark.Matrix.{
  Tested, matrix_test, plain, extracted, matrix_mul_matrix, matrix_mul_matrix_bitextract,
}
use mlonmcu_sw.Coremark.Matrix.Cells.{Written, cell-lt, le-square}
use mlonmcu_sw.Coremark.Matrix.Const.{
  matrix_add_const-Written, matrix_mul_const-Written, added, added_back,
}
use mlonmcu_sw.Coremark.Matrix.Product.{product, product_of, product_of-cell, product_at-Written}
use mlonmcu_sw.Coremark.Matrix.Vector.{matrix_mul_vect-Written}
use mlonmcu_sw.Coremark.Matrix.Sums.{matrix_sum-Returns}

-- C is the product of A and B: an element is the sum of N terms modulo 2 ^ 32, and what follows the N * N elements is as in `before`.
pub record Multiplied (term : ℕ → ℕ → ℕ) (size : ℕ) (a b before c : List ℕ) : Type 0 where
  pub same_length : length c ≡ length before
  pub cells :
      (i j : ℕ) → i < size → j < size → get_or c (i * size + j) 0 ≡ product term size a b i j
  pub beyond : (m : ℕ) → size * size ≤ m → get_or c m 0 ≡ get_or before m 0

Written-Multiplied :
    (term : ℕ → ℕ → ℕ) (size : ℕ) (a b before c : List ℕ)
    → Written (product_of term size a b) before (size * size) c
    → Multiplied term size a b before c
Written-Multiplied term size a b before c w = record {
  same_length = w.same_length;
  cells = λ i j hi hj.
      w.done (i * size + j) (cell-lt size i j hi hj) ∙ product_of-cell term size a b i j hj;
  beyond = w.left;
}

-- On matrices of at least N * N elements, fewer than 2 ^ 32, `matrix_mul_matrix` returns the product of the
-- matrices: the element in row i and column j is the sum of the N products, modulo 2 ^ 32, and
-- what follows the matrix in C is as before.
pub matrix_mul_matrix-Multiplied :
    (size : ℕ) (a b c : List ℕ)
    → size * size < 2 ^ 32
    → size * size ≤ length a
    → size * size ≤ length b
    → size * size ≤ length c
    → Returns (Multiplied plain size a b c) (matrix_mul_matrix size c a b)
unfolding matrix_mul_matrix
matrix_mul_matrix-Multiplied size a b c small ha hb hc =
    mono (product_at-Written plain size a b c small ha hb hc) (Written-Multiplied plain size a b c)

-- The matrices after the test.
pub record Restored (size : ℕ) (a b c : List ℕ) (val : ℕ) (t : Tested) : Type 0 where
  pub same : t.a ≡ a
  pub length_c : length t.c ≡ length c
  pub changed : List ℕ
  pub change : Written (added a val) a (size * size) changed
  pub extracts :
      (i j : ℕ)
      → i < size
      → j < size
      → get_or t.c (i * size + j) 0 ≡ product extracted size changed b i j

-- On a matrix A of N * N patterns of 16 bits, fewer than 2 ^ 32, matrices B and C of at least as many elements,
-- and a value of 16 bits, `matrix_test` returns: A is as it was before, and C holds the sums modulo 2 ^ 32 of the
-- bits extracted from the products of A, with the value added to every element, and B.
pub matrix_test-Restored :
    (size : ℕ) (a b c : List ℕ) (val : ℕ)
    → size * size < 2 ^ 32
    → length a ≡ size * size
    → size * size ≤ length b
    → size * size ≤ length c
    → val < 2 ^ 16
    → ((m : ℕ) → get_or a m 0 < 2 ^ 16)
    → Returns (Restored size a b c val) (matrix_test size c a b val)
unfolding matrix_test matrix_mul_matrix matrix_mul_matrix_bitextract
matrix_test-Restored size a b c val small len hb hc hv fits =
    let clip = bit_or 0xf000 val in
    bind (matrix_add_const-Written size a small (omega (arith, len)) val) λ q w.
      let ha : size * size ≤ length q = omega (arith, w.same_length) in
      bind (matrix_mul_const-Written size q small ha c val hc) λ c1 w1.
        let h1 : size * size ≤ length c1 = omega (arith, w1.same_length) in
        bind (matrix_sum-Returns size c1 clip small h1) λ s1 _.
          bind
            (matrix_mul_vect-Written size q b c1 small ha (omega (arith, le-square size, hb))
              (omega (arith, le-square size, h1)))
            λ c2 w2.
              let h2 : size * size ≤ length c2 = omega (arith, w2.same_length, w1.same_length) in
              bind (matrix_sum-Returns size c2 clip small h2) λ s2 _.
                bind (product_at-Written plain size q b c2 small ha hb h2) λ c3 w3.
                  let h3 : size * size ≤ length c3 =
                    omega (arith, w3.same_length, w2.same_length, w1.same_length) in
                  bind (matrix_sum-Returns size c3 clip small h3) λ s3 _.
                    bind (product_at-Written extracted size q b c3 small ha hb h3) λ c4 w4.
                      let h4 : size * size ≤ length c4 =
                        omega
                          (arith, w4.same_length, w3.same_length, w2.same_length, w1.same_length) in
                      bind (matrix_sum-Returns size c4 clip small h4) λ s4 _.
                        bind (matrix_add_const-Written size q small ha (u16 (2 ^ 16 - val))) λ r w5.
                          returns record {
                            same = added_back size val a q r len hv fits w w5;
                            length_c =
                                w4.same_length ∙ w3.same_length ∙ w2.same_length ∙ w1.same_length;
                            changed = q;
                            change = w;
                            extracts = (Written-Multiplied extracted size q b c3 c4 w4).cells;
                          }
