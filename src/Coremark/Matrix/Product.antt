-- ===== src/Coremark/Matrix/Product.antt =====
-- The products of a matrix with a matrix and with a vector, element by element.
use mlonmcu_sw.Base.{
  ℕ, zero, suc, ◌+◌, ◌*◌, ◌/◌, ◌%◌, ◌^◌, ◌≤◌, ◌<◌, ◌≡◌, refl, arith, sym, ◌∙◌, ap, List, length,
  get_or, u32, true, ltb,
}
use mlonmcu_sw.Base.{get_elem?-get_or, length-set, get_or-set_self, get_or-set_ne}
use mlonmcu_sw.Base.Partial.{Returns, returns, bind, mono}
use mlonmcu_sw.Base.Loop.{for_loop-Returns, for_cells, for_cells-Returns}
use mlonmcu_sw.Coremark.Matrix.{put, add_to, product_term, product_at}
use mlonmcu_sw.Coremark.Matrix.Cells.{cell-lt, cell-plain, Written, Written-start, Written-more}
use native.Mathlib.Nat.{mul-add-div_right, div-eq_of_lt, mod-eq_of_lt, mul-add-mod_self_right}

-- The sum of `t` terms, not cut off.
abbrev pub sum : (ℕ → ℕ) → ℕ → ℕ
sum term zero = 0
sum term (suc t) = sum term t + term t

sum-next : (term : ℕ → ℕ) (t : ℕ) → sum term (t + 1) ≡ sum term t + term t
sum-next term t = let e : t + 1 ≡ suc t = omega arith in rw e refl

-- `q` differs from `p` at `k` only, where it holds the sum of `t` terms.
pub record Summed (term : ℕ → ℕ) (p : List ℕ) (k t : ℕ) (q : List ℕ) : Type 0 where
  pub same_length : length q ≡ length p
  pub here : get_or q k 0 ≡ u32 (sum term t)
  pub others : (m : ℕ) → (m ≡ k → ⊥) → get_or q m 0 ≡ get_or p m 0

module _ (term : ℕ → ℕ) (p : List ℕ) (k : ℕ) (inside : k < length p) where
  -- `C[k] = 0`.
  pub put-Summed : Returns (Summed term p k 0) (put p k 0)
  put-Summed =
      let h : ltb k (length p) ≡ true = ground arith in
      rw h (
        returns record {
          same_length = length-set p k 0;
          here = get_or-set_self p k 0 0 inside;
          others = λ m ne. get_or-set_ne p k m 0 0 (λ e. ne (sym e));
        })

  -- `C[k] += x`.
  pub add_to-Summed :
      (t x : ℕ) (q : List ℕ)
      → x ≡ term t
      → Summed term p k t q
      → Returns (Summed term p k (t + 1)) (add_to q k x)
  add_to-Summed t x q e s =
      let h : ltb k (length q) ≡ true = ground (arith, s.same_length) in
      let now = get_elem?-get_or q k 0 (omega (arith, s.same_length)) in
      let set_here =
        get_or-set_self q k (u32 (get_or q k 0 + x)) 0 (omega (arith, s.same_length)) in
      let next : sum term (t + 1) ≡ sum term t + term t = sum-next term t in
      let more : u32 (get_or q k 0 + x) ≡ u32 (sum term (t + 1)) = omega (arith, s.here, e, next) in
      rw (now, h)
        (returns record {
          same_length = length-set q k _ ∙ s.same_length;
          here = set_here ∙ more;
          others = λ m ne. get_or-set_ne q k m _ 0 (λ e'. ne (sym e')) ∙ s.others m ne;
        })

-- The terms of an element of the product of two matrices.
abbrev pub row_column : (term : ℕ → ℕ → ℕ) (size : ℕ) → (a b : List ℕ) → (i j k : ℕ) → ℕ
row_column term size a b i j k = term (get_or a (i * size + k) 0) (get_or b (k * size + j) 0)

abbrev pub product : (term : ℕ → ℕ → ℕ) (size : ℕ) → (a b : List ℕ) → (i j : ℕ) → ℕ
product term size a b i j = u32 (sum (row_column term size a b i j) size)

-- The same by the place in the list.
abbrev pub product_of : (term : ℕ → ℕ → ℕ) (size : ℕ) → (a b : List ℕ) → ℕ → ℕ
product_of term size a b m = product term size a b (m / size) (m % size)

pub product_of-cell :
    (term : ℕ → ℕ → ℕ) (size : ℕ) (a b : List ℕ) (i j : ℕ)
    → j < size
    → product_of term size a b (i * size + j) ≡ product term size a b i j
product_of-cell term size a b i j h =
    let quotient : (i * size + j) / size ≡ i =
      mul-add-div_right (omega arith) i j ∙ ap (λ t. i + t) (div-eq_of_lt h) ∙ omega arith in
    let remainder : (i * size + j) % size ≡ j = mul-add-mod_self_right i size j ∙ mod-eq_of_lt h in
    rw (quotient, remainder) refl

module _ (term : ℕ → ℕ → ℕ) (size : ℕ) (a b c : List ℕ) (small : size * size < 2 ^ 32)
    (room_a : size * size ≤ length a) (room_b : size * size ≤ length b)
    (room_c : size * size ≤ length c) where
  product_at-Summed :
      (i j : ℕ) (q : List ℕ)
      → i < size
      → j < size
      → length q ≡ length c
      → Returns
          (Summed (row_column term size a b i j) q (i * size + j) size)
          (product_at term size a b i j q)
  unfolding product_at product_term
  product_at-Summed i j q hi hj len = rw (cell-plain size i j small hi hj) (
      bind (put-Summed terms q k inside) λ r s.
        for_loop-Returns (product_term term size a b i j) (Summed terms q k) size step size 0 r
          (omega arith) s)
    where
      k : ℕ
      k = i * size + j

      terms : ℕ → ℕ
      terms = row_column term size a b i j

      inside : k < length q
      inside = omega (arith, cell-lt size i j hi hj, len)

      step :
          (t : ℕ) (r : List ℕ)
          → t < size
          → Summed terms q k t r
          → Returns (Summed terms q k (t + 1)) (product_term term size a b i j t r)
      step t r ht s =
          let x = get_elem?-get_or a (i * size + t) 0 (omega (arith, cell-lt size i t hi ht)) in
          let y = get_elem?-get_or b (t * size + j) 0 (omega (arith, cell-lt size t j ht hj)) in
          rw
            (
              cell-plain size i t small hi ht,
              cell-plain size t j small ht hj,
              cell-plain size i j small hi hj,
              x,
              y,
            )
            (add_to-Summed terms q k inside t (terms t) r refl s)

  pub product_at-Written :
      Returns
        (Written (product_of term size a b) c (size * size))
        (for_cells size (product_at term size a b) c)
  product_at-Written =
      for_cells-Returns size (product_at term size a b) (Written (product_of term size a b) c) step
        c (Written-start (product_of term size a b) c)
    where
      step :
          (i j : ℕ) (q : List ℕ)
          → i < size
          → j < size
          → Written (product_of term size a b) c (i * size + j) q
          → Returns
              (Written (product_of term size a b) c (i * size + j + 1))
              (product_at term size a b i j q)
      step i j q hi hj w = mono (product_at-Summed i j q hi hj w.same_length) λ r s.
          Written-more (product_of term size a b) c q r (i * size + j) w s.same_length
            (s.here ∙ sym (product_of-cell term size a b i j hj)) s.others
