-- ===== src/Coremark/Matrix/Const.antt =====
-- `matrix_add_const` and `matrix_mul_const`.
use mlonmcu_sw.Base.{
  ℕ, ◌+◌, ◌-◌, ◌*◌, ◌^◌, ◌≤◌, ◌<◌, ◌≡◌, refl, arith, ◌∙◌, ap, List, length, get_or, u16,
}
use mlonmcu_sw.Base.{get_elem?-get_or, get_or_ext, Bool-cases, inl, inr, ltb}
use mlonmcu_sw.Base.Partial.{Returns}
use mlonmcu_sw.Base.Loop.{for_cells-Returns}
use mlonmcu_sw.Coremark.Matrix.{
  times, add_const_at, matrix_add_const, mul_const_at, matrix_mul_const,
}
use mlonmcu_sw.Coremark.Matrix.Cells.{cell-lt, cell-plain, Written, Written-start, put-Written}

-- What `matrix_add_const` makes of an element.
abbrev pub added : List ℕ → (val m : ℕ) → ℕ
added a val m = u16 (get_or a m 0 + val)

module _ (size : ℕ) (a : List ℕ) (small : size * size < 2 ^ 32)
    (room : size * size ≤ length a) where
  pub matrix_add_const-Written :
      (val : ℕ) → Returns (Written (added a val) a (size * size)) (matrix_add_const size a val)
  unfolding matrix_add_const add_const_at
  matrix_add_const-Written val =
      for_cells-Returns size (add_const_at size val) (Written (added a val) a) step a
        (Written-start (added a val) a)
    where
      step :
          (i j : ℕ) (q : List ℕ)
          → i < size
          → j < size
          → Written (added a val) a (i * size + j) q
          → Returns (Written (added a val) a (i * size + j + 1)) (add_const_at size val i j q)
      step i j q hi hj w =
          let lt = cell-lt size i j hi hj in
          let here = get_elem?-get_or q (i * size + j) 0 (omega (arith, lt, w.same_length)) in
          let same = w.left (i * size + j) (omega arith) in
          rw (cell-plain size i j small hi hj, here)
            (put-Written (added a val) a q (i * size + j) (u16 (get_or q (i * size + j) 0 + val)) w
              (omega (arith, lt)) (ap (λ x. u16 (x + val)) same))

  abbrev scaled : ℕ → ℕ → ℕ
  scaled val m = times (get_or a m 0) val

  pub matrix_mul_const-Written :
      (c : List ℕ) (val : ℕ)
      → size * size ≤ length c
      → Returns (Written (scaled val) c (size * size)) (matrix_mul_const size c a val)
  unfolding matrix_mul_const mul_const_at
  matrix_mul_const-Written c val room' =
      for_cells-Returns size (mul_const_at size a val) (Written (scaled val) c) step c
        (Written-start (scaled val) c)
    where
      step :
          (i j : ℕ) (q : List ℕ)
          → i < size
          → j < size
          → Written (scaled val) c (i * size + j) q
          → Returns (Written (scaled val) c (i * size + j + 1)) (mul_const_at size a val i j q)
      step i j q hi hj w =
          let lt = cell-lt size i j hi hj in
          let here = get_elem?-get_or a (i * size + j) 0 (omega (arith, lt)) in
          rw (cell-plain size i j small hi hj, here)
            (put-Written (scaled val) c q (i * size + j) (times (get_or a (i * size + j) 0) val) w
              (omega (arith, lt)) refl)

-- Adding a constant and then its negation.
pub added_back :
    (size val : ℕ) (a q r : List ℕ)
    → length a ≡ size * size
    → val < 2 ^ 16
    → ((m : ℕ) → get_or a m 0 < 2 ^ 16)
    → Written (added a val) a (size * size) q
    → Written (added q (u16 (2 ^ 16 - val))) q (size * size) r
    → r ≡ a
added_back size val a q r len hv fits w w' = get_or_ext 0 r a (w'.same_length ∙ w.same_length) λ m.
    elim (Bool-cases (ltb m (size * size))) [
      | inl h ↦
          let lt : m < size * size = ground arith in
          omega (arith, w'.done m lt, w.done m lt, fits m)
      | inr h ↦ w'.left m (ground arith) ∙ w.left m (ground arith)
    ]
