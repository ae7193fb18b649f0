-- ===== src/Coremark/Matrix/Cells.antt =====
-- Loops that write the elements of a matrix one after the other.
use mlonmcu_sw.Base.{
  ℕ, zero, suc, ◌+◌, ◌*◌, ◌^◌, ◌≤◌, ◌<◌, ◌≡◌, refl, arith, sym, ◌∙◌, List, length, get_or, set, ltb,
}
use mlonmcu_sw.Base.{length-set, get_or-set_self, get_or-set_ne, Bool-cases, inl, inr, true, ◌==◌}
use mlonmcu_sw.Base.Partial.{Returns, returns}
use mlonmcu_sw.Coremark.Matrix.{cell, put}
use native.Mathlib.Nat.{le-mul_of_pos_right, mul-le-mul_right, add-mul, one-mul}

pub le-square : (n : ℕ) → n ≤ n * n
le-square zero = omega arith
le-square (suc n) = le-mul_of_pos_right (suc n) (omega arith)

-- An index inside the matrix does not wrap around.
pub cell-lt : (size i j : ℕ) → i < size → j < size → i * size + j < size * size
cell-lt size i j hi hj =
    let row : (i + 1) * size ≤ size * size = mul-le-mul_right size (omega arith) in
    omega (arith, row, add-mul i 1 size, one-mul size)

pub cell-plain :
    (size i j : ℕ) → size * size < 2 ^ 32 → i < size → j < size → cell size i j ≡ i * size + j
cell-plain size i j small hi hj = omega (arith, cell-lt size i j hi hj)

-- The elements below `k` have the values of `f`, the others those of `p`.
pub record Written (f : ℕ → ℕ) (p : List ℕ) (k : ℕ) (q : List ℕ) : Type 0 where
  pub same_length : length q ≡ length p
  pub done : (m : ℕ) → m < k → get_or q m 0 ≡ f m
  pub left : (m : ℕ) → k ≤ m → get_or q m 0 ≡ get_or p m 0

pub Written-start : (f : ℕ → ℕ) (p : List ℕ) → Written f p 0 p
Written-start f p = record {
  same_length = refl;
  done = λ m h. absurd (omega arith);
  left = λ m h. refl;
}

pub Written-more :
    (f : ℕ → ℕ) (p q r : List ℕ) (k : ℕ)
    → Written f p k q
    → length r ≡ length q
    → get_or r k 0 ≡ f k
    → ((m : ℕ) → (m ≡ k → ⊥) → get_or r m 0 ≡ get_or q m 0)
    → Written f p (k + 1) r
Written-more f p q r k w len here others = record {
  same_length = len ∙ w.same_length;
  done = λ m h. elim (Bool-cases (m == k)) [
    | inl e ↦ let e' : m ≡ k = ground arith in rw e' here
    | inr e ↦ others m (ground arith) ∙ w.done m (ground arith)
  ];
  left = λ m h. others m (omega arith) ∙ w.left m (omega arith);
}

pub put-Written :
    (f : ℕ → ℕ) (p q : List ℕ) (k v : ℕ)
    → Written f p k q
    → k < length p
    → v ≡ f k
    → Returns (Written f p (k + 1)) (put q k v)
put-Written f p q k v w h e =
    let inside : ltb k (length q) ≡ true = ground (arith, w.same_length) in
    rw inside (
      returns (
        Written-more f p q (set q k v) k w (length-set q k v)
          (get_or-set_self q k v 0 (omega (arith, w.same_length)) ∙ e)
          (λ m ne. get_or-set_ne q k m v 0 (λ e'. ne (sym e')))))
