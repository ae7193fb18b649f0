-- ===== src/Coremark/State/Input/Copy.antt =====
-- Writes of the text move a frontier: what is before it has a property, what lies beyond the block
-- is untouched.
use mlonmcu_sw.Base.{get_elem?-get_or, ℕ, zero, suc, ◌+◌, ◌≤◌, ◌<◌, ◌≡◌, arith, ◌∙◌, true}
use mlonmcu_sw.Base.{List, [], ◌∷◌, All, length, get_or, length-set, get_or-set_self}
use mlonmcu_sw.Base.{get_or-set_ne, ltb}
use native.Mathlib.Decide.{ℕ_discrete}
use mlonmcu_sw.Base.Partial.{Returns, returns, bind, mono}
use mlonmcu_sw.Coremark.State.Input.{store, copy_loop}

-- `P` is a property of a position and the byte there; `p` is the memory before, `q` now.
pub record Text (P : ℕ → ℕ → Type 0) (size total : ℕ) (p q : List ℕ) : Type 0 where
  pub same_length : length q ≡ length p
  pub before : (j : ℕ) → j < total → P j (get_or q j 0)
  pub beyond : (j : ℕ) → size ≤ j → get_or q j 0 ≡ get_or p j 0

pub All-get_or {ℓ κ} :
    {A : Type ℓ} (P : A → Type κ) (xs : List A) (i : ℕ) (d : A)
    → All P xs
    → i < length xs
    → P (get_or xs i d)
All-get_or P [] i d h lt = absurd (omega arith)
All-get_or P (x ∷ xs) zero d h lt = h.0
All-get_or P (x ∷ xs) (suc i) d h lt = All-get_or P xs i d h.1 (omega arith)

module _ (P : ℕ → ℕ → Type 0) (size : ℕ) (p : List ℕ) (room : size ≤ length p) where
  -- The frontier under another name.
  pub Text-at : (a b : ℕ) {q : List ℕ} → a ≡ b → Text P size a p q → Text P size b p q
  Text-at a b e t = record {
    same_length = t.same_length;
    before = λ j h. t.before j (omega arith);
    beyond = t.beyond;
  }

  pub store-Text :
      {q : List ℕ} (total v : ℕ)
      → Text P size total p q
      → P total v
      → total < size
      → Returns (Text P size (total + 1) p) (store q total v)
  store-Text {q} total v t h lt =
      let inside : total < length q = omega (arith, t.same_length) in
      let accepted : ltb total (length q) ≡ true = ground arith in
      rw accepted (
        returns (record {
          same_length = length-set q total v ∙ t.same_length;
          before = λ j below. elim (ℕ_discrete total j) [
            | yes e ↦ rw (← e, get_or-set_self q total v 0 inside) h
            | no ne ↦ rw (get_or-set_ne q total j v 0 ne) (t.before j (omega arith))
          ];
          beyond = λ j far. get_or-set_ne q total j v 0 (omega arith) ∙ t.beyond j far;
        }))

  module _ (buf : List ℕ) (total : ℕ)
      (fits : (i : ℕ) → i < length buf → P (total + i) (get_or buf i 0)) where
    pub copy_loop-Text :
        (left i : ℕ) {q : List ℕ}
        → Text P size (total + i) p q
        → i + left ≤ length buf
        → total + i + left ≤ size
        → Returns (Text P size (total + i + left) p) (copy_loop left buf total i q)
    unfolding copy_loop
    copy_loop-Text zero i t hb hs = returns (Text-at (total + i) (total + i + 0) (omega arith) t)
    copy_loop-Text (suc left) i {q} t hb hs =
        let at = fits i (omega arith) in
        rw (get_elem?-get_or buf i 0 (omega arith)) (
          bind (store-Text (total + i) (get_or buf i 0) t at (omega arith)) λ q1 t1.
            let t1' = Text-at (total + i + 1) (total + (i + 1)) (omega arith) t1 in
            mono (copy_loop-Text left (i + 1) t1' (omega arith) (omega arith))
              λ q2 t2. Text-at (total + (i + 1) + left) (total + i + suc left) (omega arith) t2)
