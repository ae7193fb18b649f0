-- ===== src/Crc/Linear.antt =====
-- The modulo-2 division is linear over `^`, and only shifts a remainder that is small enough.
use native.Mathlib.Nat.{mod-eq_of_lt, mod-lt, one-le-pow, pow-suc, div-eq_of_lt}
use mlonmcu_sw.Base.{ℕ, zero, suc, ◌-◌, ◌*◌, ◌/◌, ◌%◌, ◌^◌, ◌≤◌, ◌<◌, ◌≡◌, refl, arith, ◌∙◌, ap}
use mlonmcu_sw.Base.{
  Bool, true, false, ◌==◌, ◌<<<◌, bit_xor, if◌then◌else◌, Bool-cases, inl, inr, sym,
}
use mlonmcu_sw.Base.Bits.{bit_xor-mod, bit_xor-div, bit_xor-shift, bit_xor_assoc, bit_xor_cancel}
use mlonmcu_sw.Base.Bits.{bit_xor_right_comm, bit_xor_parity}
use mlonmcu_sw.Crc.{to_crc, has_top_bit, divide_bit, divide_bits}
use mlonmcu_sw.Crc.Standards.{Standard, IsStandard}

abbrev differs : Bool → Bool → Bool
differs true b = if b then false else true
differs false b = b

-- `x ^ p` where the bit is set.
abbrev masked : ℕ → Bool → ℕ → ℕ
masked p true x = bit_xor x p
masked p false x = x

masked-xor :
    (p : ℕ) (s t : Bool) (x y : ℕ)
    → masked p (differs s t) (bit_xor x y) ≡ bit_xor (masked p s x) (masked p t y)
masked-xor p true true x y = sym (bit_xor_cancel x y p)
masked-xor p true false x y = bit_xor_right_comm x y p
masked-xor p false true x y = bit_xor_assoc x y p
masked-xor p false false x y = refl

digit-differs : (a b : ℕ) → (bit_xor a b % 2 == 1) ≡ differs (a % 2 == 1) (b % 2 == 1)
digit-differs a b = ground (arith, bit_xor_parity a b)

module _ (s : Standard) where
  has_top_bit-xor :
      (a b : ℕ) → has_top_bit s (bit_xor a b) ≡ differs (has_top_bit s a) (has_top_bit s b)
  unfolding has_top_bit
  has_top_bit-xor a b =
      rw (bit_xor-div (s.width - 1) a b)
        (digit-differs (a / 2 ^ (s.width - 1)) (b / 2 ^ (s.width - 1)))

  to_crc-xor : (a b : ℕ) → to_crc s (bit_xor a b) ≡ bit_xor (to_crc s a) (to_crc s b)
  to_crc-xor a b = bit_xor-mod s.width a b

module _ (s : Standard) (v : IsStandard s) where
  divide_bit-masked :
      (r : ℕ) → divide_bit s r ≡ masked s.polynomial (has_top_bit s r) (to_crc s (r <<< 1))
  unfolding divide_bit
  divide_bit-masked r = elim (Bool-cases (has_top_bit s r)) [
    | inl top ↦ rw top (
        to_crc-xor s (r <<< 1) s.polynomial
        ∙ ap (bit_xor (to_crc s (r <<< 1))) (mod-eq_of_lt v.polynomial_fits))
    | inr low ↦ rw low
  ]

  pub divide_bit-xor :
      (a b : ℕ) → divide_bit s (bit_xor a b) ≡ bit_xor (divide_bit s a) (divide_bit s b)
  divide_bit-xor a b =
      rw
        (
          divide_bit-masked (bit_xor a b),
          divide_bit-masked a,
          divide_bit-masked b,
          has_top_bit-xor s a b,
          ← bit_xor-shift 1 a b,
          to_crc-xor s (a <<< 1) (b <<< 1),
        )
        (masked-xor s.polynomial (has_top_bit s a) (has_top_bit s b) (to_crc s (a <<< 1))
          (to_crc s (b <<< 1)))

  pub divide_bits-xor :
      (n a b : ℕ) → divide_bits s n (bit_xor a b) ≡ bit_xor (divide_bits s n a) (divide_bits s n b)
  unfolding divide_bits
  divide_bits-xor zero a b = refl
  divide_bits-xor (suc n) a b =
      rw (divide_bit-xor a b) (divide_bits-xor n (divide_bit s a) (divide_bit s b))

  to_crc-lt : (x : ℕ) → to_crc s x < 2 ^ s.width
  to_crc-lt x = mod-lt x (one-le-pow s.width 2 (omega arith))

  pub divide_bit-lt : (r : ℕ) → divide_bit s r < 2 ^ s.width
  unfolding divide_bit
  divide_bit-lt r = elim (Bool-cases (has_top_bit s r)) [
    | inl top ↦ rw top (to_crc-lt _)
    | inr low ↦ rw low (to_crc-lt _)
  ]

  pub divide_bits-lt : (n r : ℕ) → r < 2 ^ s.width → divide_bits s n r < 2 ^ s.width
  unfolding divide_bits
  divide_bits-lt zero r h = h
  divide_bits-lt (suc n) r h = divide_bits-lt n (divide_bit s r) (divide_bit-lt r)

  pub width_succ : 2 ^ s.width ≡ 2 ^ (s.width - 1) * 2
  width_succ =
      let e : s.width ≡ suc (s.width - 1) = omega (arith, v.has_byte) in
      ap (λ n. 2 ^ n) e ∙ pow-suc 2 (s.width - 1)

  divide_bit-double : (r : ℕ) → r * 2 < 2 ^ s.width → divide_bit s r ≡ r * 2
  unfolding divide_bit
  divide_bit-double r h =
      let small : r < 2 ^ (s.width - 1) = omega (arith, width_succ) in
      rw (has_top_bit, div-eq_of_lt small) (mod-eq_of_lt h)

  -- No bit is lost: the division is a shift.
  pub divide_bits-shift : (n r : ℕ) → r * 2 ^ n < 2 ^ s.width → divide_bits s n r ≡ r * 2 ^ n
  unfolding divide_bits
  divide_bits-shift zero r h = omega arith
  divide_bits-shift (suc n) r h =
      let e : r * 2 ^ suc n ≡ r * 2 * 2 ^ n = omega (arith, ap (λ (t : ℕ). r * t) (pow-suc 2 n)) in
      let pos = one-le-pow n 2 (omega arith) in
      let grows : r * 2 ≤ r * 2 * 2 ^ n = grind arith in
      rw (divide_bit-double r (omega arith), e) (divide_bits-shift n (r * 2) (omega arith))
