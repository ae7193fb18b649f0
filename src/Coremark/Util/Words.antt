-- ===== src/Coremark/Util/Words.antt =====
-- The checksum functions as one division of `crc ^ value`, whatever the width of the value.
use mlonmcu_sw.Base.{ℕ, zero, suc, ◌+◌, ◌*◌, ◌/◌, ◌%◌, ◌^◌, ◌<◌, ◌≡◌, refl, arith, ◌∙◌, sym, ap}
use mlonmcu_sw.Base.{u16, bit_xor}
use mlonmcu_sw.Base.Bits.{bit_xor-div, bit_xor-lt, bit_xor-zero, bit_xor_right_comm, bit_xor_comm}
use mlonmcu_sw.Coremark.Util.{crcu8_crc, crcu8_loop, crcu8, crcu16, crc16, crcu32}
use mlonmcu_sw.Coremark.Util.Step.{shift_out, feedback, is_odd, crcu8_crc-shift_out}
use native.Mathlib.Nat.{pow-suc, div-add-mod'}
use mlonmcu_sw.Base.Bits.{mul-two-pow-suc}

-- `n` bits leave the register.
unfoldable pub shift_outs : ℕ → ℕ → ℕ
shift_outs zero x = x
shift_outs (suc n) x = shift_outs n (shift_out x)

feedback-lt : (x : ℕ) → feedback (is_odd x) < 2 ^ 16
feedback-lt x = ground arith

pub crcu8_crc-lt : (value crc : ℕ) → crc < 2 ^ 16 → crcu8_crc value crc < 2 ^ 16
crcu8_crc-lt value crc h = rw (crcu8_crc-shift_out value crc h) (
    bit_xor-lt 16 (crc / 2) (feedback (is_odd (bit_xor value crc))) (omega arith)
      (feedback-lt (bit_xor value crc)))

pub crcu8_loop-lt : (n value crc : ℕ) → crc < 2 ^ 16 → crcu8_loop n value crc < 2 ^ 16
unfolding crcu8_loop
crcu8_loop-lt zero value crc h = h
crcu8_loop-lt (suc n) value crc h =
    crcu8_loop-lt n (value / 2) (crcu8_crc value crc) (crcu8_crc-lt value crc h)

-- One round on `crc` with the rest of the value to come is one round on `crc ^ value`.
round :
    (value crc : ℕ)
    → crc < 2 ^ 16
    → shift_out (bit_xor crc value) ≡ bit_xor (crcu8_crc value crc) (value / 2)
unfolding shift_out
round value crc h =
    rw (crcu8_crc-shift_out value crc h, bit_xor-div 1 crc value, bit_xor_comm value crc)
      (bit_xor_right_comm (crc / 2) (value / 2) (feedback (is_odd (bit_xor crc value))))

pub crcu8_loop-shift_outs :
    (n value crc : ℕ)
    → value < 2 ^ n
    → crc < 2 ^ 16
    → crcu8_loop n value crc ≡ shift_outs n (bit_xor crc value)
unfolding crcu8_loop shift_outs
crcu8_loop-shift_outs zero value crc hv hc =
    let e : value ≡ 0 = omega arith in rw e (sym (bit_xor-zero crc))
crcu8_loop-shift_outs (suc n) value crc hv hc =
    crcu8_loop-shift_outs n (value / 2) (crcu8_crc value crc) (omega (arith, pow-suc 2 n))
      (crcu8_crc-lt value crc hc)
    ∙ ap (shift_outs n) (sym (round value crc hc))

-- A round reads the lowest bit of the value alone.
same_parity : (v w crc : ℕ) → v % 2 ≡ w % 2 → crcu8_crc v crc ≡ crcu8_crc w crc
unfolding crcu8_crc
same_parity v w crc e = rw e

above : (n p r crc : ℕ) → crcu8_loop n (p * 2 ^ n + r) crc ≡ crcu8_loop n r crc
unfolding crcu8_loop
above zero p r crc = refl
above (suc n) p r crc =
    let e = mul-two-pow-suc p n in
    let half : (p * 2 ^ suc n + r) / 2 ≡ p * 2 ^ n + r / 2 = omega arith in
    rw (half, same_parity (p * 2 ^ suc n + r) r crc (omega arith))
      (above n p (r / 2) (crcu8_crc r crc))

-- A loop of `n` rounds reads the `n` lowest bits of the value alone.
loop_low : (n value crc : ℕ) → crcu8_loop n (value % 2 ^ n) crc ≡ crcu8_loop n value crc
loop_low n value crc =
    sym (above n (value / 2 ^ n) (value % 2 ^ n) crc)
    ∙ ap (λ t. crcu8_loop n t crc) (div-add-mod' value (2 ^ n))

two_bytes : (v crc : ℕ) → crcu8_loop 8 (v / 256) (crcu8_loop 8 v crc) ≡ crcu8_loop 16 v crc
unfolding crcu8_loop
two_bytes v crc = let e : v / 256 ≡ v / 2 / 2 / 2 / 2 / 2 / 2 / 2 / 2 = omega arith in rw e

crcu16-loop : (v crc : ℕ) → crcu16 v crc ≡ crcu8_loop 16 v crc
unfolding crcu16
crcu16-loop v crc =
    rw (loop_low 8 v crc, loop_low 8 (v / 256) (crcu8_loop 8 v crc)) (two_bytes v crc)

-- `crcu8` divides `crc ^ value` by the polynomial.
pub crcu8-shift_outs :
    (value crc : ℕ)
    → value < 2 ^ 8
    → crc < 2 ^ 16
    → crcu8 value crc ≡ shift_outs 8 (bit_xor crc value)
unfolding crcu8
crcu8-shift_outs value crc hv hc = crcu8_loop-shift_outs 8 value crc hv hc

-- On a 16-bit value and checksum, `crcu16`, which feeds the two bytes one after the other, shifts
-- 16 bits of `crc ^ value` out of the division by the polynomial.
pub crcu16-shift_outs :
    (value crc : ℕ)
    → value < 2 ^ 16
    → crc < 2 ^ 16
    → crcu16 value crc ≡ shift_outs 16 (bit_xor crc value)
crcu16-shift_outs value crc hv hc = crcu16-loop value crc ∙ crcu8_loop-shift_outs 16 value crc hv hc

pub crcu16-lt : (value crc : ℕ) → crc < 2 ^ 16 → crcu16 value crc < 2 ^ 16
crcu16-lt value crc h = rw (crcu16-loop value crc) (crcu8_loop-lt 16 value crc h)

pub crc16-lt : (value crc : ℕ) → crc < 2 ^ 16 → crc16 value crc < 2 ^ 16
unfolding crc16
crc16-lt value crc h = crcu16-lt (u16 value) crc h

pub crcu32-lt : (value crc : ℕ) → crc < 2 ^ 16 → crcu32 value crc < 2 ^ 16
unfolding crcu32
crcu32-lt value crc h =
    crc16-lt (u16 (value / 2 ^ 16)) (crc16 (u16 value) crc) (crc16-lt (u16 value) crc h)
