-- ===== src/Coremark/Util/Step.antt =====
-- One round of `crcu8` is a step of the reflected division by x^16 + x^15 + x^2 + 1.
use mlonmcu_sw.Base.{ℕ, ◌+◌, ◌/◌, ◌%◌, ◌^◌, ◌<◌, ◌≡◌, refl, arith, ◌∙◌, sym, ap, Bool}
use mlonmcu_sw.Base.{◌==◌, if◌then◌else◌, u8, bit_and, bit_or, bit_xor, Bool-cases, inl, inr}
use mlonmcu_sw.Base.Bits.{bit_xor-div, bit_xor_parity, bit_xor-lt, bit_xor_fields, bit_or_disjoint}
use mlonmcu_sw.Base.Bits.{bit_xor-zero, bit_and_mask}
use mlonmcu_sw.Coremark.Util.{crcu8_crc}

-- The polynomial, lowest power at the top.
abbrev pub feedback : Bool → ℕ
feedback b = if b then 0xa001 else 0

abbrev pub is_odd : ℕ → Bool
is_odd x = x % 2 == 1

-- The lowest bit leaves, and is fed back.
unfoldable pub shift_out : ℕ → ℕ
shift_out x = bit_xor (x / 2) (feedback (is_odd x))

pub tops_apart : (c : ℕ) → c < 2 ^ 15 → bit_xor c 0xa001 ≡ 2 ^ 15 + bit_xor c 0x2001
tops_apart c h =
    ap (λ t. bit_xor t 0xa001) (omega arith) ∙ bit_xor_fields 15 0 1 c 0x2001 h (omega arith) ∙ refl

low_bit : (value crc : ℕ) → u8 (bit_xor (value % 2) (crc % 2)) ≡ bit_xor value crc % 2
low_bit value crc = omega (
  arith,
  bit_xor-lt 1 (value % 2) (crc % 2) (omega arith) (omega arith),
  bit_xor_parity (value % 2) (crc % 2),
  bit_xor_parity value crc,
)

fed_back :
    (crc : ℕ) → crc < 2 ^ 16 → bit_or (bit_xor crc 0x4002 / 2) 0x8000 ≡ bit_xor (crc / 2) 0xa001
fed_back crc h =
    let half : crc / 2 < 2 ^ 15 = omega arith in
    ap (λ t. bit_or t 0x8000) (bit_xor-div 1 crc 0x4002)
    ∙ bit_or_disjoint 15 1 (bit_xor (crc / 2) 0x2001)
        (bit_xor-lt 15 (crc / 2) 0x2001 half (omega arith))
    ∙ sym (tops_apart (crc / 2) half)

shifted : (crc : ℕ) → crc < 2 ^ 16 → bit_and (crc / 2) 0x7fff ≡ bit_xor (crc / 2) 0
shifted crc h = omega (arith, bit_and_mask 15 (crc / 2), bit_xor-zero (crc / 2))

pub crcu8_crc-shift_out :
    (value crc : ℕ)
    → crc < 2 ^ 16
    → crcu8_crc value crc ≡ bit_xor (crc / 2) (feedback (is_odd (bit_xor value crc)))
unfolding crcu8_crc
crcu8_crc-shift_out value crc h = elim (Bool-cases (is_odd (bit_xor value crc))) [
  | inl odd ↦ rw (low_bit value crc, odd) (fed_back crc h)
  | inr even ↦ rw (low_bit value crc, even) (shifted crc h)
]
