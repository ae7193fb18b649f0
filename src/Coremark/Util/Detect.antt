-- ===== src/Coremark/Util/Detect.antt =====
-- What the checksum detects: no round of the division loses information.
use mlonmcu_sw.Base.{ℕ, zero, suc, ◌+◌, ◌*◌, ◌/◌, ◌^◌, ◌<◌, ◌≡◌, arith, ◌∙◌, sym, ap}
use mlonmcu_sw.Base.{leb, bit_xor, Bool-cases, inl, inr, if◌then◌else◌}
use mlonmcu_sw.Base.Bits.{bit_xor-lt, bit_xor_twice, bit_xor-zero}
use mlonmcu_sw.Coremark.Util.{crcu16}
use mlonmcu_sw.Coremark.Util.Step.{shift_out, feedback, is_odd, tops_apart}
use mlonmcu_sw.Coremark.Util.Words.{shift_outs, crcu16-shift_outs}

-- The bit at the top tells whether the polynomial was fed back.
shift_in : ℕ → ℕ
shift_in y = if leb (2 ^ 15) y then bit_xor y 0xa001 * 2 + 1 else y * 2

shift_in-shift_out : (x : ℕ) → x < 2 ^ 16 → shift_in (shift_out x) ≡ x
unfolding shift_in shift_out
shift_in-shift_out x h = elim (Bool-cases (is_odd x)) [
  | inl odd ↦
      rw (odd) (ground (arith, tops_apart (x / 2) (omega arith), bit_xor_twice (x / 2) 0xa001))
  | inr even ↦ rw (even) (ground (arith, bit_xor-zero (x / 2)))
]

shift_out-lt : (x : ℕ) → x < 2 ^ 16 → shift_out x < 2 ^ 16
unfolding shift_out
shift_out-lt x h = bit_xor-lt 16 (x / 2) (feedback (is_odd x)) (omega arith) (ground arith)

shift_outs_injective :
    (n x y : ℕ) → x < 2 ^ 16 → y < 2 ^ 16 → shift_outs n x ≡ shift_outs n y → x ≡ y
unfolding shift_outs
shift_outs_injective zero x y hx hy e = e
shift_outs_injective (suc n) x y hx hy e =
    let same =
      shift_outs_injective n (shift_out x) (shift_out y) (shift_out-lt x hx) (shift_out-lt y hy)
        e in
    sym (shift_in-shift_out x hx) ∙ ap shift_in same ∙ shift_in-shift_out y hy

-- Two 16-bit checksums that agree after 16-bit values were added with `crcu16` differ before as
-- the values do.
pub crcu16_injective :
    (v w crc crc' : ℕ)
    → v < 2 ^ 16
    → w < 2 ^ 16
    → crc < 2 ^ 16
    → crc' < 2 ^ 16
    → crcu16 v crc ≡ crcu16 w crc'
    → bit_xor crc v ≡ bit_xor crc' w
crcu16_injective v w crc crc' hv hw hc hc' e =
    shift_outs_injective 16 (bit_xor crc v) (bit_xor crc' w) (bit_xor-lt 16 crc v hc hv)
      (bit_xor-lt 16 crc' w hc' hw)
      (sym (crcu16-shift_outs v crc hv hc) ∙ e ∙ crcu16-shift_outs w crc' hw hc')
