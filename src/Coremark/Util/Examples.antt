-- ===== src/Coremark/Util/Examples.antt =====
-- Tests of the checksum, and its theorems at concrete inputs.
use mlonmcu_sw.Base.{◌≡◌, refl, arith, bit_xor}
use mlonmcu_sw.Coremark.Util.{crcu8, crcu16, crcu32}
use mlonmcu_sw.Coremark.Util.Words.{shift_outs, crcu16-shift_outs}
use mlonmcu_sw.Coremark.Util.Detect.{crcu16_injective}

-- The check value of this division for "12" and then "34" is that of CRC-16.
crcu8_one : crcu8 b'1' 0 ≡ 0xd4c1
unfolding crcu8
crcu8_one = refl

crcu32_word : crcu32 0x1234_5678 0 ≡ 0x7d6e
unfolding crcu32
crcu32_word = refl

crcu16-shift_outs_example : crcu16 0x1234 0xbeef ≡ shift_outs 16 (bit_xor 0xbeef 0x1234)
crcu16-shift_outs_example = crcu16-shift_outs 0x1234 0xbeef (omega arith) (omega arith)

same_sum : crcu16 0x1234 0xbeef ≡ crcu16 0x1235 0xbeee
unfolding crcu16
same_sum = refl

crcu16_injective_example : bit_xor 0xbeef 0x1234 ≡ bit_xor 0xbeee 0x1235
crcu16_injective_example =
    crcu16_injective 0x1234 0x1235 0xbeef 0xbeee (omega arith) (omega arith) (omega arith)
      (omega arith) same_sum
