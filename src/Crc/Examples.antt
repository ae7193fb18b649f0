-- ===== src/Crc/Examples.antt =====
-- Tests of the CRC definitions, and the theorems at concrete inputs.
use mlonmcu_sw.Base.{ℕ, List, [], ◌∷◌, ◌≡◌, refl, replicate, arith}
use mlonmcu_sw.Crc.{crc_slow, crc_fast, crc_init}
use mlonmcu_sw.Crc.Standards.{IsStandard, crc_ccitt, crc16, crc32}
use mlonmcu_sw.Crc.Fast.{crc_fast-eq-crc_slow}

-- The message of `mlonmcu_run`.
abbrev digits : List ℕ
digits = b'1' ∷ b'2' ∷ b'3' ∷ b'4' ∷ b'5' ∷ b'6' ∷ b'7' ∷ b'8' ∷ b'9' ∷ []

abbrev zeros : List ℕ
zeros = replicate 256 0

slow_ccitt : crc_slow crc_ccitt digits ≡ crc_ccitt.check_value
unfolding crc_slow
slow_ccitt = refl

slow_crc16 : crc_slow crc16 digits ≡ crc16.check_value
unfolding crc_slow
slow_crc16 = refl

slow_crc32 : crc_slow crc32 digits ≡ crc32.check_value
unfolding crc_slow
slow_crc32 = refl

fast_crc32 : crc_fast crc32 (crc_init crc32 zeros) digits ≡ crc32.check_value
unfolding crc_fast crc_init
fast_crc32 = refl

crc32-IsStandard : IsStandard crc32
crc32-IsStandard = omega arith

crc_fast-eq-crc_slow_example : crc_fast crc32 (crc_init crc32 zeros) digits ≡ crc_slow crc32 digits
crc_fast-eq-crc_slow_example =
    crc_fast-eq-crc_slow crc32 crc32-IsStandard zeros (omega arith) digits (omega arith)
