-- ===== src/Coremark/Util.antt =====
-- lib/coremark/core_util.c: the 16-bit checksum. Signed arguments are given by their patterns.
pub mod Step
pub mod Words
pub mod Detect
pub mod Examples
use mlonmcu_sw.Base.{ℕ, zero, suc, ◌+◌, ◌%◌, ◌>>>◌, u8, u16, bit_and, bit_or, bit_xor, ◌==◌}
use mlonmcu_sw.Base.{if◌then◌else◌}

-- One round of the loop of `crcu8`, on the data and the checksum. `carry` is set with `x16`.
pub crcu8_crc : ℕ → ℕ → ℕ
crcu8_crc value crc =
    let x16 = u8 (bit_xor (value % 2) (crc % 2)) in
    if x16 == 1 then bit_or (bit_xor crc 0x4002 >>> 1) 0x8000 else bit_and (crc >>> 1) 0x7fff

pub crcu8_loop : ℕ → (value crc : ℕ) → ℕ
unfolding crcu8_crc
crcu8_loop zero value crc = crc
crcu8_loop (suc left) value crc = crcu8_loop left (value >>> 1) (crcu8_crc value crc)

unfoldable pub crcu8 : ℕ → ℕ → ℕ
unfolding crcu8_loop
crcu8 value crc = crcu8_loop 8 value crc

unfoldable pub crcu16 : ℕ → ℕ → ℕ
unfolding crcu8
crcu16 newval crc = crcu8 (u8 (newval >>> 8)) (crcu8 (u8 newval) crc)

unfoldable pub crc16 : ℕ → ℕ → ℕ
unfolding crcu16
crc16 newval crc = crcu16 (u16 newval) crc

unfoldable pub crcu32 : ℕ → ℕ → ℕ
unfolding crc16
crcu32 newval crc = crc16 (u16 (newval >>> 16)) (crc16 (u16 newval) crc)
