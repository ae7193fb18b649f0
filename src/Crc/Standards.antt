-- ===== src/Crc/Standards.antt =====
-- The CRC standards of crc.h. `unsigned short` has 16 bits and `unsigned long` has 32, as on the
-- 32-bit targets.
use mlonmcu_sw.Base.{ℕ, ◌^◌, ◌≤◌, ◌<◌, Bool, true, false}

pub record Standard : Type 0 where
  pub width : ℕ
  pub polynomial : ℕ
  pub initial_remainder : ℕ
  pub final_xor_value : ℕ
  pub reflects_data : Bool
  pub reflects_remainder : Bool
  pub check_value : ℕ

abbrev pub crc_ccitt : Standard
crc_ccitt = record {
  width = 16;
  polynomial = 0x1021;
  initial_remainder = 0xffff;
  final_xor_value = 0;
  reflects_data = false;
  reflects_remainder = false;
  check_value = 0x29b1;
}

abbrev pub crc16 : Standard
crc16 = record {
  width = 16;
  polynomial = 0x8005;
  initial_remainder = 0;
  final_xor_value = 0;
  reflects_data = true;
  reflects_remainder = true;
  check_value = 0xbb3d;
}

abbrev pub crc32 : Standard
crc32 = record {
  width = 32;
  polynomial = 0x04c1_1db7;
  initial_remainder = 0xffff_ffff;
  final_xor_value = 0xffff_ffff;
  reflects_data = true;
  reflects_remainder = true;
  check_value = 0xcbf4_3926;
}

-- The type holds at least a byte, and the constants fit it.
pub record IsStandard (s : Standard) : Type 0 where
  pub has_byte : 8 ≤ s.width
  pub polynomial_fits : s.polynomial < 2 ^ s.width
  pub initial_fits : s.initial_remainder < 2 ^ s.width
