-- ===== src/Coremark/Calc/Examples.antt =====
-- `calc_func` on a text of 8 bytes and matrices of two rows.
use mlonmcu_sw.Base.{ℕ, List, [], ◌∷◌}
use mlonmcu_sw.Coremark.Calc.{Results}

abbrev kernels : Results
kernels = record {
  size = 8;
  seed1 = 0x3415;
  seed2 = 0x3415;
  memory = b'5' ∷ b'0' ∷ b'1' ∷ b'2' ∷ b',' ∷ 0 ∷ 0 ∷ 0 ∷ [];
  dimension = 2;
  a = 1 ∷ 2 ∷ 3 ∷ 0xffff ∷ [];
  b = 5 ∷ 6 ∷ 7 ∷ 8 ∷ [];
  c = 0 ∷ 0 ∷ 0 ∷ 0 ∷ [];
  crc = 0;
  crcmatrix = 0;
  crcstate = 0;
}

abbrev blank : List ℕ
blank = 9 ∷ 9 ∷ 9 ∷ 9 ∷ 9 ∷ 9 ∷ 9 ∷ 9 ∷ []
