-- ===== src/Coremark/Links/Bench/Examples.antt =====
-- `core_bench_list` on three heads.
use mlonmcu_sw.Base.{ℕ, ◌≡◌, ◌<◌, ◌^◌, refl, arith, inr, List, [], ◌∷◌, if◌then◌else◌, ◌==◌}
use mlonmcu_sw.Base.Partial.{Returns}
use mlonmcu_sw.Coremark.Calc.{Results}
use mlonmcu_sw.Coremark.Links.{Store}
use mlonmcu_sw.Coremark.Links.Chained.{Chained, Distinct}
use mlonmcu_sw.Coremark.Links.Bench.{core_bench_list}
use mlonmcu_sw.Coremark.Links.Bench.Back.{InOrder, core_bench_list-InOrder}

-- Heads at 8, 16 and 24, with data at 100, 104 and 108.
abbrev three : Store
three = record {
  next = λ x. if x == 8 then 16 else if x == 16 then 24 else 0;
  info = λ x. if x == 8 then 100 else if x == 16 then 104 else 108;
  data16 = λ x. if x == 104 then 1 else 0x8080;
  idx = λ x. if x == 100 then 0 else if x == 104 then 9 else 5;
}

abbrev heads : List ℕ
heads = 8 ∷ 16 ∷ 24 ∷ []

heads-Distinct : Distinct heads
heads-Distinct = ((omega arith, (omega arith, tt)), ((omega arith, tt), (tt, tt)))

three-Chained : Chained three 8 heads
three-Chained = (refl, omega arith, (refl, omega arith, (refl, omega arith, refl)))

short : (a : ℕ) → three.idx a < 2 ^ 16
short a = ground arith

abbrev blank : Results
blank = record {
  size = 0;
  seed1 = 0;
  seed2 = 0;
  memory = [];
  dimension = 0;
  a = [];
  b = [];
  c = [];
  crc = 0;
  crcmatrix = 0;
  crcstate = 0;
}

core_bench_list-InOrder_example :
    Returns
      (λ out. (out.2 ≡ blank) × (list' : ℕ) × InOrder three heads list' out.1)
      (core_bench_list 4 8 2 65535 0 three blank)
core_bench_list-InOrder_example =
    core_bench_list-InOrder 4 8 2 65535 0 three blank heads three-Chained heads-Distinct
      (omega arith) (omega arith) (omega arith) short (inr (omega arith))
