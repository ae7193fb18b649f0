-- ===== src/Coremark/Calc/Cached.antt =====
-- `calc_func` calculates once and keeps the result.
use mlonmcu_sw.Base.{ℕ, ◌/◌, ◌%◌, ◌^◌, ◌≡◌, some}
use mlonmcu_sw.Coremark.Calc.{Results, calc_func}
use mlonmcu_sw.Coremark.Calc.Ready.{Kept}

-- What a call on `datum` gives: the value of 7 bits, the datum and the results of the kernels.
pub record Called (datum : ℕ) (res : Results) (out : ℕ × ℕ × Results) : Type 0 where
  pub value : out.0 ≡ out.1 % 2 ^ 7
  pub cached : out.1 / 2 ^ 7 % 2 ≡ 1
  pub original : out.1 / 2 ^ 8 ≡ datum / 2 ^ 8
  pub kept : Kept res out.2
  pub again : calc_func out.1 out.2 ≡ some out
