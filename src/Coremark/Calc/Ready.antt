-- ===== src/Coremark/Calc/Ready.antt =====
-- The kernels that `calc_func` runs leave their memory as they found it.
use mlonmcu_sw.Base.{
  ℕ, ◌*◌, ◌^◌, ◌≤◌, ◌<◌, ◌≡◌, refl, sym, ◌∙◌, ap, some, none, Option, List, length, get_or, u8,
}
use mlonmcu_sw.Base.Partial.{Returns, returns, bind}
use mlonmcu_sw.Coremark.Calc.{Results}
use mlonmcu_sw.Coremark.Matrix.{core_bench_matrix}
use mlonmcu_sw.Coremark.Matrix.Test.{matrix_test-Restored}
use mlonmcu_sw.Coremark.State.Bench.{core_bench_state}
use mlonmcu_sw.Coremark.State.Bench.Restore.{StaysApart}
use mlonmcu_sw.Coremark.State.Bench.Run.{core_bench_state_restores}
use mlonmcu_sw.Coremark.State.Input.{core_init_state}
use mlonmcu_sw.Coremark.State.Input.Filled.{EveryPattern}

-- The text is that of `core_init_state` with seeds that can be undone, and the matrices have their sizes.
pub record IsReady (res : Results) : Type 0 where
  pub seed : ℕ
  pub before : List ℕ
  pub init : core_init_state res.size seed before ≡ some res.memory
  pub two : 2 ≤ res.size
  pub small : res.size < 2 ^ 31
  pub room : res.size ≤ length before
  pub seeds : u8 res.seed1 ≡ u8 res.seed2
  pub apart : EveryPattern (StaysApart res.seed1)
  pub null : StaysApart res.seed1 0
  pub square : res.dimension * res.dimension < 2 ^ 32
  pub length_a : length res.a ≡ res.dimension * res.dimension
  pub length_b : res.dimension * res.dimension ≤ length res.b
  pub length_c : res.dimension * res.dimension ≤ length res.c
  pub fits : (m : ℕ) → get_or res.a m 0 < 2 ^ 16

-- The memory of the text and the matrices A and B are as before, and ready again.
pub record Kept (res res' : Results) : Type 0 where
  pub memory : res'.memory ≡ res.memory
  pub a : res'.a ≡ res.a
  pub b : res'.b ≡ res.b
  pub ready : IsReady res'

or_default : Option (List ℕ) → List ℕ → List ℕ
or_default none d = d
or_default (some a) d = a

pub bench_state_kept :
    (res : Results) (step crc : ℕ)
    → IsReady res
    → 2 ≤ step
    → Returns
        (λ out. out.0 ≡ res.memory)
        (core_bench_state res.size res.memory res.seed1 res.seed2 step crc)
unfolding or_default
bench_state_kept res step crc r h =
    let (q, crc', init, bench) =
      core_bench_state_restores res.size r.seed res.seed1 res.seed2 step crc r.before r.two r.small
        r.room h r.seeds r.apart r.null in
    let same : q ≡ res.memory = ap (λ o. or_default o q) (sym init ∙ r.init) in
    let run = rw same at bench in rw run (returns refl)

pub bench_matrix_kept :
    (res : Results) (val crc : ℕ)
    → IsReady res
    → val < 2 ^ 16
    → Returns
        (λ t. (t.a ≡ res.a) × (length t.c ≡ length res.c))
        (core_bench_matrix res.dimension res.c res.a res.b val crc)
unfolding core_bench_matrix
bench_matrix_kept res val crc r h =
    bind
      (matrix_test-Restored res.dimension res.a res.b res.c val r.square r.length_a r.length_b
        r.length_c h r.fits)
      λ t k. returns (k.same, k.length_c)
