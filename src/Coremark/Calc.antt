-- ===== src/Coremark/Calc.antt =====
-- lib/coremark/core_list_join.c: the functions on the data of the list, which run the other kernels
-- and keep their results in the data. Bit fields are written as quotients and remainders.
pub mod Ready
pub mod Cached
pub mod Examples
use mlonmcu_sw.Base.{
  ℕ, ◌+◌, ◌*◌, ◌/◌, ◌%◌, ◌^◌, Option, some, none, List, ltb, ◌==◌, if◌then◌else◌, u16, sub32,
}
use mlonmcu_sw.Base.Partial.{◌>>=◌}
use mlonmcu_sw.Coremark.Util.{crcu16}
use mlonmcu_sw.Coremark.Matrix.{core_bench_matrix, extend}
use mlonmcu_sw.Coremark.State.Bench.{core_bench_state}

-- The fields of `core_results` that the functions use: `memory` is `memblock[3]`, and the matrices are
-- those of `mat`.
pub record Results : Type 0 where
  pub size : ℕ
  pub seed1 : ℕ
  pub seed2 : ℕ
  pub memory : List ℕ
  pub dimension : ℕ
  pub a : List ℕ
  pub b : List ℕ
  pub c : List ℕ
  pub crc : ℕ
  pub crcmatrix : ℕ
  pub crcstate : ℕ

-- The `switch` on the kind of operation: `retval`, and the results.
unfoldable pub calc_value : (datum flag dtype : ℕ) → Results → Option (ℕ × Results)
calc_value datum flag dtype res =
    if flag == 0
    then (do
      (memory, crc) ←
          core_bench_state res.size res.memory res.seed1 res.seed2
            (if ltb dtype 0x22 then 0x22 else dtype) res.crc
      let retval = u16 crc
      some (
        retval,
        record res {
          memory = memory;
          crcstate = (if res.crcstate == 0 then retval else res.crcstate);
        },
      ))
    else if flag == 1
    then (do
      t ← core_bench_matrix res.dimension res.c res.a res.b dtype res.crc
      let retval = u16 t.crc
      some (
        retval,
        record res {
          a = t.a;
          c = t.c;
          crcmatrix = (if res.crcmatrix == 0 then retval else res.crcmatrix);
        },
      ))
    else some (datum, res)

-- The result, the data and the results of all kernels after the call.
unfoldable pub calc_func : (datum : ℕ) → Results → Option (ℕ × ℕ × Results)
unfolding calc_value
calc_func datum res =
    let dtype = datum / 2 ^ 3 % 2 ^ 4 in
    let calculated = (do
      (retval, res) ← calc_value datum (datum % 2 ^ 3) (dtype * 2 ^ 4 + dtype) res
      some (
        retval % 2 ^ 7,
        datum / 2 ^ 8 * 2 ^ 8 + 0x80 + retval % 2 ^ 7,
        record res { crc = crcu16 retval res.crc },
      )) in
    if datum / 2 ^ 7 % 2 == 1 then some (datum % 2 ^ 7, datum, res) else calculated

-- The result, the data of both items and the results of all kernels.
unfoldable pub cmp_complex : (a b : ℕ) → Results → Option (ℕ × ℕ × ℕ × Results)
unfolding calc_func
cmp_complex a b res = do
  (val1, a, res) ← calc_func a res
  (val2, b, res) ← calc_func b res
  some (sub32 val1 val2, a, b, res)

-- The lower byte gets the value of the upper one.
abbrev pub regenerate : ℕ → ℕ
regenerate datum = datum / 2 ^ 8 * 2 ^ 8 + datum / 2 ^ 8 % 2 ^ 8

-- `cmp_idx` where `res` is NULL: the result and the data of both items.
unfoldable pub cmp_idx : (a a_idx b b_idx : ℕ) → ℕ × ℕ × ℕ
cmp_idx a a_idx b b_idx = (sub32 (extend a_idx) (extend b_idx), regenerate a, regenerate b)
