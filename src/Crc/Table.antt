-- ===== src/Crc/Table.antt =====
-- `crcInit`: the entries of the table, whatever it held before.
use mlonmcu_sw.Base.{ℕ, zero, suc, ◌+◌, ◌-◌, ◌≤◌, ◌<◌, ◌≡◌, refl, arith, ◌∙◌, List, ◌<<<◌}
use mlonmcu_sw.Base.{length, get_or, set, length-set, get_or-set_self, get_or-set_ne}
use mlonmcu_sw.Crc.{to_crc, divide_bits, crc_init_loop, crc_init}
use mlonmcu_sw.Crc.Standards.{Standard}
use native.Mathlib.Decide.{ℕ_discrete}

module _ (s : Standard) where
  abbrev pub entry : ℕ → ℕ
  entry x = divide_bits s 8 (to_crc s (x <<< (s.width - 8)))

  length-crc_init_loop :
      (left dividend : ℕ) (table : List ℕ)
      → length (crc_init_loop s left dividend table) ≡ length table
  unfolding crc_init_loop
  length-crc_init_loop zero dividend table = refl
  length-crc_init_loop (suc left) dividend table =
      length-crc_init_loop left (dividend + 1) (set table dividend (entry dividend))
      ∙ length-set table dividend (entry dividend)

  crc_init_loop_before :
      (left dividend : ℕ) (table : List ℕ) (x : ℕ)
      → x < dividend
      → get_or (crc_init_loop s left dividend table) x 0 ≡ get_or table x 0
  unfolding crc_init_loop
  crc_init_loop_before zero dividend table x h = refl
  crc_init_loop_before (suc left) dividend table x h =
      crc_init_loop_before left (dividend + 1) (set table dividend (entry dividend)) x (omega arith)
      ∙ get_or-set_ne table dividend x (entry dividend) 0 (omega arith)

  crc_init_loop-entry :
      (left dividend : ℕ) (table : List ℕ) (x : ℕ)
      → dividend ≤ x
      → x < dividend + left
      → dividend + left ≤ length table
      → get_or (crc_init_loop s left dividend table) x 0 ≡ entry x
  unfolding crc_init_loop
  crc_init_loop-entry zero dividend table x lo hi fits = absurd (omega arith)
  crc_init_loop-entry (suc left) dividend table x lo hi fits =
      let v = entry dividend in
      let next = set table dividend v in
      elim (ℕ_discrete dividend x) [
        | yes e ↦ rw (← e) (
            crc_init_loop_before left (dividend + 1) next dividend (omega arith)
            ∙ get_or-set_self table dividend v 0 (omega arith))
        | no ne ↦
            let below : dividend + 1 ≤ x = omega arith in
            crc_init_loop-entry left (dividend + 1) next x below (omega arith)
              (omega (arith, length-set table dividend v))
      ]

  -- Every entry of the table is the remainder of its index, whatever the table held before.
  pub get_or-crc_init :
      (table : List ℕ) (x : ℕ)
      → 256 ≤ length table
      → x < 256
      → get_or (crc_init s table) x 0 ≡ entry x
  unfolding crc_init
  get_or-crc_init table x fits h = crc_init_loop-entry 256 0 table x (omega arith) h fits
