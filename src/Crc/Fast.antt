-- ===== src/Crc/Fast.antt =====
-- `crcFast` computes what `crcSlow` computes.
use native.Mathlib.Nat.{
  div-lt_iff_lt-mul, add-zero, mod-eq_of_lt, mod-lt, one-le-pow, div-add-mod',
  mul-add-mod_self_right,
}
use mlonmcu_sw.Base.{ℕ, ◌+◌, ◌-◌, ◌*◌, ◌/◌, ◌%◌, ◌^◌, ◌≤◌, ◌<◌, ◌≡◌, refl, arith, ◌∙◌, ap, sym}
use mathlib.Core.Path.{ap₂}
use mlonmcu_sw.Base.{List, [], ◌∷◌, ◌<<<◌, bit_xor, u8, All, length, get_or}
use mlonmcu_sw.Base.{Bool-cases, inl, inr}
use mlonmcu_sw.Base.Bits.{bit_xor_fields, bit_xor-zero, zero-bit_xor, bit_xor_comm, bit_xor-lt}
use mlonmcu_sw.Base.Bits.{bit_xor-mod, two_pow_add_eight}
use mlonmcu_sw.Crc.{
  to_crc, divide_bits, reflect_data, crc_slow_byte, crc_slow_loop, crc_slow, crc_init,
  crc_fast_byte, crc_fast_loop, crc_fast,
}
use mlonmcu_sw.Crc.Standards.{Standard, IsStandard}
use mlonmcu_sw.Crc.Linear.{divide_bits-xor, divide_bits-shift, divide_bits-lt}
use mlonmcu_sw.Crc.Table.{get_or-crc_init}

abbrev pub IsByte : ℕ → Type 0
IsByte b = b < 256

below : (x p : ℕ) → x < 256 → 0 < p → x * p < p * 256
below x p h pos = grind arith

module _ (s : Standard) where
  reflect_data-IsByte : (b : ℕ) → IsByte b → IsByte (reflect_data s b)
  unfolding reflect_data
  reflect_data-IsByte b h = elim (Bool-cases s.reflects_data) [
    | inl e ↦ rw e (omega arith)
    | inr e ↦ rw e h
  ]

module _ (s : Standard) (v : IsStandard s) where
  abbrev k : ℕ
  k = s.width - 8

  width_split : 2 ^ s.width ≡ 2 ^ k * 256
  width_split =
      let e : s.width ≡ k + 8 = omega (arith, v.has_byte) in ap (λ n. 2 ^ n) e ∙ two_pow_add_eight k

  -- The remainder in two parts: the byte on top, and what is below.
  abbrev top : ℕ → ℕ
  top r = r / 2 ^ k

  abbrev rest : ℕ → ℕ
  rest r = r % 2 ^ k

  module _ (r : ℕ) (hr : r < 2 ^ s.width) where
    rest-lt : rest r < 2 ^ k
    rest-lt = mod-lt r (one-le-pow k 2 (omega arith))

    parts : r ≡ top r * 2 ^ k + rest r
    parts = sym (div-add-mod' r (2 ^ k))

    top-IsByte : IsByte (top r)
    top-IsByte = (div-lt_iff_lt-mul (one-le-pow k 2 (omega arith))).1 (omega (arith, width_split))

    -- What the division leaves of the part below.
    rest_shifted : divide_bits s 8 (rest r) ≡ rest r * 256
    rest_shifted = divide_bits-shift s v 8 (rest r) (omega (arith, width_split, rest-lt))

    dropped : to_crc s (r <<< 8) ≡ rest r * 256
    dropped =
        let shape : r * 256 ≡ top r * 2 ^ s.width + rest r * 256 =
          omega (arith, parts, ap (λ (t : ℕ). top r * t) width_split) in
        ap (λ t. t % 2 ^ s.width) shape
        ∙ mul-add-mod_self_right (top r) (2 ^ s.width) (rest r * 256)
        ∙ mod-eq_of_lt (omega (arith, width_split, rest-lt))

  -- The byte goes into the part on top.
  mixed : (r d : ℕ) → bit_xor r (d <<< k) ≡ bit_xor (bit_xor (top r) d * 2 ^ k) (rest r)
  mixed r d =
      let pos = one-le-pow k 2 (omega arith) in
      let low : rest r < 2 ^ k = mod-lt r pos in
      let x : ℕ = bit_xor (top r) d in
      ap₂ bit_xor (sym (div-add-mod' r (2 ^ k))) (sym (add-zero (d * 2 ^ k)))
      ∙ bit_xor_fields k (top r) d (rest r) 0 low pos
      ∙ ap₂ ◌+◌ (ap (λ t. t * 2 ^ k) (sym (bit_xor-zero x)))
          (bit_xor-zero (rest r) ∙ sym (zero-bit_xor (rest r)))
      ∙ sym (bit_xor_fields k x 0 0 (rest r) pos low)
      ∙ ap₂ bit_xor (add-zero (x * 2 ^ k)) (omega arith)

  module _ (table : List ℕ) (r d : ℕ) (room : 256 ≤ length table) (hr : r < 2 ^ s.width)
      (hd : IsByte d) where
    abbrev index : ℕ
    index = bit_xor (top r) d

    index-IsByte : IsByte index
    index-IsByte = bit_xor-lt 8 (top r) d (top-IsByte r hr) hd

    index-fits : index * 2 ^ k < 2 ^ s.width
    index-fits = rw width_split (below index (2 ^ k) index-IsByte (one-le-pow k 2 (omega arith)))

    mixed-lt : bit_xor r (d <<< k) < 2 ^ s.width
    mixed-lt = rw (mixed r d) (
        bit_xor-lt s.width (index * 2 ^ k) (rest r) index-fits
          (omega (arith, width_split, rest-lt r hr)))

    slow_value :
        divide_bits s 8 (to_crc s (bit_xor r (d <<< k)))
        ≡ bit_xor (divide_bits s 8 (index * 2 ^ k)) (rest r * 256)
    slow_value =
        ap (divide_bits s 8) (mod-eq_of_lt mixed-lt ∙ mixed r d)
        ∙ divide_bits-xor s v 8 (index * 2 ^ k) (rest r)
        ∙ ap (bit_xor (divide_bits s 8 (index * 2 ^ k))) (rest_shifted r hr)

    fast_value :
        to_crc s (bit_xor (get_or (crc_init s table) (u8 (bit_xor d (r / 2 ^ k))) 0) (r <<< 8))
        ≡ bit_xor (divide_bits s 8 (index * 2 ^ k)) (rest r * 256)
    fast_value =
        let same : u8 (bit_xor d (top r)) ≡ index =
          ap u8 (bit_xor_comm d (top r)) ∙ mod-eq_of_lt index-IsByte in
        rw (same, get_or-crc_init s table index room index-IsByte, mod-eq_of_lt index-fits)
          (bit_xor-mod s.width (divide_bits s 8 (index * 2 ^ k)) (r <<< 8)
            ∙ ap₂ bit_xor (mod-eq_of_lt (divide_bits-lt s v 8 (index * 2 ^ k) index-fits))
                (dropped r hr))

  module _ (table : List ℕ) (room : 256 ≤ length table) where
    byte_step :
        (r b : ℕ)
        → r < 2 ^ s.width
        → IsByte b
        → crc_fast_byte s (crc_init s table) r b ≡ crc_slow_byte s r b
    unfolding crc_fast_byte crc_slow_byte
    byte_step r b hr hb =
        let hd = reflect_data-IsByte s b hb in
        fast_value table r (reflect_data s b) room hr hd
        ∙ sym (slow_value table r (reflect_data s b) room hr hd)

    crc_slow_byte-lt : (r b : ℕ) → crc_slow_byte s r b < 2 ^ s.width
    unfolding crc_slow_byte
    crc_slow_byte-lt r b =
        divide_bits-lt s v 8 (to_crc s (bit_xor r (reflect_data s b <<< k)))
          (mod-lt _ (one-le-pow s.width 2 (omega arith)))

    loops_agree :
        (r : ℕ) (message : List ℕ)
        → r < 2 ^ s.width
        → All IsByte message
        → crc_fast_loop s (crc_init s table) r message ≡ crc_slow_loop s r message
    unfolding crc_fast_loop crc_slow_loop
    loops_agree r [] hr bytes = refl
    loops_agree r (b ∷ message) hr bytes =
        rw (byte_step r b hr bytes.0)
          (loops_agree (crc_slow_byte s r b) message (crc_slow_byte-lt r b) bytes.1)

    -- `crcFast` after `crcInit` gives the CRC that `crcSlow` gives, for every standard whose type
    -- holds a byte and whose polynomial and initial remainder fit the type, every message of bytes, and every table of at
    -- least 256 entries, whatever it held before.
    pub crc_fast-eq-crc_slow :
        (message : List ℕ)
        → All IsByte message
        → crc_fast s (crc_init s table) message ≡ crc_slow s message
    unfolding crc_fast crc_slow
    crc_fast-eq-crc_slow message bytes =
        rw (loops_agree s.initial_remainder message v.initial_fits bytes)
