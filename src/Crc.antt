-- ===== src/Crc.antt =====
-- lib/openasip/crc: the CRC of a message, bit by bit and with a table (crc.c, crc.h, main.c).
pub mod Standards
pub mod Linear
pub mod Table
pub mod Fast
pub mod Examples
use Standards.{Standard}
use mlonmcu_sw.Base.{
  ℕ, zero, suc, ◌+◌, ◌-◌, ◌*◌, ◌/◌, ◌%◌, ◌^◌, ◌<<<◌, ◌>>>◌, u8, u32, bit_xor, bit_or,
}
use mlonmcu_sw.Base.{Bool, List, [], ◌∷◌, ◌==◌, if◌then◌else◌, get_or, set}

-- The loop of `reflect` with `left` rounds to go: the lowest bit of the data moves to its mirrored
-- place, and the data moves down. `unsigned long` has 32 bits.
pub reflect_loop : ℕ → (n_bits bit value reflection : ℕ) → ℕ
reflect_loop zero n_bits bit value reflection = reflection
reflect_loop (suc left) n_bits bit value reflection =
    reflect_loop left n_bits (bit + 1) (value >>> 1)
      (if value % 2 == 1 then bit_or reflection (u32 (1 <<< (n_bits - 1 - bit))) else reflection)

pub reflect : ℕ → ℕ → ℕ
unfolding reflect_loop
reflect value n_bits = reflect_loop n_bits n_bits 0 value 0

module _ (s : Standard) where
  open s use {
    width, polynomial, initial_remainder, final_xor_value, reflects_data, reflects_remainder,
  }

  -- The conversion to the type `crc`.
  abbrev pub to_crc : ℕ → ℕ
  to_crc n = n % 2 ^ width

  -- `remainder & TOPBIT`.
  pub has_top_bit : ℕ → Bool
  has_top_bit remainder = (remainder >>> (width - 1)) % 2 == 1

  -- One round of the modulo-2 division.
  pub divide_bit : ℕ → ℕ
  unfolding has_top_bit
  divide_bit remainder =
      if has_top_bit remainder
      then to_crc (bit_xor (remainder <<< 1) polynomial)
      else to_crc (remainder <<< 1)

  -- The loop over the bits of a byte.
  pub divide_bits : ℕ → ℕ → ℕ
  unfolding divide_bit
  divide_bits zero remainder = remainder
  divide_bits (suc bit) remainder = divide_bits bit (divide_bit remainder)

  -- The macros REFLECT_DATA and REFLECT_REMAINDER.
  pub reflect_data : ℕ → ℕ
  unfolding reflect
  reflect_data x = if reflects_data then u8 (reflect x 8) else x

  pub reflect_remainder : ℕ → ℕ
  unfolding reflect
  reflect_remainder x = if reflects_remainder then to_crc (reflect x width) else x

  pub crc_slow_byte : ℕ → ℕ → ℕ
  unfolding divide_bits reflect_data
  crc_slow_byte remainder byte =
      divide_bits 8 (to_crc (bit_xor remainder (reflect_data byte <<< (width - 8))))

  pub crc_slow_loop : ℕ → List ℕ → ℕ
  unfolding crc_slow_byte
  crc_slow_loop remainder [] = remainder
  crc_slow_loop remainder (byte ∷ message) = crc_slow_loop (crc_slow_byte remainder byte) message

  -- `crcSlow(message, nBytes)`: the list holds the `nBytes` bytes of the message.
  pub crc_slow : List ℕ → ℕ
  unfolding crc_slow_loop reflect_remainder
  crc_slow message =
      to_crc (bit_xor (reflect_remainder (crc_slow_loop initial_remainder message)) final_xor_value)

  -- `crcInit` fills the global array `crcTable` from the entry `dividend` on.
  pub crc_init_loop : ℕ → ℕ → List ℕ → List ℕ
  unfolding divide_bits
  crc_init_loop zero dividend table = table
  crc_init_loop (suc left) dividend table =
      crc_init_loop left (dividend + 1)
        (set table dividend (divide_bits 8 (to_crc (dividend <<< (width - 8)))))

  pub crc_init : List ℕ → List ℕ
  unfolding crc_init_loop
  crc_init table = crc_init_loop 256 0 table

  pub crc_fast_byte : List ℕ → ℕ → ℕ → ℕ
  unfolding reflect_data
  crc_fast_byte table remainder byte =
      let entry = u8 (bit_xor (reflect_data byte) (remainder >>> (width - 8))) in
      to_crc (bit_xor (get_or table entry 0) (remainder <<< 8))

  pub crc_fast_loop : List ℕ → ℕ → List ℕ → ℕ
  unfolding crc_fast_byte
  crc_fast_loop table remainder [] = remainder
  crc_fast_loop table remainder (byte ∷ message) =
      crc_fast_loop table (crc_fast_byte table remainder byte) message

  -- `crcFast(message, nBytes)`, with `crcTable` as an argument.
  pub crc_fast : List ℕ → List ℕ → ℕ
  unfolding crc_fast_loop reflect_remainder
  crc_fast table message =
      to_crc (
        bit_xor (reflect_remainder (crc_fast_loop table initial_remainder message)) final_xor_value)
