-- ===== src/Coremark/State/Grammar.antt =====
-- The numbers that the state machine recognises, described without it.
pub mod Point
pub mod Exponent
pub mod Classify
use mlonmcu_sw.Base.{ℕ, ◌≤◌, ◌≡◌, ◌≢◌, ◌⊎◌, List, [], ◌∷◌, ◌++◌, All}

abbrev pub IsDigit : ℕ → Type 0
IsDigit c = (b'0' ≤ c) × (c ≤ b'9')

abbrev pub IsSignByte : ℕ → Type 0
IsSignByte c = (c ≡ b'+') ⊎ (c ≡ b'-')

-- A sign or nothing.
abbrev pub IsSign : List ℕ → Type 0
IsSign w = (w ≡ []) ⊎ ((c : ℕ) × (w ≡ c ∷ []) × IsSignByte c)

-- A sign or nothing, and digits.
pub record IsNumeral (w : List ℕ) : Type 0 where
  pub sign : List ℕ
  pub digits : List ℕ
  pub splits : w ≡ sign ++ digits
  pub is_sign : IsSign sign
  pub are_digits : All IsDigit digits

-- With at least one digit.
pub record IsInt (w : List ℕ) : Type 0 where
  pub numeral : IsNumeral w
  pub some_digit : numeral.digits ≢ []

-- Digits may be missing on both sides of the point.
pub record IsFloat (w : List ℕ) : Type 0 where
  pub whole : List ℕ
  pub fraction : List ℕ
  pub splits : w ≡ whole ++ b'.' ∷ fraction
  pub is_numeral : IsNumeral whole
  pub are_digits : All IsDigit fraction

-- The letter, a sign that may not be missing, and at least one digit.
pub record IsExponent (w : List ℕ) : Type 0 where
  pub letter : ℕ
  pub sign : ℕ
  pub first : ℕ
  pub digits : List ℕ
  pub splits : w ≡ letter ∷ sign ∷ first ∷ digits
  pub is_letter : (letter ≡ b'E') ⊎ (letter ≡ b'e')
  pub is_sign : IsSignByte sign
  pub are_digits : All IsDigit (first ∷ digits)

pub record IsScientific (w : List ℕ) : Type 0 where
  pub mantissa : List ℕ
  pub power : List ℕ
  pub splits : w ≡ mantissa ++ power
  pub is_float : IsFloat mantissa
  pub is_exponent : IsExponent power
