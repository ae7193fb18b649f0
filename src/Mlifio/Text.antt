-- ===== src/Mlifio/Text.antt =====
-- Decimal numbers, as printf's %zu writes and atoi reads them, and texts as bytes.
use Prim.Native.Char.{code}
use Prim.Native.String.{String}
use mlonmcu_sw.Base.{
  ℕ, zero, suc, ◌+◌, ◌-◌, ◌*◌, ◌/◌, ◌%◌, ◌^◌, ◌≡◌, ◌≤◌, ◌<◌, refl, arith, List, [], ◌∷◌, ◌++◌,
  length, length-append, All, true, ltb, if◌then◌else◌, Bool-cases, inl, inr,
}

abbrev pub codes : String → List ℕ
codes String.[] = []
codes (String.◌∷◌ c s) = code c ∷ codes s

-- The last digits of a number, as many as the first argument says or as it has.
unfoldable pub digits : ℕ → ℕ → List ℕ
digits zero n = []
digits (suc k) n =
    let high = digits k (n / 10) in
    if ltb n 10 then (b'0' + n) ∷ [] else high ++ (b'0' + n % 10) ∷ []

-- A `size_t` of 32 bits has at most ten digits.
unfoldable pub print_size : ℕ → List ℕ
unfolding digits
print_size n = digits 10 n

abbrev pub atoi_from : ℕ → List ℕ → ℕ
atoi_from n [] = n
atoi_from n (c ∷ s) = atoi_from (n * 10 + (c - b'0')) s

-- `atoi` of a text of at most nine digits.
abbrev pub atoi : List ℕ → ℕ
atoi s = atoi_from 0 s

abbrev pub IsDigit : ℕ → Type 0
IsDigit c = (b'0' ≤ c) × (c ≤ b'9')

atoi_from-append :
    (s : List ℕ) (n c : ℕ) → atoi_from n (s ++ c ∷ []) ≡ atoi_from n s * 10 + (c - b'0')
atoi_from-append [] n c = refl
atoi_from-append (d ∷ s) n c = atoi_from-append s (n * 10 + (d - b'0')) c

pub All-digits : (k n : ℕ) → All IsDigit (digits k n)
unfolding digits
All-digits zero n = tt
All-digits (suc k) n = elim (Bool-cases (ltb n 10)) [
  | inl one ↦ rw one ((omega arith, ground (arith, one)), tt)
  | inr more ↦ rw more (append (digits k (n / 10)) (All-digits k (n / 10)))
]
  where
    append : (s : List ℕ) → All IsDigit s → All IsDigit (s ++ (b'0' + n % 10) ∷ [])
    append [] h = ((omega arith, omega arith), tt)
    append (c ∷ s) h = (h.0, append s h.1)

tenth : (k n : ℕ) → n < 10 ^ suc k → n / 10 < 10 ^ k
tenth k n h = let e : 10 ^ suc k ≡ 10 * 10 ^ k = omega arith in omega (arith, e)

-- `atoi` reads what was printed.
pub atoi-digits : (k n : ℕ) → n < 10 ^ k → atoi (digits k n) ≡ n
unfolding digits
atoi-digits zero n h = omega arith
atoi-digits (suc k) n h = elim (Bool-cases (ltb n 10)) [
  | inl one ↦ rw one (omega arith)
  | inr more ↦
      rw
        (
          more,
          atoi_from-append (digits k (n / 10)) 0 (b'0' + n % 10),
          atoi-digits k (n / 10) (tenth k n h),
        )
        (omega arith)
]

pub length-digits : (k j n : ℕ) → n < 10 ^ suc j → length (digits k n) ≤ suc j
unfolding digits
length-digits zero j n h = omega arith
length-digits (suc k) zero n h =
    let one : ltb n 10 ≡ true = ground (arith, h) in rw one (omega arith)
length-digits (suc k) (suc j) n h = elim (Bool-cases (ltb n 10)) [
  | inl one ↦ rw one (omega arith)
  | inr more ↦ rw more (
      omega (
        arith,
        length-append (digits k (n / 10)) ((b'0' + n % 10) ∷ []),
        length-digits k j (n / 10) (tenth (suc j) n h),
      ))
]

pub print_size_one : (n : ℕ) → n < 10 → print_size n ≡ (b'0' + n) ∷ []
unfolding print_size
print_size_one n h = let one : ltb n 10 ≡ true = ground (arith, h) in rw one refl
