-- ===== src/Base/Bits/Step.antt =====
-- The native operations on binary digits are recursions with fuel; here the fuel is dropped, and
-- one equation for the lowest digit of each operation is left.
use Prim.Native.Nat.{digits, differ, max, min, ◌<◌, ◌≤◌, ◌%◌, ◌/◌, ◌*◌, ◌+◌, suc, zero, ℕ}
use Prim.Native.Nat.{bit_and, bit_or, bit_xor, bit_and-bitwise, bit_or-bitwise, bit_xor-bitwise}
use mathlib.Core.Path.{◌≡◌, refl, ◌∙◌}
use native.Mathlib.Omega.{arith}

module _ (ends : ℕ → ℕ) (op : ℕ → ℕ → ℕ) where
  abbrev by_digits : ℕ → ℕ → ℕ → ℕ
  by_digits fuel a b = digits ends op fuel a b

  -- Any fuel that covers the first number serves.
  enough : (f g a b : ℕ) → a ≤ f → a ≤ g → by_digits f a b ≡ by_digits g a b
  enough zero zero a b hf hg = refl
  enough zero (suc g) zero b hf hg = refl
  enough (suc f) zero zero b hf hg = refl
  enough (suc f) (suc g) zero b hf hg = refl
  enough zero g (suc a) b hf hg = absurd (omega arith)
  enough (suc f) zero (suc a) b hf hg = absurd (omega arith)
  enough (suc f) (suc g) (suc a) b hf hg =
      omega (arith, enough f g (suc a / 2) (b / 2) (omega arith) (omega arith))

  -- The lowest digit apart from the others, whatever the operation does with it.
  lowest :
      (m n : ℕ)
      → by_digits (suc m) (suc m) n
        ≡ by_digits (suc m / 2) (suc m / 2) (n / 2) * 2 + op (suc m % 2) (n % 2)
  lowest m n = omega (arith, enough m (suc m / 2) (suc m / 2) (n / 2) (omega arith) (omega arith))

differ_bits : (x y : ℕ) → x < 2 → y < 2 → differ x y ≡ (x + y) % 2
differ_bits zero y p q = omega arith
differ_bits (suc zero) zero p q = refl
differ_bits (suc zero) (suc zero) p q = refl
differ_bits (suc zero) (suc (suc y)) p q = absurd (omega arith)
differ_bits (suc (suc x)) y p q = absurd (omega arith)

pub zero-bit_xor : (n : ℕ) → bit_xor 0 n ≡ n
zero-bit_xor n = bit_xor-bitwise 0 n

pub bit_xor_step : (m n : ℕ) → bit_xor m n ≡ bit_xor (m / 2) (n / 2) * 2 + (m + n) % 2
bit_xor_step zero n = omega (arith, zero-bit_xor n, zero-bit_xor (n / 2))
bit_xor_step (suc m) n =
    let digit = differ_bits (suc m % 2) (n % 2) (omega arith) (omega arith) in
    let e = bit_xor-bitwise (suc m) n ∙ lowest (λ y. y) differ m n in
    omega (arith, e, bit_xor-bitwise (suc m / 2) (n / 2), digit)

pub zero-bit_or : (n : ℕ) → bit_or 0 n ≡ n
zero-bit_or n = bit_or-bitwise 0 n

pub bit_or_step : (m n : ℕ) → bit_or m n ≡ max (m % 2) (n % 2) + bit_or (m / 2) (n / 2) * 2
bit_or_step zero n = let rest = zero-bit_or (n / 2) in omega (arith, rest, zero-bit_or n)
bit_or_step (suc m) n =
    let e = bit_or-bitwise (suc m) n ∙ lowest (λ y. y) max m n in
    omega (arith, e, bit_or-bitwise (suc m / 2) (n / 2))

pub bit_and_step : (m n : ℕ) → bit_and m n ≡ min (m % 2) (n % 2) + bit_and (m / 2) (n / 2) * 2
bit_and_step zero n =
    let all = bit_and-bitwise 0 n in
    let rest = bit_and-bitwise 0 (n / 2) in omega (arith, all, rest)
bit_and_step (suc m) n =
    let e = bit_and-bitwise (suc m) n ∙ lowest (λ y. 0) min m n in
    omega (arith, e, bit_and-bitwise (suc m / 2) (n / 2))
