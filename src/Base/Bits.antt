-- ===== src/Base/Bits.antt =====
-- Laws of `^` at every width, from one equation for the lowest digit.
mod Step
mod Halves
mod Masks
pub use Masks.*
pub use Halves.{mul-two-pow-suc}
use Step.{bit_xor_step}
use Halves.{by_halves}
pub use Step.{zero-bit_xor}
use native.Mathlib.Nat.{pow-suc, one-le-pow, add-zero, mod-lt, add_comm, div-add-mod', div-eq_of_lt}
use native.Mathlib.Nat.{mul-add-mod_self_right, mod-eq_of_lt, add-mul-div_right}
use Prim.Native.Nat.{ℕ, zero, suc, ◌+◌, ◌*◌, ◌/◌, ◌%◌, ◌^◌, ◌<◌, bit_xor}
use mathlib.Core.Path.{◌≡◌, refl, ap, ap₂, ◌∙◌, sym}
use native.Mathlib.Numerals.{towards_suc}
use native.Mathlib.Omega.{arith}

pub bit_xor-zero : (a : ℕ) → bit_xor a 0 ≡ a
bit_xor-zero = by_halves _ refl (λ n ih. omega (arith, bit_xor_step (suc n) 0, ih))

pub bit_xor_self : (a : ℕ) → bit_xor a a ≡ 0
bit_xor_self = by_halves _ refl (λ n ih. omega (arith, bit_xor_step (suc n) (suc n), ih))

pub bit_xor_comm : (a b : ℕ) → bit_xor a b ≡ bit_xor b a
bit_xor_comm =
    by_halves (λ a. (b : ℕ) → bit_xor a b ≡ bit_xor b a)
      (λ b. zero-bit_xor b ∙ sym (bit_xor-zero b))
      (λ n ih b. omega (arith, bit_xor_step (suc n) b, bit_xor_step b (suc n), ih (b / 2)))

-- The digits above the lowest, and the lowest.
bit_xor_half : (a b : ℕ) → bit_xor a b / 2 ≡ bit_xor (a / 2) (b / 2)
bit_xor_half a b = omega (arith, bit_xor_step a b)

pub bit_xor_parity : (a b : ℕ) → bit_xor a b % 2 ≡ (a + b) % 2
bit_xor_parity a b = omega (arith, bit_xor_step a b)

pub bit_xor_assoc : (a b c : ℕ) → bit_xor (bit_xor a b) c ≡ bit_xor a (bit_xor b c)
bit_xor_assoc =
    by_halves (λ a. (b c : ℕ) → bit_xor (bit_xor a b) c ≡ bit_xor a (bit_xor b c))
      (λ b c. ap (λ t. bit_xor t c) (zero-bit_xor b) ∙ sym (zero-bit_xor (bit_xor b c)))
      (λ n ih b c.
        rw
          (
            bit_xor_step (bit_xor (suc n) b) c,
            bit_xor_step (suc n) (bit_xor b c),
            bit_xor_half (suc n) b,
            bit_xor_half b c,
          )
          (omega (arith, ih (b / 2) (c / 2), bit_xor_parity (suc n) b, bit_xor_parity b c)))

pub bit_xor-lt : (k a b : ℕ) → a < 2 ^ k → b < 2 ^ k → bit_xor a b < 2 ^ k
bit_xor-lt zero a b p q =
    let e : a ≡ 0 = omega arith in
    let f : b ≡ 0 = omega arith in rw (e, f) (omega (arith, zero-bit_xor 0))
bit_xor-lt (suc k) a b p q =
    let e = pow-suc 2 k in
    omega (arith, bit_xor_step a b, bit_xor-lt k (a / 2) (b / 2) (omega arith) (omega arith))

-- `^` works on the digits from `k` up and on those below `k` apart.
pub bit_xor_fields :
    (k p q r s : ℕ)
    → r < 2 ^ k
    → s < 2 ^ k
    → bit_xor (p * 2 ^ k + r) (q * 2 ^ k + s) ≡ bit_xor p q * 2 ^ k + bit_xor r s
bit_xor_fields zero p q r s hr hs =
    let e : r ≡ 0 = omega arith in
    let f : s ≡ 0 = omega arith in
    let e' : p * 2 ^ 0 + 0 ≡ p = omega arith in
    let f' : q * 2 ^ 0 + 0 ≡ q = omega arith in
    rw (e, f) (ap₂ bit_xor e' f' ∙ omega (arith, zero-bit_xor 0))
bit_xor_fields (suc k) p q r s hr hs =
    let ih = bit_xor_fields k p q (r / 2) (s / 2) (half k r hr) (half k s hs) in
    omega (
      arith,
      bit_xor_step (p * 2 ^ suc k + r) (q * 2 ^ suc k + s)
          ∙ ap (λ t. t * 2 + (p * 2 ^ suc k + r + (q * 2 ^ suc k + s)) % 2)
              (ap₂ bit_xor (split k p r) (split k q s) ∙ ih),
      bit_xor_step r s,
      mul-two-pow-suc p k,
      mul-two-pow-suc q k,
      mul-two-pow-suc (bit_xor p q) k,
    )
  where
    half : (k r : ℕ) → r < 2 ^ suc k → r / 2 < 2 ^ k
    half k r h = omega (arith, pow-suc 2 k)

    split : (k q r : ℕ) → (q * 2 ^ suc k + r) / 2 ≡ q * 2 ^ k + r / 2
    split k q r = omega (arith, mul-two-pow-suc q k)

-- A shift left distributes over `^`.
pub bit_xor-shift : (k a b : ℕ) → bit_xor (a * 2 ^ k) (b * 2 ^ k) ≡ bit_xor a b * 2 ^ k
bit_xor-shift k a b =
    let pos = one-le-pow k 2 (omega arith) in
    ap₂ bit_xor (sym (add-zero (a * 2 ^ k))) (sym (add-zero (b * 2 ^ k)))
    ∙ bit_xor_fields k a b 0 0 (omega arith) (omega arith)
    ∙ omega (arith, zero-bit_xor 0)

module _ (k a b : ℕ) where
  fields : bit_xor a b ≡ bit_xor (a / 2 ^ k) (b / 2 ^ k) * 2 ^ k + bit_xor (a % 2 ^ k) (b % 2 ^ k)
  fields =
      let pos = one-le-pow k 2 (omega arith) in
      ap₂ bit_xor (div-mod a) (div-mod b)
      ∙ bit_xor_fields k (a / 2 ^ k) (b / 2 ^ k) (a % 2 ^ k) (b % 2 ^ k) (mod-lt a pos)
          (mod-lt b pos)
    where
      div-mod : (x : ℕ) → x ≡ x / 2 ^ k * 2 ^ k + x % 2 ^ k
      div-mod x = sym (div-add-mod' x (2 ^ k))

  abbrev low : ℕ
  low = bit_xor (a % 2 ^ k) (b % 2 ^ k)

  low-lt : low < 2 ^ k
  low-lt =
      let pos = one-le-pow k 2 (omega arith) in
      bit_xor-lt k (a % 2 ^ k) (b % 2 ^ k) (mod-lt a pos) (mod-lt b pos)

  -- The low `k` digits of `a ^ b`, and the digits above them.
  pub bit_xor-mod : bit_xor a b % 2 ^ k ≡ bit_xor (a % 2 ^ k) (b % 2 ^ k)
  bit_xor-mod =
      ap (λ t. t % 2 ^ k) fields
      ∙ mul-add-mod_self_right (bit_xor (a / 2 ^ k) (b / 2 ^ k)) (2 ^ k) low
      ∙ mod-eq_of_lt low-lt

  pub bit_xor-div : bit_xor a b / 2 ^ k ≡ bit_xor (a / 2 ^ k) (b / 2 ^ k)
  bit_xor-div =
      ap (λ t. t / 2 ^ k) (fields ∙ add_comm _ low)
      ∙ add-mul-div_right low (bit_xor (a / 2 ^ k) (b / 2 ^ k)) (one-le-pow k 2 (omega arith))
      ∙ ap (λ t. t + bit_xor (a / 2 ^ k) (b / 2 ^ k)) (div-eq_of_lt low-lt)
      ∙ omega arith

-- `^` with one mask on both sides cancels.
pub bit_xor_cancel : (a b p : ℕ) → bit_xor (bit_xor a p) (bit_xor b p) ≡ bit_xor a b
bit_xor_cancel a b p =
    rw (bit_xor_comm b p, bit_xor_assoc a p (bit_xor p b), ← bit_xor_assoc p p b)
      (rw (bit_xor_self p, zero-bit_xor b))

-- A mask applied twice is gone.
pub bit_xor_twice : (a p : ℕ) → bit_xor (bit_xor a p) p ≡ a
bit_xor_twice a p = rw (bit_xor_assoc a p p, bit_xor_self p) (bit_xor-zero a)

pub bit_xor_right_comm : (a b p : ℕ) → bit_xor (bit_xor a b) p ≡ bit_xor (bit_xor a p) b
bit_xor_right_comm a b p = rw (bit_xor_assoc a b p, bit_xor_comm b p) (sym (bit_xor_assoc a p b))

pub two_pow_add_eight : (k : ℕ) → 2 ^ (k + 8) ≡ 2 ^ k * 256
two_pow_add_eight k = simp towards_suc (
    omega (
      arith,
      pow-suc 2 k,
      pow-suc 2 (suc k),
      pow-suc 2 (suc (suc k)),
      pow-suc 2 (suc (suc (suc k))),
      pow-suc 2 (suc (suc (suc (suc k)))),
      pow-suc 2 (suc (suc (suc (suc (suc k))))),
      pow-suc 2 (suc (suc (suc (suc (suc (suc k)))))),
      pow-suc 2 (suc (suc (suc (suc (suc (suc (suc k))))))),
    ))
