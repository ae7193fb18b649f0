-- ===== src/Base/Bits/Masks.antt =====
-- `|` of disjoint fields is a sum, and `&` with a low mask is a remainder.
use Prim.Native.Nat.{ℕ, zero, suc, ◌+◌, ◌-◌, ◌*◌, ◌/◌, ◌%◌, ◌^◌, ◌<◌, bit_and, bit_or}
use mathlib.Core.Path.{◌≡◌, refl, ap, ◌∙◌, sym}
use native.Mathlib.Nat.{pow-suc, one-le-pow, div-add-mod', mod-lt}
use native.Mathlib.Omega.{arith}
use mlonmcu_sw.Base.Bits.Halves.{by_halves, mul-two-pow-suc}
use mlonmcu_sw.Base.Bits.Step.{bit_or_step, bit_and_step, zero-bit_or}

bit_or-zero : (a : ℕ) → bit_or a 0 ≡ a
bit_or-zero = by_halves _ refl (λ n ih. omega (arith, bit_or_step (suc n) 0, ih))

bit_and-zero : (a : ℕ) → bit_and a 0 ≡ 0
bit_and-zero = by_halves _ refl (λ n ih. omega (arith, bit_and_step (suc n) 0, ih))

or_halves : (k q r : ℕ) → bit_or (r / 2) (q * 2 ^ suc k / 2) ≡ bit_or (r / 2) (q * 2 ^ k)
or_halves k q r = ap (bit_or (r / 2)) (omega (arith, mul-two-pow-suc q k))

-- `r | (q << k)` where `r` fits `k` bits.
pub bit_or_disjoint : (k q r : ℕ) → r < 2 ^ k → bit_or r (q * 2 ^ k) ≡ q * 2 ^ k + r
bit_or_disjoint zero q r h =
    let e : r ≡ 0 = omega arith in rw (e, zero-bit_or (q * 2 ^ 0)) (omega arith)
bit_or_disjoint (suc k) q r h = omega (
  arith,
  bit_or_step r (q * 2 ^ suc k),
  or_halves k q r,
  mul-two-pow-suc q k,
  bit_or_disjoint k q (r / 2) (omega (arith, pow-suc 2 k)),
)

mask_halves : (k a : ℕ) → bit_and (a / 2) ((2 ^ suc k - 1) / 2) ≡ bit_and (a / 2) (2 ^ k - 1)
mask_halves k a = ap (bit_and (a / 2)) (omega (arith, pow-suc 2 k))

-- `a & ((1 << k) - 1)`.
bit_and_low : (k p r : ℕ) → r < 2 ^ k → bit_and (p * 2 ^ k + r) (2 ^ k - 1) ≡ r
bit_and_low zero p r h = rw (bit_and-zero (p * 2 ^ 0 + r)) (omega arith)
bit_and_low (suc k) p r h =
    let a : ℕ = p * 2 ^ suc k + r in
    let half : a / 2 ≡ p * 2 ^ k + r / 2 = omega (arith, mul-two-pow-suc p k) in
    omega (
      arith,
      bit_and_step a (2 ^ suc k - 1),
      mask_halves k a ∙ ap (λ t. bit_and t (2 ^ k - 1)) half,
      pow-suc 2 k,
      one-le-pow k 2 (omega arith),
      mul-two-pow-suc p k,
      bit_and_low k p (r / 2) (omega (arith, pow-suc 2 k)),
    )

pub bit_and_mask : (k a : ℕ) → bit_and a (2 ^ k - 1) ≡ a % 2 ^ k
bit_and_mask k a =
    let low = mod-lt a (one-le-pow k 2 (omega arith)) in
    ap (λ t. bit_and t (2 ^ k - 1)) (sym (div-add-mod' a (2 ^ k)))
    ∙ bit_and_low k (a / 2 ^ k) (a % 2 ^ k) low
