-- ===== src/Base/Bits/Halves.antt =====
-- Strong induction from `a / 2` to `a`, and the doubling of a power of two.
use mathlib.Core.WellFounded
use Prim.Native.Nat.{ℕ, zero, suc, ◌*◌, ◌/◌, ◌^◌, ◌<◌}
use mathlib.Core.Path.{◌≡◌, ap}
use native.Mathlib.Nat.{pow-suc}
use native.Mathlib.Omega.{arith}
use mlonmcu_sw.Base.Order.{lt_wf}

pub by_halves {ℓ} : (P : ℕ → Type ℓ) → P 0 → ((n : ℕ) → P (suc n / 2) → P (suc n)) → (n : ℕ) → P n
by_halves P base step n = WellFounded.induction lt_wf {C = P} n go
  where
    go : (k : ℕ) → ((m : ℕ) → m < k → P m) → P k
    go zero ih = base
    go (suc k) ih = step k (ih (suc k / 2) (omega arith))

pub mul-two-pow-suc : (x e : ℕ) → x * 2 ^ suc e ≡ x * 2 ^ e * 2
mul-two-pow-suc x e =
    let doubled : 2 ^ suc e ≡ 2 ^ e * 2 = pow-suc 2 e in
    omega (arith, ap (λ (p : ℕ). x * p) doubled)
