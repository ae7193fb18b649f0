-- ===== src/Base/Partial.antt =====
-- Sequences of steps that may fail, and total correctness of one: it gives a result, with a
-- property.
use mathlib.Core.Path.{◌≡◌, refl}
use mathlib.Core.Option.{Option, none, some}

infixl 5 ◌>>=◌
abbrev pub ◌>>=◌ {ℓ κ} : {A : Type ℓ} {B : Type κ} → Option A → (A → Option B) → Option B
none >>= f = none
some a >>= f = f a

pub data Returns {A : Type 0} (P : A → Type 0) : Option A → Type 0 where
  returns : {a : A} → P a → Returns P (some a)

module _ {A : Type 0} {P : A → Type 0} where
  pub bind :
      {B : Type 0} {Q : B → Type 0} {o : Option A} {f : A → Option B}
      → Returns P o
      → ((a : A) → P a → Returns Q (f a))
      → Returns Q (o >>= f)
  bind (returns h) next = next _ h

  pub mono : {Q : A → Type 0} {o : Option A} → Returns P o → ((a : A) → P a → Q a) → Returns Q o
  mono (returns h) weaken = returns (weaken _ h)

  -- The result, as a value.
  pub result : {o : Option A} → Returns P o → (a : A) × (o ≡ some a) × P a
  result (returns {a} h) = (a, refl, h)
