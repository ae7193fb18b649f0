-- ===== src/Base/Loop.antt =====
-- Counting loops, with one body for every round, and what an invariant gives for them.
use Prim.Native.Nat.{ℕ, zero, suc, ◌+◌, ◌*◌, ◌<◌}
use mathlib.Core.Path.{◌≡◌}
use mathlib.Core.Option.{Option, some}
use native.Mathlib.Nat.{zero-mul, one-mul, add-mul}
use native.Mathlib.Omega.{arith}
use mlonmcu_sw.Base.Partial.{◌>>=◌, Returns, returns, bind}

-- `left` more rounds, the first for `i`.
unfoldable pub for_loop {ℓ} : {S : Type ℓ} → (left i : ℕ) → (ℕ → S → Option S) → S → Option S
for_loop zero i body s = some s
for_loop (suc left) i body s = body i s >>= for_loop left (i + 1) body

module _ {S : Type 0} (body : ℕ → S → Option S) (Inv : ℕ → S → Type 0) (last : ℕ)
    (step : (i : ℕ) (s : S) → i < last → Inv i s → Returns (Inv (i + 1)) (body i s)) where
  pub for_loop-Returns :
      (left i : ℕ) (s : S) → i + left ≡ last → Inv i s → Returns (Inv last) (for_loop left i body s)
  unfolding for_loop
  for_loop-Returns zero i s e h = let e' : i ≡ last = omega arith in returns (rw (e') at h)
  for_loop-Returns (suc left) i s e h =
      bind (step i s (omega arith) h) (λ s' h'. for_loop-Returns left (i + 1) s' (omega arith) h')

-- The two loops over the rows and the columns of a square.
unfoldable pub for_cells {ℓ} : {S : Type ℓ} → (size : ℕ) → (ℕ → ℕ → S → Option S) → S → Option S
unfolding for_loop
for_cells size body s = for_loop size 0 (λ i. for_loop size 0 (body i)) s

module _ {S : Type 0} (size : ℕ) (body : ℕ → ℕ → S → Option S) (Inv : ℕ → S → Type 0)
    (step : (i j : ℕ) (s : S)
      → i < size
      → j < size
      → Inv (i * size + j) s
      → Returns (Inv (i * size + j + 1)) (body i j s)) where
  pub for_cells-Returns : (s : S) → Inv 0 s → Returns (Inv (size * size)) (for_cells size body s)
  unfolding for_cells
  for_cells-Returns s h =
      for_loop-Returns (λ i. for_loop size 0 (body i)) (λ i. Inv (i * size)) size row size 0 s
        (omega arith) (rw (zero-mul size) h)
    where
      row :
          (i : ℕ) (s : S)
          → i < size
          → Inv (i * size) s
          → Returns (Inv ((i + 1) * size)) (for_loop size 0 (body i) s)
      row i s lt h =
          let e : (i + 1) * size ≡ i * size + size =
            omega (arith, add-mul i 1 size, one-mul size) in
          let z : i * size + 0 ≡ i * size = omega arith in
          rw e (
            for_loop-Returns (body i) (λ j. Inv (i * size + j)) size (cell i lt) size 0 s
              (omega arith) (rw z h))
        where
          cell :
              (i : ℕ)
              → i < size
              → (j : ℕ) (s : S) → j < size
              → Inv (i * size + j) s
              → Returns (Inv (i * size + (j + 1))) (body i j s)
          cell i lt j s lt' h =
              let e : i * size + (j + 1) ≡ i * size + j + 1 = omega arith in
              rw e (step i j s lt lt' h)
