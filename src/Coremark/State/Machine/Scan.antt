-- ===== src/Coremark/State/Machine/Scan.antt =====
-- The scan of a token that a comma ends, against the plain run of the states over its symbols.
use mlonmcu_sw.Base.{ℕ, ◌≤◌, ◌≡◌, ◌≢◌, refl, arith, false, some, List, [], ◌∷◌, ◌++◌, All}
use mlonmcu_sw.Base.{inl, inr, ◌⊎◌, sym, ap, ◌∙◌}
use mlonmcu_sw.Coremark.State.Machine.{
  CoreState, start, invalid, s1, s2, int, float, exponent, scientific, Scanned, transition, scan,
  is_invalid,
}

abbrev pub next : CoreState → ℕ → CoreState
next s c = (transition s c []).0

abbrev pub run : CoreState → List ℕ → CoreState
run s [] = s
run s (c ∷ w) = run (next s c) w

-- Neither the end of the text nor a comma.
abbrev pub IsSymbol : ℕ → Type 0
IsSymbol c = (c ≢ 0) × (c ≢ b',')

transition-next : (s : CoreState) (c : ℕ) (counts : List ℕ) → (transition s c counts).0 ≡ next s c
unfolding transition
transition-next start c counts = ground arith
transition-next s1 c counts = ground arith
transition-next _ c counts = ground arith

pub run-append : (s : CoreState) (u v : List ℕ) → run s (u ++ v) ≡ run (run s u) v
run-append s [] v = refl
run-append s (c ∷ u) v = run-append (next s c) u v

pub run-invalid : (w : List ℕ) → run invalid w ≡ invalid
unfolding transition
run-invalid [] = refl
run-invalid (c ∷ w) = run-invalid w

pub invalid-cases : (s : CoreState) → (s ≡ invalid) ⊎ (is_invalid s ≡ false)
invalid-cases invalid = inl refl
invalid-cases _ = inr refl

-- What the scan of the token `w` from the state `s` gives, where `rest` follows its comma.
abbrev pub Classified : CoreState → List ℕ → List ℕ → Scanned → Type 0
Classified s w rest r = (r.state ≡ run s w) × (r.state ≢ invalid → r.rest ≡ rest)

pub scan-Classified :
    (s : CoreState) (w rest counts : List ℕ)
    → All IsSymbol w
    → (r : Scanned) × (scan s counts (w ++ b',' ∷ rest) ≡ some r) × Classified s w rest r
unfolding scan
scan-Classified s [] rest counts symbols = elim (invalid-cases s) [
  | inl e ↦ rw e (
    record { state = invalid; counts = counts; rest = b',' ∷ rest },
    refl,
    (refl, λ ne. absurd (ne refl)),
  )
  | inr e ↦ rw e (record { state = s; counts = counts; rest = rest }, refl, (refl, λ _. refl))
]
scan-Classified s (c ∷ w) rest counts symbols = elim (invalid-cases s) [
  | inl e ↦ rw e (
    record { state = invalid; counts = counts; rest = c ∷ (w ++ b',' ∷ rest) },
    ground arith,
    (sym (run-invalid (c ∷ w)), λ ne. absurd (ne refl)),
  )
  | inr e ↦
      let ih =
        scan-Classified (transition s c counts).0 w rest (transition s c counts).1 symbols.1 in
      (
        ih.0,
        ground (arith, ih.1),
        (ih.2.0 ∙ ap (λ t. run t w) (transition-next s c counts), ih.2.1),
      )
]

-- No symbol leads back to an earlier state.
abbrev pub rank : CoreState → ℕ
rank start = 0
rank s1 = 1
rank int = 2
rank float = 3
rank s2 = 4
rank exponent = 5
rank scientific = 6
rank invalid = 7

rank-next : (s : CoreState) (c : ℕ) → rank s ≤ rank (next s c)
unfolding transition
rank-next start c = ground arith
rank-next s1 c = ground arith
rank-next _ c = ground arith

pub rank-run : (s : CoreState) (w : List ℕ) → rank s ≤ rank (run s w)
rank-run s [] = omega arith
rank-run s (c ∷ w) = omega (arith, rank-next s c, rank-run (next s c) w)
