-- ===== src/Coremark/State/Grammar/Exponent.antt =====
-- Runs of the machine through the exponent.
use mlonmcu_sw.Base.{
  ℕ, ◌≤◌, ◌≡◌, refl, arith, List, [], ◌∷◌, ◌++◌, All, inl, inr, ◌⊎◌, sym, ap, ◌∙◌,
}
use mlonmcu_sw.Coremark.State.Machine.{
  CoreState, start, invalid, s1, s2, int, float, exponent, scientific, transition,
}
use mlonmcu_sw.Coremark.State.Machine.Scan.{next, run, run-append, rank, rank-run}
use mlonmcu_sw.Coremark.State.Grammar.{IsDigit, IsSignByte, IsExponent, IsScientific}
use mlonmcu_sw.Coremark.State.Grammar.Point.{float_of_run, run_of_float}

sci_step :
    (c : ℕ) (w : List ℕ)
    → run (next scientific c) w ≡ scientific
    → IsDigit c × (next scientific c ≡ scientific)
unfolding transition
sci_step c w e = ground (arith, rank-run invalid w, ap rank e)

stays_scientific : (w : List ℕ) → run scientific w ≡ scientific → All IsDigit w
stays_scientific [] e = tt
stays_scientific (c ∷ w) e =
    let step = sci_step c w e in (step.0, stays_scientific w (ap (λ t. run t w) (sym step.1) ∙ e))

run_digits_scientific : (w : List ℕ) → All IsDigit w → run scientific w ≡ scientific
unfolding transition
run_digits_scientific [] h = refl
run_digits_scientific (c ∷ w) h = ground (arith, run_digits_scientific w h.1)

-- The next state where a scientific number is still possible.
letter_step :
    (s : CoreState) (c : ℕ) (w : List ℕ)
    → rank s ≤ 3
    → run (next s c) w ≡ scientific
    → ((s ≡ float) × ((c ≡ b'E') ⊎ (c ≡ b'e')) × (next s c ≡ s2)) ⊎ (rank (next s c) ≤ 3)
unfolding transition
letter_step start c w h e = inr (ground (arith, rank-run invalid w, ap rank e))
letter_step s1 c w h e = inr (ground (arith, rank-run invalid w, ap rank e))
letter_step int c w h e = inr (ground (arith, rank-run invalid w, ap rank e))
letter_step float c w h e = ground (arith, rank-run invalid w, ap rank e)
letter_step _ c w h e = absurd (omega arith)

sign_step :
    (c : ℕ) (w : List ℕ) → run (next s2 c) w ≡ scientific → IsSignByte c × (next s2 c ≡ exponent)
unfolding transition
sign_step c w e = ground (arith, rank-run invalid w, ap rank e)

IsDigit-step :
    (c : ℕ) (w : List ℕ)
    → run (next exponent c) w ≡ scientific
    → IsDigit c × (next exponent c ≡ scientific)
unfolding transition
IsDigit-step c w e = ground (arith, rank-run invalid w, ap rank e)

power :
    (letter : ℕ) (w : List ℕ)
    → (letter ≡ b'E') ⊎ (letter ≡ b'e')
    → run s2 w ≡ scientific
    → IsExponent (letter ∷ w)
power letter [] l e = absurd (omega (arith, ap rank e))
power letter (c ∷ []) l e =
    let step = sign_step c [] e in absurd (omega (arith, ap rank (sym step.1 ∙ e)))
power letter (c ∷ d ∷ w) l e =
    let sign = sign_step c (d ∷ w) e in
    let e' = ap (λ t. run t (d ∷ w)) (sym sign.1) ∙ e in
    let digit = IsDigit-step d w e' in
    record {
      letter = letter;
      sign = c;
      first = d;
      digits = w;
      splits = refl;
      is_letter = l;
      is_sign = sign.0;
      are_digits = (digit.0, stays_scientific w (ap (λ t. run t w) (sym digit.1) ∙ e'));
    }

record Powered (s : CoreState) (w : List ℕ) : Type 0 where
  mantissa : List ℕ
  rest : List ℕ
  splits : w ≡ mantissa ++ rest
  ends_float : run s mantissa ≡ float
  is_exponent : IsExponent rest

powered : (s : CoreState) (w : List ℕ) → rank s ≤ 3 → run s w ≡ scientific → Powered s w
powered s [] h e = absurd (omega (arith, ap rank e))
powered s (c ∷ w) h e = elim (letter_step s c w h e) [
  | inl (at_float, letter, f) ↦ record {
    mantissa = [];
    rest = c ∷ w;
    splits = refl;
    ends_float = at_float;
    is_exponent = power c w letter (ap (λ t. run t w) (sym f) ∙ e);
  }
  | inr still ↦
      let p = powered (next s c) w still e in
      record {
        mantissa = c ∷ p.mantissa;
        rest = p.rest;
        splits = ap (λ t. c ∷ t) p.splits;
        ends_float = p.ends_float;
        is_exponent = p.is_exponent;
      }
]

pub scientific_of_run : (w : List ℕ) → run start w ≡ scientific → IsScientific w
scientific_of_run w e =
    let p = powered start w (omega arith) e in
    record {
      mantissa = p.mantissa;
      power = p.rest;
      splits = p.splits;
      is_float = float_of_run p.mantissa p.ends_float;
      is_exponent = p.is_exponent;
    }

run_exponent : (w : List ℕ) → IsExponent w → run float w ≡ scientific
unfolding transition
run_exponent w x = rw x.splits (ground (arith, run_digits_scientific x.digits x.are_digits.1))

pub run_of_scientific : (w : List ℕ) → IsScientific w → run start w ≡ scientific
run_of_scientific w x =
    rw (x.splits, run-append start x.mantissa x.power, run_of_float x.mantissa x.is_float)
      (run_exponent x.power x.is_exponent)
