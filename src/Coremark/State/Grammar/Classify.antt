-- ===== src/Coremark/State/Grammar/Classify.antt =====
-- The end state of a token is its class.
use mlonmcu_sw.Base.{ℕ, ◌≡◌, ◌≢◌, ◌↔◌, some, List, ◌∷◌, ◌++◌, All, sym, ◌∙◌}
use mlonmcu_sw.Coremark.State.Machine.{
  start, invalid, int, float, scientific, Scanned, core_state_transition,
}
use mlonmcu_sw.Coremark.State.Machine.Scan.{IsSymbol, scan-Classified}
use mlonmcu_sw.Coremark.State.Grammar.{IsInt, IsFloat, IsScientific}
use mlonmcu_sw.Coremark.State.Grammar.Point.{int_of_run, run_of_int, float_of_run, run_of_float}
use mlonmcu_sw.Coremark.State.Grammar.Exponent.{scientific_of_run, run_of_scientific}

-- The scan of a token of bytes other than zero and the comma, with a comma behind it, ends; in a
-- state other than `CORE_INVALID` it stops right behind the comma. It ends in `CORE_INT` exactly on an optional sign and at least one digit, in `CORE_FLOAT` exactly on an
-- optional sign, digits, a point and digits, and in `CORE_SCIENTIFIC` exactly on such a number
-- with a letter, a sign and at least one digit behind it.
pub core_state_transition_classifies :
    (w rest counts : List ℕ)
    → All IsSymbol w
    → (r : Scanned) × (core_state_transition (w ++ b',' ∷ rest) counts ≡ some r)
      × ((r.state ≡ int) ↔ IsInt w)
      × ((r.state ≡ float) ↔ IsFloat w)
      × ((r.state ≡ scientific) ↔ IsScientific w)
      × (r.state ≢ invalid → r.rest ≡ rest)
unfolding core_state_transition
core_state_transition_classifies w rest counts symbols =
    let (r, e, (same, after)) = scan-Classified start w rest counts symbols in
    (
      r,
      e,
      (λ h. int_of_run w (sym same ∙ h), λ h. same ∙ run_of_int w h),
      (λ h. float_of_run w (sym same ∙ h), λ h. same ∙ run_of_float w h),
      (λ h. scientific_of_run w (sym same ∙ h), λ h. same ∙ run_of_scientific w h),
      after,
    )
