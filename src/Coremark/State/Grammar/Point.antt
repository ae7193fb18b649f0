-- ===== src/Coremark/State/Grammar/Point.antt =====
-- Runs of the machine up to and across the decimal point.
use mlonmcu_sw.Base.{
  ℕ, ◌≤◌, ◌≡◌, ◌≢◌, refl, arith, List, [], ◌∷◌, ◌++◌, All, inl, inr, ◌⊎◌, sym, ap, ◌∙◌,
}
use mathlib.Core.List.{append-nil}
use mlonmcu_sw.Coremark.State.Machine.{CoreState, start, invalid, s1, s2, int, float, transition}
use mlonmcu_sw.Coremark.State.Machine.Scan.{next, run, run-append, rank, rank-run}
use mlonmcu_sw.Coremark.State.Grammar.{IsDigit, IsSignByte, IsSign, IsNumeral, IsInt, IsFloat}

-- A sign or digits may be read, no point yet.
abbrev pub BeforePoint : CoreState → Type 0
BeforePoint s = rank s ≤ 2

pub run_digits_int : (w : List ℕ) → All IsDigit w → run int w ≡ int
unfolding transition
run_digits_int [] h = refl
run_digits_int (c ∷ w) h = ground (arith, run_digits_int w h.1)

pub run_digits_float : (w : List ℕ) → All IsDigit w → run float w ≡ float
unfolding transition
run_digits_float [] h = refl
run_digits_float (c ∷ w) h = ground (arith, run_digits_float w h.1)

float_step :
    (c : ℕ) (w : List ℕ) → rank (run (next float c) w) ≤ 3 → IsDigit c × (next float c ≡ float)
unfolding transition
float_step c w h = ground (arith, rank-run s2 w, rank-run invalid w)

pub stays_float : (w : List ℕ) → run float w ≡ float → All IsDigit w
stays_float [] e = tt
stays_float (c ∷ w) e =
    let step = float_step c w (omega (arith, ap rank e)) in
    (step.0, stays_float w (ap (λ t. run t w) (sym step.1) ∙ e))

int_step : (c : ℕ) (w : List ℕ) → BeforePoint (run (next int c) w) → IsDigit c × (next int c ≡ int)
unfolding transition
int_step c w h = ground (arith, rank-run float w, rank-run invalid w)

pub stays_int : (w : List ℕ) → BeforePoint (run int w) → All IsDigit w
stays_int [] h = tt
stays_int (c ∷ w) h = let step = int_step c w h in (step.0, stays_int w (rw step.1 at h))

-- After a sign only digits come before the point.
sign_step : (c : ℕ) (w : List ℕ) → BeforePoint (run (next s1 c) w) → IsDigit c × (next s1 c ≡ int)
unfolding transition
sign_step c w h = ground (arith, rank-run float w, rank-run invalid w)

after_sign : (w : List ℕ) → BeforePoint (run s1 w) → All IsDigit w
after_sign [] h = tt
after_sign (c ∷ w) h = let step = sign_step c w h in (step.0, stays_int w (rw step.1 at h))

start_step :
    (c : ℕ) (w : List ℕ)
    → BeforePoint (run (next start c) w)
    → (IsDigit c × (next start c ≡ int)) ⊎ (IsSignByte c × (next start c ≡ s1))
unfolding transition
start_step c w h = ground (arith, rank-run float w, rank-run invalid w)

-- A text that keeps the machine before the point is a numeral.
pub IsNumeral-of_run : (w : List ℕ) → BeforePoint (run start w) → IsNumeral w
IsNumeral-of_run [] h = record {
  sign = [];
  digits = [];
  splits = refl;
  is_sign = inl refl;
  are_digits = tt;
}
IsNumeral-of_run (c ∷ w) h = elim (start_step c w h) [
  | inl (digit, e) ↦ record {
    sign = [];
    digits = c ∷ w;
    splits = refl;
    is_sign = inl refl;
    are_digits = (digit, stays_int w (rw e at h));
  }
  | inr (byte, e) ↦ record {
    sign = c ∷ [];
    digits = w;
    splits = refl;
    is_sign = inr (c, refl, byte);
    are_digits = after_sign w (rw e at h);
  }
]

-- The state after a sign or nothing.
run_sign : (w : List ℕ) → IsSign w → (run start w ≡ start) ⊎ (run start w ≡ s1)
unfolding transition
run_sign w (inl e) = rw e (inl refl)
run_sign w (inr (c, e, byte)) = rw e (inr (ground arith))

run_digits :
    (s : CoreState) (w : List ℕ) → (s ≡ start) ⊎ (s ≡ s1) → All IsDigit w → w ≢ [] → run s w ≡ int
unfolding transition
run_digits s [] h d ne = absurd (ne refl)
run_digits s (c ∷ w) (inl e) d ne = rw e (ground (arith, run_digits_int w d.1))
run_digits s (c ∷ w) (inr e) d ne = rw e (ground (arith, run_digits_int w d.1))

-- A numeral keeps the machine before the point.
pub run_of_numeral : (w : List ℕ) → IsNumeral w → BeforePoint (run start w)
run_of_numeral w n = rw (n.splits, run-append start n.sign n.digits) (go n.digits n.are_digits)
  where
    go : (d : List ℕ) → All IsDigit d → BeforePoint (run (run start n.sign) d)
    go [] h = elim (run_sign n.sign n.is_sign) [
      | inl e ↦ rw e (omega arith)
      | inr e ↦ rw e (omega arith)
    ]
    go (c ∷ d) h =
        rw (run_digits (run start n.sign) (c ∷ d) (run_sign n.sign n.is_sign) h (λ e. cc))
          (omega arith)

pub run_of_int : (w : List ℕ) → IsInt w → run start w ≡ int
run_of_int w i =
    let n = i.numeral in
    rw (n.splits, run-append start n.sign n.digits)
      (run_digits (run start n.sign) n.digits (run_sign n.sign n.is_sign) n.are_digits i.some_digit)

pub int_of_run : (w : List ℕ) → run start w ≡ int → IsInt w
int_of_run w e =
    let n = IsNumeral-of_run w (omega (arith, ap rank e)) in
    record {
      numeral = n;
      some_digit = λ none_left.
          not_sign n.sign n.is_sign (ap (run start) (sym (sign_alone n none_left)) ∙ e);
    }
  where
    sign_alone : (n : IsNumeral w) → n.digits ≡ [] → w ≡ n.sign
    sign_alone n h = n.splits ∙ ap (λ t. n.sign ++ t) h ∙ append-nil n.sign

    not_sign : (v : List ℕ) → IsSign v → run start v ≢ int
    not_sign v h f = elim (run_sign v h) [ inl g ↦ cc | inr g ↦ cc ]

point_step :
    (s : CoreState) (c : ℕ) (w : List ℕ)
    → BeforePoint s
    → rank (run (next s c) w) ≤ 3
    → ((c ≡ b'.') × (next s c ≡ float)) ⊎ BeforePoint (next s c)
unfolding transition
point_step start c w h k = ground (arith, rank-run invalid w)
point_step s1 c w h k = ground (arith, rank-run invalid w)
point_step int c w h k = ground (arith, rank-run invalid w)
point_step _ c w h k = absurd (omega arith)

-- The first point of a text that ends in `float`.
record Pointed (s : CoreState) (w : List ℕ) : Type 0 where
  whole : List ℕ
  fraction : List ℕ
  splits : w ≡ whole ++ b'.' ∷ fraction
  before : BeforePoint (run s whole)
  are_digits : All IsDigit fraction

pointed : (s : CoreState) (w : List ℕ) → BeforePoint s → run s w ≡ float → Pointed s w
pointed s [] h e = absurd (omega (arith, ap rank e))
pointed s (c ∷ w) h e = elim (point_step s c w h (omega (arith, ap rank e))) [
  | inl (point, f) ↦ record {
    whole = [];
    fraction = w;
    splits = ap (λ t. t ∷ w) point;
    before = h;
    are_digits = stays_float w (ap (λ t. run t w) (sym f) ∙ e);
  }
  | inr still ↦
      let p = pointed (next s c) w still e in
      record {
        whole = c ∷ p.whole;
        fraction = p.fraction;
        splits = ap (λ t. c ∷ t) p.splits;
        before = p.before;
        are_digits = p.are_digits;
      }
]

pub float_of_run : (w : List ℕ) → run start w ≡ float → IsFloat w
float_of_run w e =
    let p = pointed start w (omega arith) e in
    record {
      whole = p.whole;
      fraction = p.fraction;
      splits = p.splits;
      is_numeral = IsNumeral-of_run p.whole p.before;
      are_digits = p.are_digits;
    }

takes_point : (s : CoreState) → BeforePoint s → next s b'.' ≡ float
unfolding transition
takes_point start h = refl
takes_point s1 h = refl
takes_point int h = refl
takes_point _ h = absurd (omega arith)

pub run_of_float : (w : List ℕ) → IsFloat w → run start w ≡ float
run_of_float w f =
    let s = run start f.whole in
    rw (f.splits, run-append start f.whole (b'.' ∷ f.fraction))
      (rw (takes_point s (run_of_numeral f.whole f.is_numeral))
        (run_digits_float f.fraction f.are_digits))
