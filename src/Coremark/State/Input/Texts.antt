-- ===== src/Coremark/State/Input/Texts.antt =====
-- `core_init_state`: the texts that belong to the seeds that follow a seed, each with a comma behind it.
use mlonmcu_sw.Base.{
  ℕ, zero, suc, ◌+◌, ◌/◌, ◌%◌, ◌^◌, ◌≤◌, ◌<◌, ◌≡◌, refl, arith, ap, sym, ◌∙◌, List, [], ◌∷◌, ◌++◌,
  All, length, length-append, get_or, ltb, ◌==◌, Bool-cases, inl, inr,
}
use mlonmcu_sw.Coremark.State.Input.{Chosen, choose, pick, int_pat, float_pat, sci_pat, err_pat}
use mlonmcu_sw.Coremark.State.Input.Copy.{All-get_or}

-- The table for each remainder of the seed by 8.
abbrev tables : List (List (List ℕ))
tables = int_pat ∷ int_pat ∷ int_pat ∷ float_pat ∷ float_pat ∷ sci_pat ∷ sci_pat ∷ err_pat ∷ []

abbrev pub text_of : ℕ → List ℕ
text_of seed = get_or (get_or tables (seed % 8) []) (seed / 8 % 4) []

-- The texts for the `n` seeds behind `seed`.
abbrev pub texts : (seed n : ℕ) → List ℕ
texts seed zero = []
texts seed (suc n) = texts seed n ++ (text_of ((seed + suc n) % 2 ^ 16) ++ b',' ∷ [])

-- The whole text of a seed, as the code chooses it.
abbrev pub whole : ℕ → Chosen
whole seed = record { buf = text_of seed; next = length (text_of seed) }

picked_length :
    (pats : List (List ℕ)) (n seed : ℕ)
    → All (λ buf. length buf ≡ n) pats
    → length pats ≡ 4
    → length (pick pats seed) ≡ n
picked_length pats n seed lengths four =
    All-get_or (λ (b : List ℕ). length b ≡ n) pats (seed / 8 % 4) [] lengths (omega (arith, four))

int_table : (r : ℕ) → r < 3 → get_or tables r [] ≡ int_pat
int_table zero h = refl
int_table (suc zero) h = refl
int_table (suc (suc zero)) h = refl
int_table (suc (suc (suc r))) h = absurd (omega (arith, h))

float_table : (r : ℕ) → 3 ≤ r → r < 5 → get_or tables r [] ≡ float_pat
float_table r l h = elim (Bool-cases (r == 3)) [
  | inl a ↦ let at : r ≡ 3 = ground (arith, a) in rw at refl
  | inr a ↦ let at : r ≡ 4 = ground (arith, a, l, h) in rw at refl
]

sci_table : (r : ℕ) → 5 ≤ r → r < 7 → get_or tables r [] ≡ sci_pat
sci_table r l h = elim (Bool-cases (r == 5)) [
  | inl a ↦ let at : r ≡ 5 = ground (arith, a) in rw at refl
  | inr a ↦ let at : r ≡ 6 = ground (arith, a, l, h) in rw at refl
]

err_table : (r : ℕ) → 7 ≤ r → r < 8 → get_or tables r [] ≡ err_pat
err_table r l h = let at : r ≡ 7 = omega (arith, l, h) in rw at refl

abbrev chosen : List ℕ → ℕ → Chosen
chosen buf next = record { buf = buf; next = next }

chosen_of :
    (pats : List (List ℕ)) (n seed : ℕ)
    → get_or tables (seed % 8) [] ≡ pats
    → length (pick pats seed) ≡ n
    → record { buf = pick pats seed; next = n } ≡ whole seed
chosen_of pats n seed e l =
    ap (λ (k : ℕ). chosen (pick pats seed) k) (sym l)
    ∙ ap (λ (t : List (List ℕ)). chosen (pick t seed) (length (pick t seed))) (sym e)

pub choose_whole : (seed : ℕ) → choose seed ≡ whole seed
unfolding choose
choose_whole seed = elim (Bool-cases (ltb (seed % 8) 3)) [
  | inl a ↦ rw a (
      chosen_of int_pat 4 seed (int_table (seed % 8) (ground (arith, a)))
        (picked_length int_pat 4 seed (omega arith) refl))
  | inr a ↦ elim (Bool-cases (ltb (seed % 8) 5)) [
    | inl b ↦
        rw (a, b)
          (chosen_of float_pat 8 seed
            (float_table (seed % 8) (ground (arith, a)) (ground (arith, b)))
            (picked_length float_pat 8 seed (omega arith) refl))
    | inr b ↦ elim (Bool-cases (ltb (seed % 8) 7)) [
      | inl c ↦
          rw (a, b, c)
            (chosen_of sci_pat 8 seed (sci_table (seed % 8) (ground (arith, b)) (ground (arith, c)))
              (picked_length sci_pat 8 seed (omega arith) refl))
      | inr c ↦
          rw (a, b, c)
            (chosen_of err_pat 8 seed (err_table (seed % 8) (ground (arith, c)) (omega arith))
              (picked_length err_pat 8 seed (omega arith) refl))
    ]
  ]
]

abbrev Short : List ℕ → Type 0
Short buf = (0 < length buf) × (length buf ≤ 8)

pub text_of-Short : (seed : ℕ) → (0 < length (text_of seed)) × (length (text_of seed) ≤ 8)
text_of-Short seed =
    let (shorts, four) =
      All-get_or (λ (t : List (List ℕ)). All Short t × (length t ≡ 4)) tables (seed % 8) []
        (omega arith) (omega arith) in
    All-get_or Short (get_or tables (seed % 8) []) (seed / 8 % 4) [] shorts (omega (arith, four))

-- The length with one text more.
pub length-texts :
    (seed n : ℕ)
    → length (texts seed (suc n))
      ≡ length (texts seed n) + length (text_of ((seed + suc n) % 2 ^ 16)) + 1
length-texts seed n =
    let t = text_of ((seed + suc n) % 2 ^ 16) in
    omega (arith, length-append (texts seed n) (t ++ b',' ∷ []), length-append t (b',' ∷ []))
