-- ===== src/Coremark/State/Bench/Machine.antt =====
-- The scans of a text that holds a zero end, and stay before that zero.
use mlonmcu_sw.Base.{ℕ, zero, suc, ◌≤◌, ◌<◌, ◌≡◌, ◌≢◌, ◌⊎◌, arith, false}
use mlonmcu_sw.Base.{inl, inr, List, [], ◌∷◌, ◌==◌, ◌||◌, Bool-cases, get_or, length}
use mlonmcu_sw.Base.Partial.{Returns, returns, bind, mono}
use mlonmcu_sw.Coremark.State.Machine.{
  CoreState, start, Scanned, transition, scan, core_state_transition, is_invalid, count,
}
use mlonmcu_sw.Coremark.State.Bench.{Counts, machine_loop}

-- The text ends.
abbrev pub HasNul : List ℕ → Type 0
HasNul [] = ⊥
HasNul (c ∷ text) = (c ≡ 0) ⊎ HasNul text

pub HasNul-get_or : (text : List ℕ) (j : ℕ) → j < length text → get_or text j 0 ≡ 0 → HasNul text
HasNul-get_or [] j h e = absurd (omega arith)
HasNul-get_or (c ∷ text) zero h e = inl e
HasNul-get_or (c ∷ text) (suc j) h e = inr (HasNul-get_or text j (omega arith) e)

-- A scan leaves the end in the text, and no more text than it was given.
abbrev Left : List ℕ → Scanned → Type 0
Left text r = HasNul r.rest × (length r.rest ≤ length text)

behind : (c : ℕ) (text : List ℕ) → c ≢ 0 → HasNul (c ∷ text) → HasNul text
behind c text ne (inl e) = absurd (ne e)
behind c text ne (inr h) = h

scan-Left :
    (s : CoreState) (counts text : List ℕ) → HasNul text → Returns (Left text) (scan s counts text)
unfolding scan
scan-Left s counts [] nul = absurd nul
scan-Left s counts (c ∷ text) nul = elim (Bool-cases (c == 0 || is_invalid s)) [
  | inl stop ↦ rw stop (returns (nul, omega arith))
  | inr go ↦
      let later = behind c text (ground arith) nul in
      elim (Bool-cases (c == b',')) [
        | inl comma ↦ rw (go, comma) (returns (later, omega arith))
        | inr other ↦
            let t = transition s c counts in
            rw (go, other) (mono (scan-Left t.0 t.1 text later) λ r (h, le). (h, omega arith))
      ]
]

-- From the start a scan reads at least one byte.
shorter :
    (c : ℕ) (text counts : List ℕ)
    → c ≢ 0
    → HasNul text
    → Returns
        (λ r. HasNul r.rest × (length r.rest ≤ length text))
        (core_state_transition (c ∷ text) counts)
unfolding core_state_transition
shorter c text counts ne nul =
    let live : (c == 0 || false) ≡ false = ground arith in
    elim (Bool-cases (c == b',')) [
      | inl comma ↦ rw (live, comma) (returns (nul, omega arith))
      | inr other ↦
          let t = transition start c counts in rw (live, other) (scan-Left t.0 t.1 text nul)
    ]

pub machine_loop_ends :
    (fuel : ℕ) (text : List ℕ) (counts : Counts)
    → HasNul text
    → length text < fuel
    → Returns (λ _. Unit {0}) (machine_loop fuel text counts)
unfolding machine_loop
machine_loop_ends zero text counts nul f = absurd (omega arith)
machine_loop_ends (suc fuel) [] counts nul f = absurd nul
machine_loop_ends (suc fuel) (c ∷ text) counts nul f = elim (Bool-cases (c == 0)) [
  | inl stop ↦ rw stop (returns tt)
  | inr go ↦
      let ne : c ≢ 0 = ground arith in
      rw go (
        bind (shorter c text counts.track ne (behind c text ne nul)) λ r (h, le).
          machine_loop_ends fuel r.rest
            (record { track = r.counts; final = count r.state counts.final }) h (omega arith))
]
