-- ===== src/Coremark/State/Input.antt =====
-- `core_init_state`: the text for the state machine. The memory is the list of the bytes from `p`
-- on; `none` is an access past its end, or a loop that does not end within the fuel. The seed, an
-- `ee_s16`, is given by its pattern.
pub mod Copy
pub mod Filled
pub mod Texts
pub mod Written
use mlonmcu_sw.Base.{
  ℕ, zero, suc, ◌+◌, ◌/◌, ◌%◌, ◌<◌, ◌≡◌, Option, none, some, List, [], ◌∷◌, ltb, ◌==◌,
}
use mlonmcu_sw.Base.{if◌then◌else◌, u16, u32, sub32, get_elem?, get_or, set, length}
use mlonmcu_sw.Base.Partial.{◌>>=◌}

abbrev pub int_pat : List (List ℕ)
int_pat =
    (b'5' ∷ b'0' ∷ b'1' ∷ b'2' ∷ [])
    ∷ (b'1' ∷ b'2' ∷ b'3' ∷ b'4' ∷ [])
    ∷ (b'-' ∷ b'8' ∷ b'7' ∷ b'4' ∷ [])
    ∷ (b'+' ∷ b'1' ∷ b'2' ∷ b'2' ∷ [])
    ∷ []

abbrev pub float_pat : List (List ℕ)
float_pat =
    (b'3' ∷ b'5' ∷ b'.' ∷ b'5' ∷ b'4' ∷ b'4' ∷ b'0' ∷ b'0' ∷ [])
    ∷ (b'.' ∷ b'1' ∷ b'2' ∷ b'3' ∷ b'4' ∷ b'5' ∷ b'0' ∷ b'0' ∷ [])
    ∷ (b'-' ∷ b'1' ∷ b'1' ∷ b'0' ∷ b'.' ∷ b'7' ∷ b'0' ∷ b'0' ∷ [])
    ∷ (b'+' ∷ b'0' ∷ b'.' ∷ b'6' ∷ b'4' ∷ b'4' ∷ b'0' ∷ b'0' ∷ [])
    ∷ []

abbrev pub sci_pat : List (List ℕ)
sci_pat =
    (b'5' ∷ b'.' ∷ b'5' ∷ b'0' ∷ b'0' ∷ b'e' ∷ b'+' ∷ b'3' ∷ [])
    ∷ (b'-' ∷ b'.' ∷ b'1' ∷ b'2' ∷ b'3' ∷ b'e' ∷ b'-' ∷ b'2' ∷ [])
    ∷ (b'-' ∷ b'8' ∷ b'7' ∷ b'e' ∷ b'+' ∷ b'8' ∷ b'3' ∷ b'2' ∷ [])
    ∷ (b'+' ∷ b'0' ∷ b'.' ∷ b'6' ∷ b'e' ∷ b'-' ∷ b'1' ∷ b'2' ∷ [])
    ∷ []

abbrev pub err_pat : List (List ℕ)
err_pat =
    (b'T' ∷ b'0' ∷ b'.' ∷ b'3' ∷ b'e' ∷ b'-' ∷ b'1' ∷ b'F' ∷ [])
    ∷ (b'-' ∷ b'T' ∷ b'.' ∷ b'T' ∷ b'+' ∷ b'+' ∷ b'T' ∷ b'q' ∷ [])
    ∷ (b'1' ∷ b'T' ∷ b'3' ∷ b'.' ∷ b'4' ∷ b'e' ∷ b'4' ∷ b'z' ∷ [])
    ∷ (b'3' ∷ b'4' ∷ b'.' ∷ b'0' ∷ b'e' ∷ b'-' ∷ b'T' ∷ b'^' ∷ [])
    ∷ []

-- `buf` and `next`, as the `switch` on the seed sets them.
pub record Chosen : Type 0 where
  pub buf : List ℕ
  pub next : ℕ

-- The values at the declarations.
abbrev pub nothing : Chosen
nothing = record { buf = []; next = 0 }

abbrev pub pick : List (List ℕ) → ℕ → List ℕ
pick pats seed = get_or pats (seed / 8 % 4) []

unfoldable pub choose : ℕ → Chosen
choose seed =
    if ltb (seed % 8) 3
    then record { buf = pick int_pat seed; next = 4 }
    else if ltb (seed % 8) 5
    then record { buf = pick float_pat seed; next = 8 }
    else if ltb (seed % 8) 7
    then record { buf = pick sci_pat seed; next = 8 }
    else record { buf = pick err_pat seed; next = 8 }

abbrev pub store : List ℕ → ℕ → ℕ → Option (List ℕ)
store memory at value = if ltb at (length memory) then some (set memory at value) else none

-- The loop over `i` that copies `buf`, with `left` bytes to go.
unfoldable pub copy_loop : ℕ → (buf : List ℕ) (total i : ℕ) → List ℕ → Option (List ℕ)
copy_loop zero buf total i p = some p
copy_loop (suc left) buf total i p = do
  b ← get_elem? buf i
  p ← store p (total + i) b
  copy_loop left buf total (i + 1) p

-- The pattern chosen last and its comma; nothing in the first round.
unfoldable pub emit : Chosen → ℕ → List ℕ → Option (ℕ × List ℕ)
unfolding copy_loop
emit chosen total p =
    if ltb 0 chosen.next
    then (do
      p ← copy_loop chosen.next chosen.buf total 0 p
      p ← store p (total + chosen.next) b','
      some (u32 (total + (chosen.next + 1)), p))
    else some (total, p)

-- The loop that writes patterns. `size` is one less than the argument.
unfoldable pub fill_loop : ℕ → (size : ℕ) → Chosen → (total seed : ℕ) → List ℕ → Option (ℕ × List ℕ)
unfolding emit
fill_loop zero size chosen total seed p = none
fill_loop (suc fuel) size chosen total seed p =
    let round = (do
      (total, p) ← emit chosen total p
      let seed = u16 (seed + 1)
      fill_loop fuel size (choose seed) total seed p) in
    if ltb (u32 (total + chosen.next + 1)) size then round else some (total, p)

-- The loop that fills the rest with 0.
unfoldable pub zero_loop : ℕ → (size total : ℕ) → List ℕ → Option (List ℕ)
zero_loop zero size total p = none
zero_loop (suc fuel) size total p =
    let round = (do p ← store p total 0; zero_loop fuel size (u32 (total + 1)) p) in
    if ltb total size then round else some p

-- `size + 1` rounds are enough for either loop.
unfoldable pub core_init_state : (size seed : ℕ) → List ℕ → Option (List ℕ)
unfolding fill_loop zero_loop
core_init_state size seed p = do
  (total, p) ← fill_loop (size + 1) (sub32 size 1) nothing 0 seed p
  zero_loop (size + 1) size total p
