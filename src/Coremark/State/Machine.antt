-- ===== src/Coremark/State/Machine.antt =====
-- `core_state_transition`: one symbol at a time, and the scan of one token. The text that `instr`
-- points at is the list of the bytes from there to the end of the memory.
pub mod Scan
use mlonmcu_sw.Base.{ℕ, zero, suc, ◌+◌, ◌≡◌, Bool, true, false, ◌&&◌, ◌||◌, not, Option, none, some}
use mlonmcu_sw.Base.{List, [], ◌∷◌, ◌==◌, leb, if◌then◌else◌, u32, get_or, set}

-- `enum CORE_STATE`.
pub data CoreState : Type 0 where
  start invalid s1 s2 int float exponent scientific : CoreState

-- The constants of the enumeration.
abbrev pub index : CoreState → ℕ
index start = 0
index invalid = 1
index s1 = 2
index s2 = 3
index int = 4
index float = 5
index exponent = 6
index scientific = 7

abbrev pub is_invalid : CoreState → Bool
is_invalid invalid = true
is_invalid _ = false

unfoldable pub ee_isdigit : ℕ → Bool
ee_isdigit c = leb b'0' c && leb c b'9'

-- `transition_count[state]++` on an array of `ee_u32`.
abbrev pub count : CoreState → List ℕ → List ℕ
count s counts = set counts (index s) (u32 (get_or counts (index s) 0 + 1))

-- The `switch` on the state: the next state and the counts.
unfoldable pub transition : CoreState → ℕ → List ℕ → CoreState × List ℕ
unfolding ee_isdigit
transition start c counts =
    if ee_isdigit c
    then (int, count start counts)
    else if c == b'+' || c == b'-'
    then (s1, count start counts)
    else if c == b'.'
    then (float, count start counts)
    else (invalid, count start (count invalid counts))
transition s1 c counts =
    if ee_isdigit c
    then (int, count s1 counts)
    else if c == b'.'
    then (float, count s1 counts)
    else (invalid, count s1 counts)
transition int c counts =
    if c == b'.'
    then (float, count int counts)
    else if not (ee_isdigit c)
    then (invalid, count int counts)
    else (int, counts)
transition float c counts =
    if c == b'E' || c == b'e'
    then (s2, count float counts)
    else if not (ee_isdigit c)
    then (invalid, count float counts)
    else (float, counts)
transition s2 c counts =
    if c == b'+' || c == b'-' then (exponent, count s2 counts) else (invalid, count s2 counts)
transition exponent c counts =
    if ee_isdigit c then (scientific, count exponent counts) else (invalid, count exponent counts)
transition scientific c counts =
    if not (ee_isdigit c) then (invalid, count invalid counts) else (scientific, counts)
transition invalid c counts = (invalid, counts)

-- The state of the loop after it stopped: the state, the counts and what `instr` points at then.
pub record Scanned : Type 0 where
  pub state : CoreState
  pub counts : List ℕ
  pub rest : List ℕ

-- The loop of `core_state_transition`. `none` is a read past the end of the memory.
unfoldable pub scan : CoreState → List ℕ → List ℕ → Option Scanned
unfolding transition
scan state counts [] = none
scan state counts (c ∷ text) =
    let stopped : Scanned = record { state = state; counts = counts; rest = c ∷ text } in
    let passed : Scanned = record { state = state; counts = counts; rest = text } in
    let next = transition state c counts in
    let further = scan next.0 next.1 text in
    if c == 0 || is_invalid state then some stopped else if c == b',' then some passed else further

unfoldable pub core_state_transition : List ℕ → List ℕ → Option Scanned
unfolding scan
core_state_transition text counts = scan start counts text
