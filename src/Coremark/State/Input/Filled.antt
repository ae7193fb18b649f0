-- ===== src/Coremark/State/Input/Filled.antt =====
-- What `core_init_state` leaves in the memory.
use Prim.Native.Nat.{min}
use mlonmcu_sw.Base.{ℕ, zero, suc, ◌+◌, ◌-◌, ◌/◌, ◌%◌, ◌^◌, ◌≤◌, ◌<◌, ◌≡◌, refl, arith}
use mlonmcu_sw.Base.{some, List, [], All, length, get_or, u16, u32, sub32, ltb, Bool, true, false}
use mlonmcu_sw.Base.{Bool-cases, inl, inr, ◌⊎◌, ltb→lt, if◌then◌else◌}
use mlonmcu_sw.Base.Partial.{Returns, returns, bind, mono, result}
use mlonmcu_sw.Coremark.State.Input.{
  Chosen, nothing, choose, pick, int_pat, float_pat, sci_pat, err_pat, emit, fill_loop, zero_loop,
  core_init_state,
}
use mlonmcu_sw.Coremark.State.Input.Copy.{Text, Text-at, All-get_or, store-Text, copy_loop-Text}

-- A property of every byte of every pattern.
abbrev pub EveryPattern : (ℕ → Type 0) → Type 0
EveryPattern P =
    All (All P) int_pat × All (All P) float_pat × All (All P) sci_pat × All (All P) err_pat

-- What the loop knows of the pattern that it is about to write.
record Usable (P : ℕ → Type 0) (c : Chosen) : Type 0 where
  bytes : All P c.buf
  enough : c.next ≤ length c.buf
  short : c.next ≤ 8

-- Some pattern of a table of four, all of the length that goes with the table.
picked :
    (P : ℕ → Type 0) (pats : List (List ℕ)) (n seed : ℕ)
    → All (All P) pats
    → All (λ buf. length buf ≡ n) pats
    → length pats ≡ 4
    → n ≤ 8
    → Usable P (record { buf = pick pats seed; next = n })
picked P pats n seed all lengths four h = record {
  bytes = All-get_or (All P) pats (seed / 8 % 4) [] all (omega arith);
  enough =
      let e =
        All-get_or (λ (b : List ℕ). length b ≡ n) pats (seed / 8 % 4) [] lengths (omega arith) in
      omega arith;
  short = h;
}

abbrev Chooses : (ℕ → Type 0) → Chosen → Type 0
Chooses P c = Usable P c × (0 < c.next)

choose-Usable : (P : ℕ → Type 0) → EveryPattern P → (seed : ℕ) → Chooses P (choose seed)
unfolding choose
choose-Usable P all seed =
    branch (ltb (seed % 8) 3)
      (picked P int_pat 4 seed all.0 (omega arith) refl (omega arith), omega arith)
      (branch (ltb (seed % 8) 5)
        (picked P float_pat 8 seed all.1 (omega arith) refl (omega arith), omega arith)
        (branch (ltb (seed % 8) 7)
          (picked P sci_pat 8 seed all.2 (omega arith) refl (omega arith), omega arith)
          (picked P err_pat 8 seed all.3 (omega arith) refl (omega arith), omega arith)))
  where
    branch : (b : Bool) {c d : Chosen} → Chooses P c → Chooses P d → Chooses P (if b then c else d)
    branch true h k = h
    branch false h k = k

nothing-Usable : (P : ℕ → Type 0) → Usable P nothing
nothing-Usable P = record { bytes = tt; enough = omega arith; short = omega arith }

module _ (P : ℕ → ℕ → Type 0) (size : ℕ) (p : List ℕ) (room : size ≤ length p)
    (small : size < 2 ^ 31) where
  pub zero_loop-Text :
      (fuel total : ℕ) {q : List ℕ}
      → Text P size total p q
      → ((j : ℕ) → total ≤ j → P j 0)
      → total ≤ size
      → size < total + fuel
      → Returns (Text P size size p) (zero_loop fuel size total q)
  unfolding zero_loop
  zero_loop-Text zero total t zeros le f = absurd (omega arith)
  zero_loop-Text (suc fuel) total t zeros le f = elim (Bool-cases (ltb total size)) [
    | inl more ↦
        let lt : total < size = ltb→lt total size more in
        let e : u32 (total + 1) ≡ total + 1 = omega arith in
        rw (more, e)
          (bind (store-Text P size p room total 0 t (zeros total (omega arith)) lt) λ q1 t1.
            zero_loop-Text fuel (total + 1) t1 (λ j h. zeros j (omega arith)) (omega arith)
              (omega arith))
    | inr done ↦ rw done (returns (Text-at P size p room total size (ground arith) t))
  ]

-- The frontier after a round, and the bytes up to it.
abbrev Emitted : (ℕ → Type 0) → ℕ → List ℕ → ℕ → Chosen → ℕ × List ℕ → Type 0
Emitted P size p total c r =
    (r.0 ≤ total + c.next + 1)
    × ((c.next ≡ 0) ⊎ (total + 2 ≤ r.0))
    × (total ≤ r.0)
    × Text (λ _. P) size r.0 p r.1

module _ (P : ℕ → Type 0) (comma : P b',') (size : ℕ) (p : List ℕ) (room : size ≤ length p)
    (small : size < 2 ^ 31) where
  emit-Text :
      (c : Chosen) (total : ℕ) {q : List ℕ}
      → Usable P c
      → Text (λ _. P) size total p q
      → total + c.next + 1 ≤ size
      → Returns (Emitted P size p total c) (emit c total q)
  unfolding emit
  emit-Text c total {q} u t fits = elim (Bool-cases (ltb 0 c.next)) [
    | inl more ↦
        let e : u32 (total + (c.next + 1)) ≡ total + c.next + 1 = omega (arith, u.short) in
        rw (more, e)
          (bind
            (copy_loop-Text (λ _. P) size p room c.buf total
              (λ i h. All-get_or P c.buf i 0 u.bytes h) c.next 0
              (Text-at (λ _. P) size p room total (total + 0) (omega arith) t)
              (omega (arith, u.enough)) (omega arith))
            λ q1 t1.
              let t1' =
                Text-at (λ _. P) size p room (total + 0 + c.next) (total + c.next) (omega arith)
                  t1 in
              bind (store-Text (λ _. P) size p room (total + c.next) b',' t1' comma (omega arith))
                λ q2 t2.
                  returns (omega arith, inr (omega (arith, ltb→lt 0 c.next more)), omega arith, t2))
    | inr none_yet ↦ rw none_yet (returns (omega arith, inl (ground arith), omega arith, t))
  ]

  -- The loop stops with room for the last byte, and a byte to spare.
  abbrev Stopped : ℕ → ℕ × List ℕ → Type 0
  Stopped last r = (r.0 ≤ last) × (1 ≤ last → r.0 < last) × Text (λ _. P) size r.0 p r.1

  fill_loop-Text :
      EveryPattern P
      → (last : ℕ) → last < size
      → (fuel : ℕ) (c : Chosen) (total seed : ℕ) {q : List ℕ} → Usable P c
      → Text (λ _. P) size total p q
      → total ≤ last
      → (1 ≤ last → total < last)
      → last + 2 ≤ fuel + total + min 1 c.next
      → Returns (Stopped last) (fill_loop fuel last c total seed q)
  unfolding fill_loop
  fill_loop-Text all last inside zero c total seed u t le lt f = absurd (omega arith)
  fill_loop-Text all last inside (suc fuel) c total seed u t le lt f =
      let e : u32 (total + c.next + 1) ≡ total + c.next + 1 = omega (arith, u.short) in
      elim (Bool-cases (ltb (total + c.next + 1) last)) [
        | inl more ↦
            let below : total + c.next + 1 < last = ltb→lt (total + c.next + 1) last more in
            let (u', pos) = choose-Usable P all (u16 (seed + 1)) in
            rw (e, more)
              (bind (emit-Text c total u t (omega arith)) λ r (hi, lo, up, t').
                fill_loop-Text all last inside fuel (choose (u16 (seed + 1))) r.0 (u16 (seed + 1))
                  u' t' (omega arith) (λ h. omega arith) (omega arith))
        | inr done ↦ rw (e, done) (returns (le, lt, t))
      ]

-- What `core_init_state` promises of the memory `q`, where `p` was before and `P` holds of every
-- byte that it may write.
pub record Filled (P : ℕ → Type 0) (size : ℕ) (p q : List ℕ) : Type 0 where
  pub same_length : length q ≡ length p
  pub bytes : (j : ℕ) → j < size → P (get_or q j 0)
  pub ended : get_or q (size - 1) 0 ≡ 0
  pub ended_twice : 2 ≤ size → get_or q (size - 2) 0 ≡ 0
  pub beyond : (j : ℕ) → size ≤ j → get_or q j 0 ≡ get_or p j 0

-- Behind the texts there are only zeros.
abbrev ThenZeros : (ℕ → Type 0) → ℕ → ℕ → ℕ → Type 0
ThenZeros P total j b = P b × (total ≤ j → b ≡ 0)

-- For a block of 1 to 2 ^ 31 - 1 bytes in the memory, `core_init_state` ends, and what holds of the pattern
-- bytes, of commas and of zero holds of every byte of the block.
pub core_init_state-Filled :
    (P : ℕ → Type 0) (size seed : ℕ) (p : List ℕ)
    → EveryPattern P
    → P b','
    → P 0
    → 0 < size
    → size < 2 ^ 31
    → size ≤ length p
    → (q : List ℕ) × (core_init_state size seed p ≡ some q) × Filled P size p q
unfolding core_init_state
core_init_state-Filled P size seed p all comma null pos small room =
    let e : sub32 size 1 ≡ size - 1 = omega arith in
    let begun : Text (λ _. P) size 0 p p = record {
      same_length = refl;
      before = λ j h. absurd (omega arith);
      beyond = λ j h. refl;
    } in
    rw e (
      result (
        bind
          (fill_loop-Text P comma size p room small all (size - 1) (omega arith) (size + 1) nothing
            0 seed (nothing-Usable P) begun (omega arith) (λ h. omega arith) (omega arith))
          λ r (le, lt, t).
            let t' : Text (ThenZeros P r.0) size r.0 p r.1 = record {
              same_length = t.same_length;
              before = λ j h. (t.before j h, λ k. absurd (omega arith));
              beyond = t.beyond;
            } in
            mono
              (zero_loop-Text (ThenZeros P r.0) size p room small (size + 1) r.0 t'
                (λ j h. (null, λ k. refl)) (omega arith) (omega arith))
              λ q f. record {
                same_length = f.same_length;
                bytes = λ j h. (f.before j h).0;
                ended = (f.before (size - 1) (omega arith)).1 (omega arith);
                ended_twice = λ h. (f.before (size - 2) (omega arith)).1 (omega arith);
                beyond = f.beyond;
              }))
