-- ===== src/Coremark/State/Bench/Corrupt.antt =====
-- Which bytes the corruption changes, and how.
use native.Mathlib.Decide.{ℕ_discrete, dec_le}
use native.Mathlib.Nat.{mod-eq-sub-mod, mod-eq_of_lt}
use mlonmcu_sw.Base.{
  get_elem?-get_or, ℕ, zero, suc, ◌+◌, ◌-◌, ◌%◌, ◌≤◌, ◌<◌, ◌≡◌, ◌≢◌, refl, arith, ◌∙◌, ◌&&◌,
}
use mlonmcu_sw.Base.{Bool, true, inl, inr, List, ltb, leb, ◌==◌, bit_xor, Bool-cases, ltb→lt}
use mlonmcu_sw.Base.{
  if◌then◌else◌, u8, get_or, set, length, length-set, get_or-set_self, get_or-set_ne,
}
use mlonmcu_sw.Base.Partial.{Returns, returns, mono}
use mlonmcu_sw.Coremark.State.Bench.{corrupt_loop}

-- A byte other than a comma is masked.
abbrev pub mask : ℕ → ℕ → ℕ
mask seed b = if b == b',' then b else bit_xor b (u8 seed)

-- The walk from `i` meets the position `j`.
abbrev pub meets : (blksize step i j : ℕ) → Bool
meets blksize step i j = ltb j blksize && (leb i j && ((j - i) % step == 0))

pub record Corrupted (blksize seed step i : ℕ) (p q : List ℕ) : Type 0 where
  pub same_length : length q ≡ length p
  pub bytes :
      (j : ℕ)
      → get_or q j 0 ≡ (if meets blksize step i j then mask seed (get_or p j 0) else get_or p j 0)

-- The conditional write of the loop.
written :
    (seed i : ℕ) (p : List ℕ)
    → i < length p
    → (q : List ℕ) × (q
        ≡ (if get_or p i 0 == b',' then p else set p i (bit_xor (get_or p i 0) (u8 seed))))
      × (length q ≡ length p)
      × (get_or q i 0 ≡ mask seed (get_or p i 0))
      × ((j : ℕ) → i ≢ j → get_or q j 0 ≡ get_or p j 0)
written seed i p h = elim (Bool-cases (get_or p i 0 == b',')) [
  | inl comma ↦ (p, rw comma, refl, rw comma, λ j ne. refl)
  | inr other ↦
      let v = bit_xor (get_or p i 0) (u8 seed) in
      (
        set p i v,
        rw other,
        length-set p i v,
        get_or-set_self p i v 0 h ∙ rw other,
        λ j ne. get_or-set_ne p i j v 0 ne,
      )
]

-- The positions met from `i` on are `i` and those met from `i + step` on.
meets_next :
    (blksize step i j : ℕ)
    → 0 < step
    → i ≢ j
    → meets blksize step i j ≡ meets blksize step (i + step) j
meets_next blksize step i j pos ne = elim (dec_le (i + step) j) [
  | yes far ↦
      let e : (j - i) % step ≡ (j - i - step) % step = mod-eq-sub-mod (omega arith) in
      let shift : j - i - step ≡ j - (i + step) = omega arith in rw (e, shift) (ground arith)
  | no near ↦ elim (dec_le i j) [
    | yes le ↦ let e : (j - i) % step ≡ j - i = mod-eq_of_lt (omega arith) in rw e (ground arith)
    | no gt ↦ ground arith
  ]
]

meets_self : (blksize step i : ℕ) → i < blksize → meets blksize step i i ≡ true
meets_self blksize step i h =
    let e : i - i ≡ 0 = omega arith in
    let z : 0 % step ≡ 0 = omega arith in rw (e, z) (ground arith)

module _ (blksize seed step : ℕ) (pos : 0 < step) where
  pub corrupt_loop-Corrupted :
      (fuel i : ℕ) (p : List ℕ)
      → blksize ≤ length p
      → 0 < fuel
      → blksize < i + fuel
      → Returns (Corrupted blksize seed step i p) (corrupt_loop fuel blksize seed step i p)
  unfolding corrupt_loop
  corrupt_loop-Corrupted zero i p room live f = absurd (omega arith)
  corrupt_loop-Corrupted (suc fuel) i p room live f = elim (Bool-cases (ltb i blksize)) [
    | inl more ↦
        let lt : i < blksize = ltb→lt i blksize more in
        let (q, e, len, here, there) = written seed i p (omega arith) in
        rw (more, get_elem?-get_or p i 0 (omega arith), ← e)
          (mono (corrupt_loop-Corrupted fuel (i + step) q (omega arith) (omega arith) (omega arith))
            λ r c. record {
              same_length = c.same_length ∙ len;
              bytes = λ j. elim (ℕ_discrete i j) [
                | yes same ↦ rw (← same, meets_self blksize step i lt) (ground (arith, c.bytes i))
                | no ne ↦ rw (meets_next blksize step i j pos ne, ← there j ne) (c.bytes j)
              ];
            })
    | inr done ↦ rw done (returns (record { same_length = refl; bytes = λ j. ground arith }))
  ]
