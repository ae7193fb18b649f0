-- ===== src/Coremark/State/Input/Written.antt =====
-- `core_init_state` writes the texts of the seeds behind the given one, as many as fit, and zeros.
use mlonmcu_sw.Base.{
  ℕ, zero, suc, ◌+◌, ◌-◌, ◌%◌, ◌^◌, ◌≤◌, ◌<◌, ◌≡◌, refl, arith, ap, sym, ◌∙◌, some, List, [], ◌∷◌,
  ◌++◌, length, get_or, u16, u32, sub32, ltb, ltb→lt, true, false, Bool-cases, inl, inr,
}
use mlonmcu_sw.Base.Partial.{Returns, returns, bind, mono, result}
use mlonmcu_sw.Coremark.State.Input.{nothing, emit, fill_loop, core_init_state}
use mlonmcu_sw.Coremark.State.Input.Copy.{Text, Text-at, store-Text, copy_loop-Text}
use mlonmcu_sw.Coremark.State.Input.Filled.{zero_loop-Text}
use mlonmcu_sw.Coremark.State.Input.Texts.{
  texts, text_of, whole, choose_whole, text_of-Short, length-texts,
}

get_or-append_left :
    (xs ys : List ℕ) (j : ℕ) → j < length xs → get_or (xs ++ ys) j 0 ≡ get_or xs j 0
get_or-append_left [] ys j h = absurd (omega (arith, h))
get_or-append_left (x ∷ xs) ys zero h = refl
get_or-append_left (x ∷ xs) ys (suc j) h = get_or-append_left xs ys j (omega (arith, h))

get_or-append_right : (xs ys : List ℕ) (i : ℕ) → get_or (xs ++ ys) (length xs + i) 0 ≡ get_or ys i 0
get_or-append_right [] ys i = ap (λ (k : ℕ). get_or ys k 0) (omega arith)
get_or-append_right (x ∷ xs) ys i =
    let e : suc (length xs) + i ≡ suc (length xs + i) = omega arith in
    rw e (get_or-append_right xs ys i)

-- The bytes of a list.
abbrev ByteOf : List ℕ → ℕ → ℕ → Type 0
ByteOf t j b = b ≡ get_or t j 0

module _ (size : ℕ) (p : List ℕ) (room : size ≤ length p) (small : size < 2 ^ 31) where
  ByteOf-append :
      (t u q : List ℕ)
      → Text (ByteOf t) size (length t) p q
      → Text (ByteOf (t ++ u)) size (length t) p q
  ByteOf-append t u q h = record {
    same_length = h.same_length;
    before = λ j below. h.before j below ∙ sym (get_or-append_left t u j below);
    beyond = h.beyond;
  }

  emit_text :
      (seed : ℕ) (t q : List ℕ)
      → Text (ByteOf t) size (length t) p q
      → length t + length (text_of seed) + 1 ≤ size
      → Returns
          (λ r.
            (r.0 ≡ length t + length (text_of seed) + 1)
            × Text
                (ByteOf (t ++ (text_of seed ++ b',' ∷ [])))
                size
                (length t + length (text_of seed) + 1)
                p
                r.1)
          (emit (whole seed) (length t) q)
  unfolding emit
  emit_text seed t q h fits =
      let u = text_of seed in
      let all = t ++ (u ++ b',' ∷ []) in
      let (pos, short) = text_of-Short seed in
      let more : ltb 0 (length u) ≡ true = ground (arith, pos) in
      let e : u32 (length t + (length u + 1)) ≡ length t + length u + 1 =
        omega (arith, short, fits, small) in
      let inner : (i : ℕ) → i < length u → get_or u i 0 ≡ get_or all (length t + i) 0 = λ i below.
        sym (get_or-append_right t (u ++ b',' ∷ []) i ∙ get_or-append_left u (b',' ∷ []) i below) in
      let comma : b',' ≡ get_or all (length t + length u) 0 = sym (
        get_or-append_right t (u ++ b',' ∷ []) (length u)
        ∙ ap (λ (k : ℕ). get_or (u ++ b',' ∷ []) k 0) (omega arith)
        ∙ get_or-append_right u (b',' ∷ []) 0) in
      let start =
        Text-at (ByteOf all) size p room (length t) (length t + 0) (omega arith)
          (ByteOf-append t (u ++ b',' ∷ []) q h) in
      rw (more, e)
        (bind
          (copy_loop-Text (ByteOf all) size p room u (length t) inner (length u) 0 start
            (omega arith) (omega (arith, fits)))
          λ q1 t1.
            let t1' =
              Text-at (ByteOf all) size p room (length t + 0 + length u) (length t + length u)
                (omega arith) t1 in
            bind
              (store-Text (ByteOf all) size p room (length t + length u) b',' t1' comma
                (omega (arith, fits)))
              λ q2 t2. returns (refl, t2))

  -- The loop has written `n` texts, and the next one does not fit before `last`.
  record Stops (seed last : ℕ) (r : ℕ × List ℕ) : Type 0 where
    n : ℕ
    total : r.0 ≡ length (texts seed n)
    within : r.0 ≤ last
    spare : 1 ≤ last → r.0 < last
    no_more : last ≤ length (texts seed (suc n))
    text : Text (ByteOf (texts seed n)) size (length (texts seed n)) p r.1

  fill_loop-Stops :
      (seed last fuel k : ℕ) (q : List ℕ)
      → last < size
      → Text (ByteOf (texts seed k)) size (length (texts seed k)) p q
      → length (texts seed k) ≤ last
      → (1 ≤ last → length (texts seed k) < last)
      → last < fuel + length (texts seed k)
      → Returns (Stops seed last) (
          fill_loop fuel last
            (whole ((seed + suc k) % 2 ^ 16))
            (length (texts seed k))
            ((seed + suc k) % 2 ^ 16)
            q)
  unfolding fill_loop
  fill_loop-Stops seed last zero k q inside t le lt f = absurd (omega (arith, f, le))
  fill_loop-Stops seed last (suc fuel) k q inside t le lt f =
      let s = (seed + suc k) % 2 ^ 16 in
      let u = text_of s in
      let total = length (texts seed k) in
      let (pos, short) = text_of-Short s in
      let e : u32 (total + length u + 1) ≡ total + length u + 1 =
        omega (arith, short, le, inside, small) in
      let next : u16 (s + 1) ≡ (seed + suc (suc k)) % 2 ^ 16 = omega arith in
      let longer = length-texts seed k in
      elim (Bool-cases (ltb (total + length u + 1) last)) [
        | inl more ↦
            let below : total + length u + 1 < last = ltb→lt (total + length u + 1) last more in
            rw (e, more)
              (bind (emit_text s (texts seed k) q t (omega (arith, below, inside))) λ r (at, t').
                rw (next, choose_whole ((seed + suc (suc k)) % 2 ^ 16), at ∙ sym longer)
                  (fill_loop-Stops seed last fuel (suc k) r.1 inside
                    (Text-at (ByteOf (texts seed (suc k))) size p room (total + length u + 1)
                      (length (texts seed (suc k))) (sym longer) t')
                    (omega (arith, longer, below)) (λ h. omega (arith, longer, below))
                    (omega (arith, longer, f))))
        | inr done ↦
            rw (e, done)
              (returns (record {
                n = k;
                total = refl;
                within = le;
                spare = lt;
                no_more = omega (arith, longer, ltb-le (total + length u + 1) last done);
                text = t;
              }))
      ]
    where
      ltb-le : (a b : ℕ) → ltb a b ≡ false → b ≤ a
      ltb-le a b h = ground (arith, h)

  -- The first round writes nothing.
  fill_loop_begun :
      (seed last : ℕ)
      → last < size
      → Text (ByteOf []) size 0 p p
      → Returns (Stops seed last) (fill_loop (size + 1) last nothing 0 seed p)
  unfolding fill_loop emit
  fill_loop_begun seed last inside t =
      let plus : size + 1 ≡ suc size = omega arith in
      let longer = length-texts seed 0 in
      elim (Bool-cases (ltb 1 last)) [
        | inl more ↦
            let below : 1 < last = ltb→lt 1 last more in
            rw (plus, more, choose_whole ((seed + 1) % 2 ^ 16))
              (fill_loop-Stops seed last size 0 p inside t (omega arith) (λ h. omega (arith, below))
                (omega (arith, inside)))
        | inr done ↦
            rw (plus, done)
              (returns (record {
                n = 0;
                total = refl;
                within = omega arith;
                spare = λ h. h;
                no_more = omega (arith, longer, few last done);
                text = t;
              }))
      ]
    where
      few : (a : ℕ) → ltb 1 a ≡ false → a ≤ 1
      few a h = ground (arith, h)

-- What `core_init_state` promises of the memory `q`, where `p` was before.
pub record Written (size seed : ℕ) (p q : List ℕ) : Type 0 where
  pub n : ℕ
  pub within : length (texts seed n) ≤ size - 1
  pub spare : 2 ≤ size → length (texts seed n) < size - 1
  pub no_more : size - 1 ≤ length (texts seed (suc n))
  pub same_length : length q ≡ length p
  pub text : (j : ℕ) → j < length (texts seed n) → get_or q j 0 ≡ get_or (texts seed n) j 0
  pub zeros : (j : ℕ) → length (texts seed n) ≤ j → j < size → get_or q j 0 ≡ 0
  pub beyond : (j : ℕ) → size ≤ j → get_or q j 0 ≡ get_or p j 0

abbrev ThenZeros : List ℕ → ℕ → ℕ → Type 0
ThenZeros t j b = (j < length t → b ≡ get_or t j 0) × (length t ≤ j → b ≡ 0)

-- For a block of `size` bytes in the memory, from 1 to 2 ^ 31 - 1 of them, `core_init_state` stays
-- within the block and ends, whatever the seed. Behind it the block begins with the texts of the seeds that
-- follow the given one, each with a comma behind it, as many as end before the last byte: one text more with
-- its comma would reach that byte. The bytes behind the texts are zero, one at least and two in a block that
-- has two, and the memory behind the block is as before.
pub core_init_state-Written :
    (size seed : ℕ) (p : List ℕ)
    → 0 < size
    → size < 2 ^ 31
    → size ≤ length p
    → (q : List ℕ) × (core_init_state size seed p ≡ some q) × Written size seed p q
unfolding core_init_state
core_init_state-Written size seed p pos small room =
    let e : sub32 size 1 ≡ size - 1 = omega (arith, pos, small) in
    let begun : Text (ByteOf []) size 0 p p = record {
      same_length = refl;
      before = λ j h. absurd (omega (arith, h));
      beyond = λ j h. refl;
    } in
    rw e (
      result (
        bind (fill_loop_begun size p room small seed (size - 1) (omega (arith, pos)) begun) λ r s.
          let t = texts seed s.n in
          let t' : Text (ThenZeros t) size r.0 p r.1 = record {
            same_length = s.text.same_length;
            before = λ j h. (
              λ _. s.text.before j (omega (arith, h, s.total)),
              λ k. absurd (omega (arith, h, k, s.total)),
            );
            beyond = s.text.beyond;
          } in
          mono
            (zero_loop-Text (ThenZeros t) size p room small (size + 1) r.0 t'
              (λ j h. (λ k. absurd (omega (arith, h, k, s.total)), λ k. refl))
              (omega (arith, s.within)) (omega arith))
            λ q f. record {
              n = s.n;
              within = omega (arith, s.within, s.total);
              spare = λ h. omega (arith, s.spare (omega (arith, h)), s.total);
              no_more = s.no_more;
              same_length = f.same_length;
              text = λ j h. (f.before j (omega (arith, h, s.within, s.total, pos))).0 h;
              zeros = λ j k h. (f.before j h).1 k;
              beyond = f.beyond;
            }))
