-- ===== src/Malloc/Blocks.antt =====
-- What first fit takes from the list, and that a block that comes back is as if never taken.
use mlonmcu_sw.Base.{ℕ, ◌+◌, ◌-◌, ◌%◌, ◌≤◌, ◌<◌, ◌≡◌, refl, arith, ◌∙◌, sym, ap, Bool, true, false}
use mlonmcu_sw.Base.{
  List, [], ◌∷◌, ltb, leb, ◌&&◌, ◌||◌, ◌==◌, All, length, Bool-cases, inl, inr, ◌⊎◌,
}
use mlonmcu_sw.Base.{none, some, Option, ltb→lt}
use mlonmcu_sw.Malloc.Chunks.{Chunk, chunk, IsFreeList, keep, alloc, join, release, is_free}
use mlonmcu_sw.Malloc.Chain.{Smaller}

abbrev pub in_block : (r n x : ℕ) → Bool
in_block r n x = leb r x && ltb x (r + n)

-- The block and the chunk do not overlap.
abbrev pub Apart : (addr n : ℕ) → Chunk → Type 0
Apart addr n d = (d.addr + d.size ≤ addr) ⊎ (addr + n ≤ d.addr)

-- The block of `n` bytes at `r` left the list `cs`, and `cs'` remains.
pub record Carved (lo hi n : ℕ) (cs : List Chunk) (r : ℕ) (cs' : List Chunk) : Type 0 where
  pub list : IsFreeList lo hi cs'
  pub low : lo ≤ r
  pub high : r + n ≤ hi
  pub aligned : r % 8 ≡ 0
  pub bytes : (x : ℕ) → is_free x cs ≡ in_block r n x || is_free x cs'
  pub apart : (x : ℕ) → in_block r n x && is_free x cs' ≡ false
  pub gap : All (Apart r n) cs'
  pub restored : release (chunk r n) cs' ≡ cs
  pub shorter : length cs' ≤ length cs

pub data Granted (lo hi n : ℕ) (cs : List Chunk) : Option (ℕ × List Chunk) → Type 0 where
  exhausted : All (Smaller n) cs → Granted lo hi n cs none
  carved : {r : ℕ} {cs' : List Chunk} → Carved lo hi n cs r cs' → Granted lo hi n cs (some (r, cs'))

-- A chunk before a gap is not joined.
pub join-gap :
    (hi : ℕ) (c : Chunk) (cs : List Chunk)
    → IsFreeList (c.addr + c.size + 1) hi cs
    → join c cs ≡ c ∷ cs
unfolding join
join-gap hi c [] ok = refl
join-gap hi c (d ∷ cs) ok = let e : (c.addr + c.size == d.addr) ≡ false = ground arith in rw e

pub release-front :
    (hi : ℕ) (c : Chunk) (cs : List Chunk)
    → IsFreeList (c.addr + c.size + 1) hi cs
    → release c cs ≡ c ∷ cs
unfolding release
release-front hi c [] ok = refl
release-front hi c (d ∷ cs) ok =
    let e : ltb d.addr c.addr ≡ false = ground arith in rw e (join-gap hi c (d ∷ cs) ok)

-- Nothing below a list is free.
pub is_free-below :
    (hi lo x : ℕ) (cs : List Chunk) → x < lo → IsFreeList lo hi cs → is_free x cs ≡ false
unfolding is_free
is_free-below hi lo x [] h ok = refl
is_free-below hi lo x (c ∷ cs) h ok =
    let e : leb c.addr x ≡ false = ground arith in
    rw e (is_free-below hi (c.addr + c.size + 1) x cs (omega arith) ok.5)

or-swap : (a b c : Bool) → a || (b || c) ≡ b || (a || c)
or-swap true true c = refl
or-swap true false c = refl
or-swap false b c = refl

and-or_false : (a b c : Bool) → a && b ≡ false → a && c ≡ false → a && (b || c) ≡ false
and-or_false false b c h h' = refl
and-or_false true b c h h' = rw h h'

-- Blocks that do not overlap have no byte in common.
in_block-apart : (r n r' n' x : ℕ) → r' + n' ≤ r → in_block r n x && in_block r' n' x ≡ false
in_block-apart r n r' n' x h = ground arith

or_assoc : (a b c : Bool) → (a || b) || c ≡ a || (b || c)
or_assoc true b c = refl
or_assoc false b c = refl

-- The end of a block, and what is before it.
in_block-split :
    (r m n x : ℕ) → n < m → in_block r m x ≡ in_block (r + m - n) n x || in_block r (m - n) x
in_block-split r m n x h = ground arith

-- A block below a list has no byte in common with it.
in_block-is_free :
    (hi lo r n x : ℕ) (cs : List Chunk)
    → r + n < lo
    → IsFreeList lo hi cs
    → in_block r n x && is_free x cs ≡ false
in_block-is_free hi lo r n x cs h ok = elim (Bool-cases (ltb x (r + n))) [
  | inl lt ↦
      let none_free : is_free x cs ≡ false =
        is_free-below hi lo x cs (omega (arith, ltb→lt x (r + n) lt)) ok in
      rw none_free (and-false (in_block r n x))
  | inr out ↦ let e : in_block r n x ≡ false = ground arith in rw e
]
  where
    and-false : (b : Bool) → b && false ≡ false
    and-false true = refl
    and-false false = refl

pub IsFreeList-below :
    (hi lo lo' : ℕ) (cs : List Chunk) → lo' ≤ lo → IsFreeList lo hi cs → IsFreeList lo' hi cs
IsFreeList-below hi lo lo' [] h ok = tt
IsFreeList-below hi lo lo' (c ∷ cs) h ok = (omega (arith, ok.0), ok.1, ok.2, ok.3, ok.4, ok.5)

All-above :
    (hi lo r n : ℕ) (cs : List Chunk) → r + n ≤ lo → IsFreeList lo hi cs → All (Apart r n) cs
All-above hi lo r n [] h ok = tt
All-above hi lo r n (c ∷ cs) h ok =
    (inr (omega arith), All-above hi (c.addr + c.size + 1) r n cs (omega arith) ok.5)

module _ (n hi : ℕ) (pos : 0 < n) (word : n % 8 ≡ 0) where
  Granted-keep :
      (lo : ℕ) (c : Chunk) (cs : List Chunk) (o : Option (ℕ × List Chunk))
      → IsFreeList lo hi (c ∷ cs)
      → c.size < n
      → Granted (c.addr + c.size + 1) hi n cs o
      → Granted lo hi n (c ∷ cs) (keep c o)
  unfolding is_free release
  Granted-keep lo c cs none ok small (exhausted h) = exhausted (small, h)
  Granted-keep lo c cs (some (r, cs')) ok small (carved k) = carved record {
    list = (ok.0, ok.1, ok.2, ok.3, ok.4, k.list);
    low = omega (arith, k.low, ok.0);
    high = k.high;
    aligned = k.aligned;
    bytes = λ x.
        ap (λ t. in_block c.addr c.size x || t) (k.bytes x)
        ∙ or-swap (in_block c.addr c.size x) (in_block r n x) (is_free x cs');
    apart = λ x.
        and-or_false (in_block r n x) (in_block c.addr c.size x) (is_free x cs')
          (in_block-apart r n c.addr c.size x (omega (arith, k.low))) (k.apart x);
    gap = (inl (omega (arith, k.low)), k.gap);
    restored =
        let e : ltb c.addr r ≡ true = ground (arith, k.low) in
        rw (e, k.restored) (join-gap hi c cs ok.5);
    shorter = omega (arith, k.shorter);
  }

  Granted-whole :
      (lo : ℕ) (c : Chunk) (cs : List Chunk)
      → IsFreeList lo hi (c ∷ cs)
      → c.size ≡ n
      → Carved lo hi n (c ∷ cs) c.addr cs
  unfolding is_free
  Granted-whole lo c cs ok e = rw (sym e) record {
    list = IsFreeList-below hi (c.addr + c.size + 1) lo cs (omega (arith, ok.0)) ok.5;
    low = ok.0;
    high = ok.4;
    aligned = ok.1;
    bytes = λ x. refl;
    apart = λ x. in_block-is_free hi (c.addr + c.size + 1) c.addr c.size x cs (omega arith) ok.5;
    gap = All-above hi (c.addr + c.size + 1) c.addr c.size cs (omega arith) ok.5;
    restored = release-front hi c cs ok.5;
    shorter = omega arith;
  }

  Granted-part :
      (lo : ℕ) (c : Chunk) (cs : List Chunk)
      → IsFreeList lo hi (c ∷ cs)
      → n < c.size
      → Carved lo hi n (c ∷ cs) (c.addr + c.size - n) (chunk c.addr (c.size - n) ∷ cs)
  unfolding is_free release join
  Granted-part lo c cs ok lt = record {
    list = (
      ok.0,
      ok.1,
      omega (arith, ok.2, word),
      omega (arith, lt),
      omega (arith, ok.4),
      IsFreeList-below hi (c.addr + c.size + 1) (c.addr + (c.size - n) + 1) cs (omega arith) ok.5,
    );
    low = omega (arith, ok.0, lt);
    high = omega (arith, ok.4, lt);
    aligned = omega (arith, ok.1, ok.2, word, lt);
    bytes = λ x.
        ap (λ t. t || is_free x cs) (in_block-split c.addr c.size n x lt)
        ∙ or_assoc (in_block (c.addr + c.size - n) n x) (in_block c.addr (c.size - n) x)
            (is_free x cs);
    apart = λ x.
        and-or_false (in_block (c.addr + c.size - n) n x) (in_block c.addr (c.size - n) x)
          (is_free x cs)
          (in_block-apart (c.addr + c.size - n) n c.addr (c.size - n) x (omega (arith, lt)))
          (in_block-is_free hi (c.addr + c.size + 1) (c.addr + c.size - n) n x cs
            (omega (arith, lt)) ok.5);
    gap = (
      inl (omega (arith, lt)),
      All-above hi (c.addr + c.size + 1) (c.addr + c.size - n) n cs (omega (arith, lt)) ok.5,
    );
    restored =
        let r = c.addr + c.size - n in
        let e : ltb c.addr r ≡ true = ground (arith, lt) in
        let touches : (c.addr + (c.size - n) == r) ≡ true = ground (arith, lt) in
        let back : c.size - n + n ≡ c.size = omega (arith, lt) in
        let above : IsFreeList (r + n + 1) hi cs =
          IsFreeList-below hi (c.addr + c.size + 1) (r + n + 1) cs (omega (arith, lt)) ok.5 in
        rw (e, release-front hi (chunk r n) cs above, touches, back);
    shorter = omega arith;
  }

  -- First fit refuses where every chunk is too small. Otherwise it takes a block that lay free,
  -- and exactly that block.
  pub alloc-Granted :
      (lo : ℕ) (cs : List Chunk) → IsFreeList lo hi cs → Granted lo hi n cs (alloc n cs)
  unfolding alloc
  alloc-Granted lo [] ok = exhausted tt
  alloc-Granted lo (c ∷ cs) ok = elim (Bool-cases (ltb c.size n)) [
    | inl small ↦ rw small (
        Granted-keep lo c cs (alloc n cs) ok (ltb→lt c.size n small)
          (alloc-Granted (c.addr + c.size + 1) cs ok.5))
    | inr fits ↦ rw fits (elim (Bool-cases (c.size == n)) [
      | inl e ↦ rw e (carved (Granted-whole lo c cs ok (ground arith)))
      | inr ne ↦ rw ne (carved (Granted-part lo c cs ok (ground arith)))
    ])
  ]
