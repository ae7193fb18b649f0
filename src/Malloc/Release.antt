-- ===== src/Malloc/Release.antt =====
-- `__malloc_free` is `release` on the list of chunks.
use mlonmcu_sw.Base.{ℕ, ◌+◌, ◌%◌, ◌^◌, ◌≤◌, ◌<◌, ◌≡◌, refl, arith, ◌∙◌, sym, ap, subst, true, false}
use mlonmcu_sw.Base.{List, [], ◌∷◌, ◌++◌, ltb, u32, ◌==◌, Bool-cases, inl, inr}
use mlonmcu_sw.Malloc.Heap.{null, Memory, Malloc, set_size, set_next}
use mlonmcu_sw.Malloc.Internal.{join_next, join_prev}
use mlonmcu_sw.Malloc.Chunks.{Chunk, chunk, IsFreeList, join, release}
use mlonmcu_sw.Malloc.Chain.{Chain, From, Halts}
use mlonmcu_sw.Malloc.Links.{Chain-above, Chain-relink, IsFreeList-back, Chain-back, Same}
use mlonmcu_sw.Malloc.Blocks.{IsFreeList-below}

pub release-From :
    (c : Chunk) (back : List Chunk) → Halts (From c.addr) back → release c back ≡ join c back
unfolding release join
release-From c [] h = refl
release-From c (d ∷ back) h = let e : ltb d.addr c.addr ≡ false = ground arith in rw e

join-join :
    (d l : Chunk) (cs : List Chunk) → d.addr + d.size < l.addr → join d (join l cs) ≡ d ∷ join l cs
unfolding join
join-join d l [] h = let e : (d.addr + d.size == l.addr) ≡ false = ground arith in rw e
join-join d l (c ∷ cs) h =
    let e : (d.addr + d.size == l.addr) ≡ false = ground arith in
    elim (Bool-cases (l.addr + l.size == c.addr)) [ inl t ↦ rw (t, e) | inr f ↦ rw (f, e) ]

-- Only the last chunk before the place can be joined.
pub release-last :
    (c l : Chunk) (hi lo : ℕ) (init back : List Chunk)
    → l.addr < c.addr
    → IsFreeList lo hi (init ++ l ∷ back)
    → release c (init ++ l ∷ back) ≡ init ++ join l (release c back)
unfolding release
release-last c l hi lo [] back lt ok = let e : ltb l.addr c.addr ≡ true = ground arith in rw e
release-last c l hi lo (d ∷ []) back lt ok =
    let e : ltb d.addr c.addr ≡ true = ground arith in
    let f : ltb l.addr c.addr ≡ true = ground arith in
    rw (e, f) (join-join d l (release c back) (omega arith))
release-last c l hi lo (d ∷ b ∷ init) back lt ok =
    let below : b.addr < c.addr = first-lt b init (d.addr + d.size + 1) ok.5 in
    let e : ltb d.addr c.addr ≡ true = ground arith in
    let f : (d.addr + d.size == b.addr) ≡ false = ground arith in
    let rest = release-last c l hi (d.addr + d.size + 1) (b ∷ init) back lt ok.5 in
    rw e (ap (join d) rest ∙ unfold join in rw f)
  where
    first-lt :
        (b : Chunk) (init : List Chunk) (lo : ℕ)
        → IsFreeList lo hi (b ∷ init ++ l ∷ back)
        → b.addr < c.addr
    first-lt b [] lo ok = omega (arith, ok.5.0, lt)
    first-lt b (d ∷ init) lo ok =
        let rest = first-lt d init (b.addr + b.size + 1) ok.5 in omega (arith, rest, ok.5.0)

pub join-IsFreeList :
    (c : Chunk) (hi : ℕ) (back : List Chunk)
    → c.addr % 8 ≡ 0
    → c.size % 8 ≡ 0
    → 0 < c.size
    → c.addr + c.size ≤ hi
    → IsFreeList (c.addr + c.size) hi back
    → IsFreeList c.addr hi (join c back)
unfolding join
join-IsFreeList c hi [] a s p le ok = (omega arith, a, s, p, le, tt)
join-IsFreeList c hi (d ∷ back) a s p le ok = elim (Bool-cases (c.addr + c.size == d.addr)) [
  | inl t ↦
      let e : c.addr + c.size ≡ d.addr = ground (arith, t) in
      let rest =
        IsFreeList-below hi (d.addr + d.size + 1) (c.addr + (c.size + d.size) + 1) back
          (omega (arith, e)) ok.5 in
      rw t (omega arith, a, omega (arith, s, ok.2), omega (arith, p), omega (arith, e, ok.4), rest)
  | inr f ↦ rw f (omega arith, a, s, p, le, (ground (arith, f, ok.0), ok.1, ok.2, ok.3, ok.4, ok.5))
]

-- A block that comes back: `n` bytes at `addr`, in a gap of the list.
module _ (a : Malloc) (addr n hi : ℕ) (top : hi < 2 ^ 31) (pos : 0 < n) (live : 1 ≤ addr)
    (inside : addr + n ≤ hi) where
  abbrev m : Memory
  m = a.memory

  -- The new chunk, and the list behind it.
  pub join_next-Chain :
      (next : ℕ) (back : List Chunk)
      → Chain m next back
      → IsFreeList (addr + n) hi back
      → Chain (join_next addr n next m) addr (join (chunk addr n) back)
  unfolding join
  join_next-Chain next [] ch ok =
      let e : (u32 (addr + n) == next) ≡ false = ground (arith, ch, inside, top, live) in
      let value : join_next addr n next m ≡ set_next addr next (set_size addr n m) =
        unfold join_next in rw e refl in
      rw value (refl, omega arith, ground arith, ground (arith, ch))
  join_next-Chain next (d ∷ back) (at, ne, e, ch) ok =
      let word : u32 (addr + n) ≡ addr + n = omega (arith, inside) in
      elim (Bool-cases (addr + n == d.addr)) [
        | inl t ↦
            let m1 = set_next addr (m.next d.addr) (set_size addr (n + d.size) m) in
            let sum : u32 (n + m.size d.addr) ≡ n + d.size = ground (arith, e, ok.4, t, top) in
            let written : m1.next addr ≡ m.next d.addr = ground arith in
            let rest =
              Chain-above m m1 hi (addr + 1) (λ y gt. (ground arith, ground arith)) (m.next d.addr)
                (d.addr + d.size + 1) back (omega (arith, ok.0)) ch ok.5 in
            let value : join_next addr n d.addr m ≡ m1 =
              unfold join_next in rw (word, t, sum) refl in
            let chain : Chain m1 addr (chunk addr (n + d.size) ∷ back) =
              (refl, omega arith, ground arith, rw written rest) in
            rw (at, t)
              (subst (λ u. Chain u addr (chunk addr (n + d.size) ∷ back)) (sym value) chain)
        | inr f ↦
            let m1 = set_next addr d.addr (set_size addr n m) in
            let written : m1.next addr ≡ d.addr = ground arith in
            let rest =
              Chain-above m m1 hi (addr + 1) (λ y gt. (ground arith, ground arith)) d.addr
                (addr + n) (d ∷ back) (omega (arith, pos)) (refl, ne, e, ch) ok in
            let value : join_next addr n d.addr m ≡ m1 = unfold join_next in rw (word, f) refl in
            let chain : Chain m1 addr (chunk addr n ∷ d ∷ back) =
              (refl, omega arith, ground arith, rw written rest) in
            rw (at, f) (subst (λ u. Chain u addr (chunk addr n ∷ d ∷ back)) (sym value) chain)
      ]

  -- The chunk `e` with the list `t` behind the last chunk before it. The memory differs from
  -- the first one at `addr` only.
  module _ (m1 : Memory) (kept : (y : ℕ) → y < addr → Same m m1 y) (e : Chunk) (t : List Chunk)
      (ch1 : Chain m1 addr (e ∷ t)) (ok1 : IsFreeList addr hi (e ∷ t)) where
    pub join_prev-Chain :
        (init back : List Chunk) (l : Chunk)
        → Chain m a.first_free (init ++ l ∷ back)
        → IsFreeList 1 hi (init ++ l ∷ back)
        → l.addr + l.size ≤ addr
        → let b = join_prev addr l.addr (record a { memory = m1 }) in
          Chain b.memory b.first_free (init ++ join l (e ∷ t))
    unfolding join
    join_prev-Chain init back l ch ok before =
        let (lo, le, okl) = IsFreeList-back hi 1 init (l ∷ back) ok in
        let some_prev : (l.addr == null) ≡ false = ground (arith, le, okl.0) in
        let same = kept l.addr (omega (arith, before, okl.3)) in
        let size_l : m1.size l.addr ≡ l.size =
          same.0 ∙ (Chain-back m a.first_free init l back ch).2 in
        let word : u32 (l.addr + l.size) ≡ l.addr + l.size = omega (arith, okl.4, top) in
        elim (Bool-cases (l.addr + l.size == e.addr)) [
          | inl touches ↦
              let m2 = set_next l.addr (m1.next e.addr) (set_size l.addr (l.size + e.size) m1) in
              let sum : u32 (l.size + e.size) ≡ l.size + e.size =
                ground (arith, touches, ok1.4, ch1.0, top) in
              let value : join_prev addr l.addr (record a { memory = m1 })
                  ≡ record a { memory = m2 } =
                unfold join_prev in rw (some_prev, size_l, word, ch1.0, touches, ch1.2, sum) refl in
              let written : m2.next l.addr ≡ m1.next e.addr = ground arith in
              let chain =
                Chain-above m1 m2 hi (l.addr + 1) (λ y gt. (ground arith, ground arith))
                  (m1.next e.addr) (e.addr + e.size + 1) t (omega (arith, ch1.0, before)) ch1.3
                  ok1.5 in
              let joined =
                Chain-relink m m2 hi l (l.size + e.size) back t
                  (λ y lt.
                    let s = kept y (omega (arith, lt, before)) in
                    (ground (arith, s.0), ground (arith, s.1)))
                  (ground arith) (rw written chain) a.first_free 1 init ch ok in
              rw (touches, value) joined
          | inr gap ↦
              let m2 = set_next l.addr addr m1 in
              let value : join_prev addr l.addr (record a { memory = m1 })
                  ≡ record a { memory = m2 } =
                unfold join_prev in rw (some_prev, size_l, word, ch1.0, gap) refl in
              let written : m2.next l.addr ≡ addr = ground arith in
              let chain =
                Chain-above m1 m2 hi (l.addr + 1) (λ y gt. (refl, ground arith)) addr addr (e ∷ t)
                  (omega (arith, before, okl.3)) ch1 ok1 in
              let joined =
                Chain-relink m m2 hi l l.size back (e ∷ t)
                  (λ y lt. let s = kept y (omega (arith, lt, before)) in (s.0, ground (arith, s.1)))
                  size_l (rw written chain) a.first_free 1 init ch ok in
              rw (gap, value) joined
        ]
