-- ===== src/Malloc/Gaps.antt =====
-- `__malloc_free` gives a block back that lies in a gap of the free list.
use mlonmcu_sw.Base.{ℕ, ◌+◌, ◌%◌, ◌^◌, ◌≤◌, ◌<◌, ◌≡◌, refl, arith, ◌∙◌, sym, ap, subst}
use mlonmcu_sw.Base.{u32, Bool-cases, List, [], ◌∷◌, ◌++◌, All, length, inl, inr, ◌==◌}
use mlonmcu_sw.Base.Partial.{Returns, returns, bind}
use mlonmcu_sw.Malloc.Heap.{null, Memory, Malloc, align_up}
use mlonmcu_sw.Malloc.Internal.{join_next, join_prev, malloc_free}
use mlonmcu_sw.Malloc.Chunks.{Chunk, chunk, IsFreeList, join, release}
use mlonmcu_sw.Malloc.Chain.{Chain, Before, From, Halts, before_loop-Walked, last_addr}
use mlonmcu_sw.Malloc.Links.{Same, snoc, snoc-All}
use mlonmcu_sw.Malloc.Blocks.{Apart}
use mlonmcu_sw.Malloc.Release.{
  release-From, release-last, join-IsFreeList, join_next-Chain, join_prev-Chain,
}

All-front :
    (P : Chunk → Type 0) (front back : List Chunk)
    → All P (front ++ back)
    → All P front × All P back
All-front P [] back h = (tt, h)
All-front P (c ∷ front) back h = let (f, b) = All-front P front back h.1 in ((h.0, f), b)

-- The list from a place on, behind the block.
IsFreeList-From :
    (hi lo addr n : ℕ) (front back : List Chunk)
    → 0 < n
    → IsFreeList lo hi (front ++ back)
    → All (Apart addr n) back
    → Halts (From addr) back
    → IsFreeList (addr + n) hi back
IsFreeList-From hi lo addr n [] [] pos ok h from = tt
IsFreeList-From hi lo addr n [] (d ∷ back) pos ok (inl below, _) from =
    absurd (omega (arith, below, from, ok.3))
IsFreeList-From hi lo addr n [] (d ∷ back) pos ok (inr above, _) from =
    (above, ok.1, ok.2, ok.3, ok.4, ok.5)
IsFreeList-From hi lo addr n (c ∷ front) back pos ok h from =
    IsFreeList-From hi (c.addr + c.size + 1) addr n front back pos ok.5 h from

module _ (a : Malloc) (addr n hi : ℕ) (top : hi < 2 ^ 31) (pos : 0 < n) (live : 1 ≤ addr)
    (inside : addr + n ≤ hi) (word : addr % 8 ≡ 0) (words : n % 8 ≡ 0) where
  abbrev m1 : ℕ → Memory
  m1 next = join_next addr n next a.memory

  kept : (next y : ℕ) → y < addr → Same a.memory (m1 next) y
  unfolding join_next
  kept next y lt = elim (Bool-cases (u32 (addr + n) == next)) [
    | inl e ↦ rw e (ground arith, ground arith)
    | inr e ↦ rw e (ground arith, ground arith)
  ]

  behind_last :
      (next : ℕ) (init back : List Chunk) (l : Chunk) (joined : List Chunk)
      → Chain a.memory a.first_free (init ++ l ∷ back)
      → IsFreeList 1 hi (init ++ l ∷ back)
      → l.addr + l.size ≤ addr
      → Chain (m1 next) addr joined
      → IsFreeList addr hi joined
      → let b = join_prev addr l.addr (record a { memory = m1 next }) in
        Chain b.memory b.first_free (init ++ join l joined)
  behind_last next init back l [] ch ok below ch1 ok1 = absurd (omega (arith, ch1, live))
  behind_last next init back l (e ∷ t) ch ok below ch1 ok1 =
      join_prev-Chain a addr n hi top pos live inside (m1 next) (kept next) e t ch1 ok1 init back l
        ch ok below

  freed :
      (front back : List Chunk) (prev next : ℕ)
      → Chain a.memory a.first_free (front ++ back)
      → IsFreeList 1 hi (front ++ back)
      → All (Apart addr n) (front ++ back)
      → All (Before addr) front
      → Halts (From addr) back
      → Chain a.memory next back
      → prev ≡ last_addr null front
      → let b = join_prev addr prev (record a { memory = m1 next }) in
        Chain b.memory b.first_free (release (chunk addr n) (front ++ back))
  freed [] back prev next ch ok gap before from here at =
      let new = chunk addr n in
      let behind = IsFreeList-From hi 1 addr n [] back pos ok gap from in
      let chain = join_next-Chain a addr n hi top pos live inside next back here behind in
      let value : join_prev addr null (record a { memory = m1 next })
          ≡ record { first_free = addr; memory = m1 next } =
        unfold join_prev in refl in
      rw (at, release-From new back from)
        (subst (λ b. Chain b.memory b.first_free (join new back)) (sym value) chain)
  freed (d ∷ front) back prev next ch ok gap before from here at =
      let new = chunk addr n in
      let s = snoc null d front in
      let l = s.last in
      let cut = s.splits back in
      let ch' = subst (λ t. Chain a.memory a.first_free t) cut ch in
      let ok' = subst (λ t. IsFreeList 1 hi t) cut ok in
      let (gaps, gaps') = All-front (Apart addr n) (d ∷ front) back gap in
      let lt : l.addr < addr = snoc-All (Before addr) null d front before in
      let below : l.addr + l.size ≤ addr =
        Apart-below l lt (snoc-All (Apart addr n) null d front gaps) in
      let behind = IsFreeList-From hi 1 addr n (d ∷ front) back pos ok gaps' from in
      let chain = join_next-Chain a addr n hi top pos live inside next back here behind in
      let list = join-IsFreeList new hi back word words pos inside behind in
      let done = behind_last next s.init back l (join new back) ch' ok' below chain list in
      let result : release new (d ∷ front ++ back) ≡ s.init ++ join l (join new back) =
        ap (release new) cut
        ∙ release-last new l hi 1 s.init back lt ok'
        ∙ ap (λ t. s.init ++ join l t) (release-From new back from) in
      rw (at, s.is_last, result) done
    where
      Apart-below : (l : Chunk) → l.addr < addr → Apart addr n l → l.addr + l.size ≤ addr
      Apart-below l lt (inl h) = h
      Apart-below l lt (inr h) = absurd (omega (arith, h, lt))

-- On a memory that holds a free list of fewer chunks than the fuel, between address 1 and `hi`
-- below 2 ^ 31, and for a block of a rounded size that is not 0, on a multiple of 8 from 1 on, up to `hi` and
-- apart from every chunk, `__malloc_free` returns, and the memory holds the list with the block in its
-- place, joined with the neighbours that it touches.
pub malloc_free-release :
    (fuel : ℕ) (a : Malloc) (addr size hi : ℕ) (cs : List Chunk)
    → Chain a.memory a.first_free cs
    → IsFreeList 1 hi cs
    → hi < 2 ^ 31
    → 1 ≤ addr
    → addr % 8 ≡ 0
    → 0 < align_up size
    → addr + align_up size ≤ hi
    → All (Apart addr (align_up size)) cs
    → length cs < fuel
    → Returns
        (λ b. Chain b.memory b.first_free (release (chunk addr (align_up size)) cs))
        (malloc_free fuel a addr size)
malloc_free-release fuel a addr size hi cs ch ok top live word pos inside gap f =
    let words : align_up size % 8 ≡ 0 = omega arith in
    unfold malloc_free in
    bind (before_loop-Walked a.memory addr fuel null a.first_free cs ch f) λ place w. returns (
      rw w.splits (
        freed a addr (align_up size) hi top pos live inside word words w.front w.back place.prev
          place.pt (rw w.splits at ch) (rw w.splits at ok) (rw w.splits at gap) w.passed w.stays
          w.chain w.behind))
