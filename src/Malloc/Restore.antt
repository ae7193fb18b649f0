-- ===== src/Malloc/Restore.antt =====
-- `__malloc`, and `__malloc_free` of its result.
use mlonmcu_sw.Base.{ℕ, ◌+◌, ◌%◌, ◌^◌, ◌<◌, ◌≡◌, ◌≢◌, refl, arith, ◌∙◌, subst, false}
use mlonmcu_sw.Base.{List, [], ◌∷◌, All, length, inl, inr, some, none}
use mlonmcu_sw.Base.Partial.{Returns, returns, mono}
use mlonmcu_sw.Malloc.Heap.{null, Memory, Malloc, align_up}
use mlonmcu_sw.Malloc.Internal.{malloc, malloc_free}
use mlonmcu_sw.Malloc.Chunks.{Chunk, IsFreeList, alloc}
use mlonmcu_sw.Malloc.Chain.{Chain, Smaller}
use mlonmcu_sw.Malloc.Links.{Same}
use mlonmcu_sw.Malloc.Alloc.{Allocated, refused, granted, malloc-Allocated}
use mlonmcu_sw.Malloc.Blocks.{Carved, Granted, exhausted, carved, alloc-Granted, Apart, in_block}
use mlonmcu_sw.Malloc.Gaps.{malloc_free-release}

-- What a call gives.
pub data Served (n hi : ℕ) (a : Malloc) (cs : List Chunk) : ℕ × Malloc → Type 0 where
  turned_down : All (Smaller n) cs → Served n hi a cs (null, a)
  served :
      {r : ℕ} {a' : Malloc} (cs' : List Chunk)
      → Carved 1 hi n cs r cs'
      → Chain a'.memory a'.first_free cs'
      → Served n hi a cs (r, a')

Granted-none : (n hi : ℕ) (cs : List Chunk) → Granted 1 hi n cs none → All (Smaller n) cs
Granted-none n hi cs (exhausted small) = small

Granted-some :
    (n hi r : ℕ) (cs cs' : List Chunk) → Granted 1 hi n cs (some (r, cs')) → Carved 1 hi n cs r cs'
Granted-some n hi r cs cs' (carved k) = k

Allocated-Served :
    (n hi : ℕ) (a : Malloc) (cs : List Chunk)
    → Granted 1 hi n cs (alloc n cs)
    → (out : ℕ × Malloc) → Allocated n a cs out
    → Served n hi a cs out
Allocated-Served n hi a cs g out (refused e) =
    turned_down (Granted-none n hi cs (subst (Granted 1 hi n cs) e g))
Allocated-Served n hi a cs g out (granted cs' e ch) =
    served cs' (Granted-some n hi _ cs cs' (subst (Granted 1 hi n cs) e g)) ch

-- Writes inside the block leave the list alone.
Chain-outside :
    (m m' : Memory) (r n hi p lo : ℕ) (cs : List Chunk)
    → ((x : ℕ) → x % 8 ≡ 0 → in_block r n x ≡ false → Same m m' x)
    → Chain m p cs
    → IsFreeList lo hi cs
    → All (Apart r n) cs
    → Chain m' p cs
Chain-outside m m' r n hi p lo [] same ch ok gap = ch
Chain-outside m m' r n hi p lo (c ∷ cs) same (at, ne, e, ch) ok gap =
    let s = same c.addr ok.1 (outside gap.0) in
    let rest =
      Chain-outside m m' r n hi (m.next c.addr) (c.addr + c.size + 1) cs same ch ok.5 gap.1 in
    (at, ne, s.0 ∙ e, rw s.1 rest)
  where
    outside : Apart r n c → in_block r n c.addr ≡ false
    outside (inl h) = ground (arith, h, ok.3)
    outside (inr h) = ground (arith, h)

-- On a memory that holds a free list of fewer chunks than the fuel, between address 1 and `hi`
-- below 2 ^ 31, and for a size that is between 1 and 2 ^ 31 - 1 when it is rounded up to a
-- multiple of 8, `__malloc` returns. Either every chunk is smaller than the rounded size, the result is
-- NULL and nothing changed. Or the result is an address from 1 on, a multiple of 8, of that many bytes
-- below `hi`; the memory then holds a free list with a gap between any two chunks as before, and
-- the bytes of the old list are those of the new one and those of the block, with no byte in both.
pub malloc-Served :
    (fuel : ℕ) (a : Malloc) (size hi : ℕ) (cs : List Chunk)
    → Chain a.memory a.first_free cs
    → IsFreeList 1 hi cs
    → hi < 2 ^ 31
    → 0 < align_up size
    → align_up size < 2 ^ 31
    → length cs < fuel
    → Returns (Served (align_up size) hi a cs) (malloc fuel a size)
malloc-Served fuel a size hi cs ch ok top pos small f =
    let words : align_up size % 8 ≡ 0 = omega arith in
    let g = alloc-Granted (align_up size) hi pos words 1 cs ok in
    mono (malloc-Allocated fuel a size hi cs ch ok top small f)
      (Allocated-Served (align_up size) hi a cs g)

at_result : {P : ℕ × Malloc → Type 0} (out : ℕ × Malloc) → Returns P (some out) → P out
at_result out (returns h) = h

Served-live :
    (n hi : ℕ) (a : Malloc) (cs : List Chunk) (r : ℕ) (a' : Malloc)
    → Served n hi a cs (r, a')
    → r ≢ null
    → (cs' : List Chunk) × Carved 1 hi n cs r cs' × Chain a'.memory a'.first_free cs'
Served-live n hi a cs r a' (turned_down _) live = absurd (live refl)
Served-live n hi a cs r a' (served cs' k ch) live = (cs', k, ch)

-- Under the same conditions, where `__malloc` gave an address `r` that is not NULL: after
-- writes that keep the headers at every multiple of 8 outside the block, `__malloc_free` of `r` and the same size returns, and the memory holds the very
-- free list that it held before the call of `__malloc`, chunk by chunk.
pub malloc_free-malloc :
    (fuel : ℕ) (a : Malloc) (size hi : ℕ) (cs : List Chunk)
    → Chain a.memory a.first_free cs
    → IsFreeList 1 hi cs
    → hi < 2 ^ 31
    → 0 < align_up size
    → align_up size < 2 ^ 31
    → length cs < fuel
    → (r : ℕ) (a' : Malloc) → malloc fuel a size ≡ some (r, a')
    → r ≢ null
    → (m : Memory)
    → ((x : ℕ) → x % 8 ≡ 0 → in_block r (align_up size) x ≡ false → Same a'.memory m x)
    → Returns
        (λ b. Chain b.memory b.first_free cs)
        (malloc_free fuel (record a' { memory = m }) r size)
malloc_free-malloc fuel a size hi cs ch ok top pos small f r a' e live m same =
    let out = at_result (r, a') (rw e at (malloc-Served fuel a size hi cs ch ok top pos small f)) in
    let (cs', k, ch') = Served-live (align_up size) hi a cs r a' out live in
    let kept =
      Chain-outside a'.memory m r (align_up size) hi a'.first_free 1 cs' same ch' k.list k.gap in
    let done =
      malloc_free-release fuel (record a' { memory = m }) r size hi cs' kept k.list top k.low
        k.aligned pos k.high k.gap (omega (arith, k.shorter, f)) in
    mono done (λ b h. rw k.restored at h)
