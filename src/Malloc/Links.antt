-- ===== src/Malloc/Links.antt =====
-- Writes to the headers, seen as changes of the list.
use mlonmcu_sw.Base.{All, ℕ, ◌+◌, ◌≤◌, ◌<◌, ◌≡◌, refl, arith, ◌∙◌, ap, List, [], ◌∷◌, ◌++◌}
use mlonmcu_sw.Malloc.Heap.{Memory}
use mlonmcu_sw.Malloc.Chunks.{Chunk, chunk, IsFreeList}
use mlonmcu_sw.Malloc.Chain.{Chain, last_addr}

-- The headers at the address are the same in both memories.
abbrev pub Same : Memory → Memory → ℕ → Type 0
Same m m' y = (m'.size y ≡ m.size y) × (m'.next y ≡ m.next y)

module _ (m m' : Memory) (hi : ℕ) where
  -- Writes below a list leave it alone.
  pub Chain-above :
      (x : ℕ)
      → ((y : ℕ) → x ≤ y → Same m m' y)
      → (p lo : ℕ) (cs : List Chunk) → x ≤ lo
      → Chain m p cs
      → IsFreeList lo hi cs
      → Chain m' p cs
  Chain-above x same p lo [] below ch ok = ch
  Chain-above x same p lo (c ∷ cs) below (at, ne, e, ch) ok =
      let s = same c.addr (omega arith) in
      let rest =
        Chain-above x same (m.next c.addr) (c.addr + c.size + 1) cs (omega arith) ch ok.5 in
      (at, ne, s.0 ∙ e, rw s.1 rest)

  -- A chunk gets another size, and another list behind it.
  pub Chain-relink :
      (l : Chunk) (size' : ℕ) (back back' : List Chunk)
      → ((y : ℕ) → y < l.addr → Same m m' y)
      → m'.size l.addr ≡ size'
      → Chain m' (m'.next l.addr) back'
      → (p lo : ℕ) (front : List Chunk) → Chain m p (front ++ l ∷ back)
      → IsFreeList lo hi (front ++ l ∷ back)
      → Chain m' p (front ++ chunk l.addr size' ∷ back')
  Chain-relink l size' back back' same e ch' p lo [] (at, ne, _, _) ok = (at, ne, e, ch')
  Chain-relink l size' back back' same e ch' p lo (c ∷ front) (at, ne, f, ch) ok =
      let s = same c.addr (first-lt front (c.addr + c.size + 1) ok.5 (omega arith)) in
      let rest =
        Chain-relink l size' back back' same e ch' (m.next c.addr) (c.addr + c.size + 1) front ch
          ok.5 in
      (at, ne, s.0 ∙ f, rw s.1 rest)
    where
      first-lt :
          (front : List Chunk) (lo : ℕ)
          → IsFreeList lo hi (front ++ l ∷ back)
          → c.addr < lo
          → c.addr < l.addr
      first-lt [] lo ok h = omega arith
      first-lt (d ∷ front) lo ok h = first-lt front (d.addr + d.size + 1) ok.5 (omega arith)

-- The list from a place on.
pub IsFreeList-back :
    (hi lo : ℕ) (front back : List Chunk)
    → IsFreeList lo hi (front ++ back)
    → (lo' : ℕ) × (lo ≤ lo') × IsFreeList lo' hi back
IsFreeList-back hi lo [] back ok = (lo, omega arith, ok)
IsFreeList-back hi lo (c ∷ front) back ok =
    let (lo', le, ok') = IsFreeList-back hi (c.addr + c.size + 1) front back ok.5 in
    (lo', omega arith, ok')

-- A walk that passed a chunk stands behind the last one.
pub record Snoc (prev : ℕ) (front : List Chunk) : Type 0 where
  pub init : List Chunk
  pub last : Chunk
  pub splits : (back : List Chunk) → front ++ back ≡ init ++ last ∷ back
  pub is_last : last_addr prev front ≡ last.addr

pub snoc : (prev : ℕ) (c : Chunk) (front : List Chunk) → Snoc prev (c ∷ front)
snoc prev c [] = record { init = []; last = c; splits = λ back. refl; is_last = refl }
snoc prev c (d ∷ front) =
    let s = snoc c.addr d front in
    record {
      init = c ∷ s.init;
      last = s.last;
      splits = λ back. ap (λ t. c ∷ t) (s.splits back);
      is_last = s.is_last;
    }

pub snoc-All :
    (P : Chunk → Type 0) (prev : ℕ) (c : Chunk) (front : List Chunk)
    → All P (c ∷ front)
    → P (snoc prev c front).last
unfolding snoc
snoc-All P prev c [] h = h.0
snoc-All P prev c (d ∷ front) h = snoc-All P c.addr d front h.1

-- What the memory holds from a chunk of the list on.
pub Chain-back :
    (m : Memory) (p : ℕ) (front : List Chunk) (c : Chunk) (back : List Chunk)
    → Chain m p (front ++ c ∷ back)
    → Chain m c.addr (c ∷ back)
Chain-back m p [] c back (at, ne, e, ch) = (refl, ne, e, ch)
Chain-back m p (d ∷ front) c back (at, ne, e, ch) = Chain-back m (m.next d.addr) front c back ch
