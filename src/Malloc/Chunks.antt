-- ===== src/Malloc/Chunks.antt =====
-- The free list without its memory: a list of chunks, and what the allocator does with it.
use mlonmcu_sw.Base.{ℕ, ◌+◌, ◌-◌, ◌%◌, ◌≤◌, ◌<◌, ◌≡◌, Bool, false, Option, none, some, ◌==◌}
use mlonmcu_sw.Base.{List, [], ◌∷◌, if◌then◌else◌, ltb, leb, ◌&&◌, ◌||◌}

pub record Chunk : Type 0 where
  pub addr : ℕ
  pub size : ℕ

abbrev pub chunk : ℕ → ℕ → Chunk
chunk a n = record { addr = a; size = n }

-- The chunks lie in order between `lo` and `hi`, on multiples of 8, with a gap between any two.
abbrev pub IsFreeList : (lo hi : ℕ) → List Chunk → Type 0
IsFreeList lo hi [] = Unit {0}
IsFreeList lo hi (c ∷ cs) =
    (lo ≤ c.addr)
    × (c.addr % 8 ≡ 0)
    × (c.size % 8 ≡ 0)
    × (0 < c.size)
    × (c.addr + c.size ≤ hi)
    × IsFreeList (c.addr + c.size + 1) hi cs

-- A result with one more chunk in front of its list.
abbrev pub keep : Chunk → Option (ℕ × List Chunk) → Option (ℕ × List Chunk)
keep c none = none
keep c (some (r, cs)) = some (r, c ∷ cs)

-- First fit, from the end of the chunk.
unfoldable pub alloc : ℕ → List Chunk → Option (ℕ × List Chunk)
alloc n [] = none
alloc n (c ∷ cs) =
    let later = keep c (alloc n cs) in
    if ltb c.size n
    then later
    else if c.size == n
    then some (c.addr, cs)
    else some (c.addr + c.size - n, chunk c.addr (c.size - n) ∷ cs)

-- A chunk in front of a list, joined with the first one there where they touch.
unfoldable pub join : Chunk → List Chunk → List Chunk
join c [] = c ∷ []
join c (d ∷ cs) =
    if c.addr + c.size == d.addr then chunk c.addr (c.size + d.size) ∷ cs else c ∷ d ∷ cs

-- A chunk comes back in its place.
unfoldable pub release : Chunk → List Chunk → List Chunk
unfolding join
release c [] = c ∷ []
release c (d ∷ cs) =
    let later = join d (release c cs) in if ltb d.addr c.addr then later else join c (d ∷ cs)

-- The byte lies in a free chunk.
unfoldable pub is_free : ℕ → List Chunk → Bool
is_free x [] = false
is_free x (c ∷ cs) = (leb c.addr x && ltb x (c.addr + c.size)) || is_free x cs
