-- ===== src/Malloc/Info.antt =====
-- `__malloc_init` and `__malloc_info`.
use mlonmcu_sw.Base.{
  ℕ, zero, suc, ◌+◌, ◌-◌, ◌%◌, ◌^◌, ◌≤◌, ◌<◌, ◌≡◌, refl, arith, ◌∙◌, ap, true, false,
}
use mlonmcu_sw.Base.{List, [], ◌∷◌, length, some, u32, sub32, slt32, ◌==◌}
use mlonmcu_sw.Malloc.Heap.{null, Memory, Malloc, set_next, set_size, align_up, align_down}
use mlonmcu_sw.Malloc.Internal.{malloc_init, malloc_info, info_loop}
use mlonmcu_sw.Malloc.Chunks.{Chunk, chunk, IsFreeList}
use mlonmcu_sw.Malloc.Chain.{Chain}

abbrev pub total : List Chunk → ℕ
total [] = 0
total (c ∷ cs) = c.size + total cs

total-le :
    (lo hi : ℕ) (cs : List Chunk) → lo ≤ hi + 1 → IsFreeList lo hi cs → lo + total cs ≤ hi + 1
total-le lo hi [] le ok = omega arith
total-le lo hi (c ∷ cs) le ok =
    let rest = total-le (c.addr + c.size + 1) hi cs (omega (arith, ok.4)) ok.5 in
    omega (arith, rest, ok.0)

length-le : (lo hi : ℕ) (cs : List Chunk) → IsFreeList lo hi cs → length cs ≤ total cs
length-le lo hi [] ok = omega arith
length-le lo hi (c ∷ cs) ok =
    let rest = length-le (c.addr + c.size + 1) hi cs ok.5 in omega (arith, rest, ok.3)

pair : {x x' y y' : ℕ} → x ≡ x' → y ≡ y' → ◌≡◌ {A = ℕ × ℕ} (x, y) (x', y')
pair e f = rw (e, f) refl

info_loop-Chain :
    (m : Memory) (fuel p size nb : ℕ) (cs : List Chunk)
    → Chain m p cs
    → size + total cs < 2 ^ 32
    → nb + length cs < 2 ^ 32
    → length cs < fuel
    → info_loop fuel m p size nb ≡ some (size + total cs, nb + length cs)
unfolding info_loop
info_loop-Chain m zero p size nb cs ch s k f = absurd (omega arith)
info_loop-Chain m (suc fuel) p size nb [] ch s k f =
    rw ch (ap some (pair (omega arith) (omega arith)))
info_loop-Chain m (suc fuel) p size nb (c ∷ cs) (at, ne, e, ch) s k f =
    let live : (c.addr == null) ≡ false = ground arith in
    let sum : u32 (size + c.size) ≡ size + c.size = omega (arith, s) in
    let count : u32 (nb + 1) ≡ nb + 1 = omega (arith, k) in
    rw (at, live, e, sum, count)
      (info_loop-Chain m fuel (m.next c.addr) (size + c.size) (nb + 1) cs ch (omega (arith, s))
          (omega (arith, k)) (omega arith)
        ∙ ap some (pair (omega arith) (omega arith)))

-- `__malloc_info` returns, on a memory that holds a free list of fewer chunks than the fuel, between
-- address 1 and `hi` below 2 ^ 31, the sum of the sizes and the number of the chunks.
pub malloc_info-Chain :
    (fuel : ℕ) (a : Malloc) (hi : ℕ) (cs : List Chunk)
    → Chain a.memory a.first_free cs
    → IsFreeList 1 hi cs
    → hi < 2 ^ 31
    → length cs < fuel
    → malloc_info fuel a ≡ some (total cs, length cs)
unfolding malloc_info
malloc_info-Chain fuel a hi cs ch ok top f =
    let sum = total-le 1 hi cs (omega arith) ok in
    let count = length-le 1 hi cs ok in
    info_loop-Chain a.memory fuel a.first_free 0 0 cs ch (omega (arith, sum, top))
      (omega (arith, sum, count, top)) f
    ∙ ap some (pair (omega arith) (omega arith))

-- `__malloc_init` on a region of at least 15 bytes, which begins at address 1 or later and ends below
-- 2 ^ 31, makes a memory with a free list of one chunk: it begins at the first multiple of 8 in the region, ends
-- in the region, and fewer than 8 bytes are lost on either side.
pub malloc_init-IsFreeList :
    (start size : ℕ) (m : Memory)
    → 1 ≤ start
    → 15 ≤ size
    → start + size < 2 ^ 31
    → let a = malloc_init start size m in
      (c : Chunk) × Chain a.memory a.first_free (c ∷ [])
      × IsFreeList start (start + size) (c ∷ [])
      × (c.addr < start + 8)
      × (start + size < c.addr + c.size + 8)
malloc_init-IsFreeList start size m pos big top = rw value (
  chunk first room,
  chain,
  (from, words, rooms, some_room, fits, tt),
  omega arith,
  omega (arith, near.1),
)
  where
    first : ℕ
    first = align_up start

    room : ℕ
    room = align_down (start + size - first)

    near : (start ≤ first) × (first < start + 8)
    near = (omega arith, omega arith)

    m' : Memory
    m' = set_next first null (set_size first room m)

    value : malloc_init start size m ≡ record { first_free = first; memory = m' }
    value =
        let left : sub32 size (sub32 first start) ≡ start + size - first =
          omega (arith, near.0, near.1) in
        let some_left : slt32 0 (start + size - first) ≡ true = ground (arith, near.0, near.1) in
        unfold malloc_init in rw (left, some_left) refl

    chain : Chain m' first (chunk first room ∷ [])
    chain = (refl, omega (arith, near.0), ground arith, ground arith)

    from : start ≤ first
    from = near.0

    words : first % 8 ≡ 0
    words = omega arith

    rooms : room % 8 ≡ 0
    rooms = omega arith

    some_room : 0 < room
    some_room = omega arith

    fits : first + room ≤ start + size
    fits = omega arith
