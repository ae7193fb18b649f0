-- ===== src/Malloc/Internal.antt =====
-- malloc_internal.c. `none` means that a list did not end within the fuel.
use mlonmcu_sw.Base.{ℕ, zero, suc, ◌+◌, ◌*◌, Option, none, some, ◌==◌}
use mlonmcu_sw.Base.{if◌then◌else◌, u32, sub32, slt32, ltb, not, ◌&&◌, bit_and}
use mlonmcu_sw.Base.Partial.{◌>>=◌}
use mlonmcu_sw.Malloc.Heap.{null, Memory, Malloc, set_size, set_next, align_down, align_up}

-- Where a walk along the list stopped.
pub record Place : Type 0 where
  pub prev : ℕ
  pub pt : ℕ

-- The loop of `__malloc_info`, on `size` and `nb_chunks`.
unfoldable pub info_loop : ℕ → Memory → (pt size nb_chunks : ℕ) → Option (ℕ × ℕ)
info_loop zero m pt size nb_chunks = none
info_loop (suc fuel) m pt size nb_chunks =
    let round = info_loop fuel m (m.next pt) (u32 (size + m.size pt)) (u32 (nb_chunks + 1)) in
    if pt == null then some (size, nb_chunks) else round

unfoldable pub malloc_info : ℕ → Malloc → Option (ℕ × ℕ)
unfolding info_loop
malloc_info fuel a = info_loop fuel a.memory a.first_free 0 0

-- `__malloc_init`: `chunk` and `size` are `int32_t` there.
unfoldable pub malloc_init : (chunk size : ℕ) → Memory → Malloc
malloc_init chunk size m =
    let first = align_up chunk in
    let room = sub32 size (sub32 first chunk) in
    if slt32 0 room
    then record {
      first_free = first;
      memory = set_next first null (set_size first (align_down room) m);
    }
    else record { first_free = first; memory = m }

-- `while (pt && (pt->size < size))`.
unfoldable pub fit_loop : ℕ → Memory → (size prev pt : ℕ) → Option Place
fit_loop zero m size prev pt = none
fit_loop (suc fuel) m size prev pt =
    let round = fit_loop fuel m size pt (m.next pt) in
    if not (pt == null) && slt32 (m.size pt) size
    then round
    else some (record { prev = prev; pt = pt })

-- The rest of `__malloc`: the result and the allocator.
unfoldable pub take_chunk : Malloc → (size : ℕ) → Place → ℕ × Malloc
take_chunk a size found =
    let m = a.memory in
    let pt = found.pt in
    let prev = found.prev in
    if pt == null
    then (null, a)
    else if m.size pt == size
    then if not (prev == null)
      then (pt, record a { memory = set_next prev (m.next pt) m })
      else (pt, record a { first_free = m.next pt })
    else let left = sub32 (m.size pt) size in
      (sub32 (u32 (pt + m.size pt)) size, record a { memory = set_size pt left m })

unfoldable pub malloc : ℕ → Malloc → ℕ → Option (ℕ × Malloc)
unfolding fit_loop take_chunk
malloc fuel a size = do
  found ← fit_loop fuel a.memory (align_up size) null a.first_free
  some (take_chunk a (align_up size) found)

-- `while (next && (next < chunk))`.
unfoldable pub before_loop : ℕ → Memory → (chunk prev next : ℕ) → Option Place
before_loop zero m chunk prev next = none
before_loop (suc fuel) m chunk prev next =
    let round = before_loop fuel m chunk next (m.next next) in
    if not (next == null) && ltb next chunk then round else some (record { prev = prev; pt = next })

-- The header of the chunk that comes back, joined with the next one where they touch.
unfoldable pub join_next : (chunk size next : ℕ) → Memory → Memory
join_next chunk size next m =
    if u32 (chunk + size) == next
    then set_next chunk (m.next next) (set_size chunk (u32 (size + m.size next)) m)
    else set_next chunk next (set_size chunk size m)

-- The link to it, joined with the previous one where they touch.
unfoldable pub join_prev : (chunk prev : ℕ) → Malloc → Malloc
join_prev chunk prev a =
    let m = a.memory in
    if not (prev == null)
    then if u32 (prev + m.size prev) == chunk
      then record a {
        memory = set_next prev (m.next chunk) (set_size prev (u32 (m.size prev + m.size chunk)) m);
      }
      else record a { memory = set_next prev chunk m }
    else record a { first_free = chunk }

unfoldable pub malloc_free : ℕ → Malloc → (chunk size : ℕ) → Option Malloc
unfolding before_loop join_next join_prev
malloc_free fuel a chunk size = do
  found ← before_loop fuel a.memory chunk null a.first_free
  let joined = join_next chunk (align_up size) found.pt a.memory
  some (join_prev chunk found.prev (record a { memory = joined }))

-- `sizeof(malloc_chunk_t)`: three words.
abbrev pub header_size : ℕ
header_size = 12

-- `__malloc_align`: what comes before and behind the aligned chunk is given back.
unfoldable pub malloc_align : ℕ → Malloc → (size align : ℕ) → Option (ℕ × Malloc)
unfolding malloc malloc_free
malloc_align fuel a size align = if slt32 align header_size then malloc fuel a size else do
  let size_align = u32 (size + align + header_size * 2)
  (result, a) ← malloc fuel a size_align
  if result == null then some (null, a) else do
    let first = bit_and (sub32 (u32 (result + align)) 1) (sub32 0 align)
    let headersize = sub32 first result
    let result_align =
        if not (headersize == 0) && ltb headersize header_size then u32 (first + align) else first
    a ← (if not (headersize == 0) then malloc_free fuel a result headersize else some a)
    a ← malloc_free fuel a (u32 (result_align + size)) (sub32 (sub32 size_align headersize) size)
    some (result_align, a)
