-- ===== src/Malloc/Heap.antt =====
-- Addresses are `uint32_t`, and `int32_t` sizes are given by their patterns. The memory gives for
-- an address the fields of the `malloc_chunk_t` that begins there; headers lie 8 bytes or more
-- apart, so no two overlap in the fields that are used.
use mlonmcu_sw.Base.{ℕ, ◌+◌, ◌-◌, ◌%◌, ◌==◌}
use mlonmcu_sw.Base.{if◌then◌else◌, u32}

abbrev pub null : ℕ
null = 0

-- The field `addr` is left out, which the internal allocator does not use.
pub record Memory : Type 0 where
  pub size : ℕ → ℕ
  pub next : ℕ → ℕ

-- `malloc_t`, with the memory that its list lies in. No function reads `type`.
pub record Malloc : Type 0 where
  pub first_free : ℕ
  pub memory : Memory

-- `pt->size = v` and `pt->next = v`.
abbrev pub set_size : ℕ → ℕ → Memory → Memory
set_size pt v m = record m { size = λ x. if x == pt then v else m.size x }

abbrev pub set_next : ℕ → ℕ → Memory → Memory
set_next pt v m = record m { next = λ x. if x == pt then v else m.next x }

-- `MIN_CHUNK_SIZE` is 8: the macros clear the three lowest bits.
abbrev pub align_down : ℕ → ℕ
align_down x = x - x % 8

abbrev pub align_up : ℕ → ℕ
align_up x = align_down (u32 (x + 7))
