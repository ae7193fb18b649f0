-- ===== src/Malloc/Examples.antt =====
-- The allocator on two chunks, and on a region of 80 bytes.
use mlonmcu_sw.Base.{
  ℕ, ◌+◌, ◌%◌, ◌<◌, ◌≡◌, refl, arith, false, List, [], ◌∷◌, inl, inr, if◌then◌else◌, ◌==◌, some,
  Option,
}
use mlonmcu_sw.Base.Partial.{Returns, ◌>>=◌}
use mlonmcu_sw.Malloc.Heap.{Memory, Malloc, set_size, set_next}
use mlonmcu_sw.Malloc.Internal.{
  malloc, malloc_free, malloc_info, malloc_init, malloc_align, fit_loop, take_chunk, before_loop,
  join_next, join_prev,
}
use mlonmcu_sw.Malloc.Chunks.{Chunk, chunk, IsFreeList, release}
use mlonmcu_sw.Malloc.Chain.{Chain}
use mlonmcu_sw.Malloc.Links.{Same}
use mlonmcu_sw.Malloc.Info.{malloc_info-Chain, malloc_init-IsFreeList}
use mlonmcu_sw.Malloc.Blocks.{in_block}
use mlonmcu_sw.Malloc.Gaps.{malloc_free-release}
use mlonmcu_sw.Malloc.Restore.{Served, malloc-Served, malloc_free-malloc}

abbrev two : Malloc
two = record {
  first_free = 8;
  memory = record { size = λ x. if x == 8 then 16 else 32; next = λ x. if x == 8 then 40 else 0 };
}

abbrev two_chunks : List Chunk
two_chunks = chunk 8 16 ∷ chunk 40 32 ∷ []

two-Chain : Chain two.memory two.first_free two_chunks
two-Chain = (refl, omega arith, refl, (refl, omega arith, refl, refl))

two-IsFreeList : IsFreeList 1 80 two_chunks
two-IsFreeList = (
  omega arith,
  refl,
  refl,
  omega arith,
  omega arith,
  (omega arith, refl, refl, omega arith, omega arith, tt),
)

malloc_info-Chain_example : malloc_info 3 two ≡ some (48, 2)
malloc_info-Chain_example =
    malloc_info-Chain 3 two 80 two_chunks two-Chain two-IsFreeList (omega arith) (omega arith)

malloc-Served_example : Returns (Served 24 80 two two_chunks) (malloc 3 two 20)
malloc-Served_example =
    malloc-Served 3 two 20 80 two_chunks two-Chain two-IsFreeList (omega arith) (omega arith)
      (omega arith) (omega arith)

-- The memory after 20 bytes were taken from the second chunk.
abbrev taken : Malloc
taken = record two { memory = set_size 40 8 two.memory }

twenty : malloc 3 two 20 ≡ some (48, taken)
unfolding malloc fit_loop take_chunk
twenty = refl

-- The same, after writes to the block.
abbrev written : Memory
written = set_next 56 5 (set_size 56 7 taken.memory)

written-Same : (x : ℕ) → x % 8 ≡ 0 → in_block 48 24 x ≡ false → Same taken.memory written x
written-Same x word out = (ground arith, ground arith)

malloc_free-malloc_example :
    Returns
      (λ b. Chain b.memory b.first_free two_chunks)
      (malloc_free 3 (record taken { memory = written }) 48 20)
malloc_free-malloc_example =
    malloc_free-malloc 3 two 20 80 two_chunks two-Chain two-IsFreeList (omega arith) (omega arith)
      (omega arith) (omega arith) 48 taken twenty (omega arith) written written-Same

-- The gap between the two chunks comes back.
malloc_free-release_example :
    Returns
      (λ b. Chain b.memory b.first_free (release (chunk 24 16) two_chunks))
      (malloc_free 3 two 24 16)
malloc_free-release_example =
    malloc_free-release 3 two 24 16 80 two_chunks two-Chain two-IsFreeList (omega arith)
      (omega arith) refl (omega arith) (omega arith) (inl (omega arith), (inr (omega arith), tt))
      (omega arith)

malloc_init-IsFreeList_example :
    let a = malloc_init 3 30 two.memory in
    (c : Chunk) × Chain a.memory a.first_free (c ∷ [])
    × IsFreeList 3 33 (c ∷ [])
    × (c.addr < 11)
    × (33 < c.addr + c.size + 8)
malloc_init-IsFreeList_example =
    malloc_init-IsFreeList 3 30 two.memory (omega arith) (omega arith) (omega arith)

-- 72 free bytes from address 8 on.
abbrev one : Malloc
one = record { first_free = 8; memory = record { size = λ x. 72; next = λ x. 0 } }

-- 16 bytes on a multiple of 16: the chunk before the block and the chunk behind it hold 24 and 32
-- bytes, though 56 were free beside the block, and the second ends at 96, behind the region.
abbrev layout : ℕ × Malloc → Option (ℕ × ℕ × ℕ)
layout (r, a) = some (r, a.memory.size 8, a.memory.size (a.memory.next 8) + a.memory.next 8)

after_align : malloc_align 5 one 16 16 >>= layout ≡ some (48, 24, 96)
unfolding malloc_align malloc malloc_free fit_loop take_chunk before_loop join_next join_prev
after_align = refl
