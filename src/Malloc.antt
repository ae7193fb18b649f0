-- ===== src/Malloc.antt =====
-- cmake/targets/gvsoc/libc/malloc: the allocator whose caller remembers the sizes. A free chunk
-- begins with its own header, so the free list lies in the memory that it describes.
pub mod Heap
pub mod Info
pub mod Internal
pub mod Chunks
pub mod Chain
pub mod Links
pub mod Alloc
pub mod Blocks
pub mod Release
pub mod Gaps
pub mod Restore
pub mod Examples
