-- ===== src/Kheap.antt =====
-- The allocator of A2/allocators/kheap/kheap.c over the data segment of A2/util/memlib.c: small
-- blocks in pages of one size each, large ones in chunks of whole pages. `State` has the data and
-- the data segment, `Subpage` the small blocks, `Big` the large ones, `Malloc` the entry points.
pub mod State
pub mod Subpage
pub mod Big
pub mod Malloc
pub mod Blocks
pub mod Sound
pub mod Pages
pub mod Take
pub mod Modify
pub mod Retag
pub mod Segment
pub mod Refs
pub mod Apart
pub mod Install
pub mod NewPage
pub mod Give
pub mod Sizes
pub mod Search
pub mod Recycle
pub mod PutBack
pub mod Chunks
pub mod BigBlocks
pub mod BigMalloc
pub mod Calls
pub mod Safety
pub mod Contract
pub mod High
pub mod SubpageMalloc
