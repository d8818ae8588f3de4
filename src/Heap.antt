-- ===== src/Heap.antt =====
-- kernel/mm/heap.c, heap.h and kmalloc.c: the kernel's heap, blocks of memory that lie one after
-- the other behind headers of 32 bytes, the free ones in a linked list.
pub mod State
pub mod Ops
pub mod Stats
pub mod Segs
pub mod Counts
pub mod Search
pub mod Shape
pub mod Merge
pub mod Invariant
pub mod Alloc
pub mod Request
pub mod Answer
pub mod Walk
pub mod Free
pub mod Misuse
pub mod Sliver
pub mod Report
pub mod Calloc
pub mod Start
mod Tests
