-- ===== src/Pmm.antt =====
-- kernel/mm/pmm.c and pmm.h: the physical page allocator, a bitmap with one bit for each 4 KiB page.
pub mod Bitmap
pub mod State
pub mod Alloc
pub mod Invariant
pub mod Init
mod Tests
