-- ===== src/Heap/State.antt =====
-- The static state of heap.c, the headers in memory, and heap_init.
use apsyde.Pmm.State.{Pmm, null, page_size}
use apsyde.Pmm.Alloc.{alloc_pages}
use apsyde.Common.{
  ℕ, ◌+◌, ◌-◌, ◌*◌, ◌^◌, bit_and, Bool, ◌&&◌, ltb, leb, ◌==◌, if◌then◌else◌, u32, u64, sub64,
}

abbrev pub header_size : ℕ
header_size = 32

abbrev pub heap_alignment : ℕ
heap_alignment = 16

abbrev pub heap_initial_pages : ℕ
heap_initial_pages = 256

abbrev pub heap_magic_free : ℕ
heap_magic_free = 0xc0ff_ee00

abbrev pub heap_magic_used : ℕ
heap_magic_used = 0xc0ff_ee01

-- The headers are in memory: each field of `block_header_t` is a function of the header's address.
-- `bytes` is the memory between the headers.
pub record Heap : Type 0 where
  pub heap_start : ℕ
  pub heap_end : ℕ
  pub free_list : ℕ
  pub alloc_count : ℕ
  pub free_count : ℕ
  pub total_blocks : ℕ
  pub free_blocks : ℕ
  pub magic : ℕ → ℕ
  pub size : ℕ → ℕ
  pub next_free : ℕ → ℕ
  pub flags : ℕ → ℕ
  pub pad0 : ℕ → ℕ
  pub pad1 : ℕ → ℕ
  pub bytes : ℕ → ℕ

-- What a call leads to: it returns, it panics, or a loop is still running when the fuel is used up.
pub data Result (A : Type 0) : Type 0 where
  ok : A → Result A
  panicked : Result A
  hung : Result A

-- A write to one cell of an array or of the memory.
abbrev pub write : (ℕ → ℕ) → ℕ → ℕ → ℕ → ℕ
write f a v x = if x == a then v else f x

unfoldable pub align_up : ℕ → ℕ
align_up x = bit_and (u64 (x + heap_alignment - 1)) (2 ^ 64 - heap_alignment)

unfoldable pub next_block : Heap → ℕ → ℕ
next_block h b = u64 (b + header_size + h.size b)

-- The header that heap_init and the split of a block write for a free block.
unfoldable pub write_free_header : ℕ → ℕ → ℕ → Heap → Heap
write_free_header b n next h = record h {
  magic = write h.magic b heap_magic_free;
  size = write h.size b n;
  next_free = write h.next_free b next;
  flags = write h.flags b 1;
  pad0 = write h.pad0 b 0;
  pad1 = write h.pad1 b 0;
}

-- heap_init after its call of pmm_alloc_pages.
unfoldable pub init_at : ℕ → Heap → Result Heap
init_at base h =
    if base == null
    then panicked
    else let stop = u64 (base + heap_initial_pages * page_size) in
      ok (
        write_free_header base (u32 (sub64 stop base - header_size)) null record h {
          heap_start = base;
          heap_end = stop;
          free_list = base;
          total_blocks = 1;
          free_blocks = 1;
        })

unfoldable pub heap_init : Pmm → Heap → Pmm × Result Heap
heap_init s h = let taken = alloc_pages heap_initial_pages s in (taken.1, init_at taken.0 h)

unfoldable pub is_in_heap : Heap → ℕ → Bool
is_in_heap h p = leb h.heap_start p && ltb p h.heap_end

unfoldable pub heap_get_range : Heap → ℕ × ℕ
heap_get_range h = (h.heap_start, h.heap_end)
