-- ===== src/Heap/Start.antt =====
-- heap_init of heap.c on top of the page allocator.
use apsyde.Heap.State.{
  Heap, panicked, heap_init, init_at, write_free_header, header_size, heap_initial_pages,
  heap_magic_free, write,
}
use apsyde.Heap.Segs.{occurs, write_self}
use apsyde.Heap.Shape.{Shape}
use apsyde.Heap.Invariant.{WellFormed, Returns}
use apsyde.Pmm.State.{Pmm, null, page_size}
use apsyde.Pmm.Alloc.Runs.{alloc_pages_outcome, IsFreeRun}
use apsyde.Common.{
  ℕ, ◌+◌, ◌-◌, ◌*◌, ◌%◌, ◌^◌, ◌≤◌, ◌<◌, ◌≡◌, refl, ◌≢◌, ◌⊎◌, inl, inr, [], ◌∷◌, arith, ==_ne, u32,
  u64, sub64,
}
use apsyde.Pmm.Invariant.{Inv as PageInv}

init-Shape :
    (base n : ℕ) (magic size : ℕ → ℕ)
    → base % 16 ≡ 0
    → n % 16 ≡ 0
    → 0 < n
    → Shape base
        (base + header_size + n)
        (write magic base heap_magic_free)
        (write size base n)
        (base ∷ [])
        (base ∷ [])
unfolding occurs
init-Shape base n magic size aligned whole some_room = record {
  tiles = (refl, rw (write_self size base n) refl);
  headers = λ x k. record {
    marked = ground (arith, k);
    whole = ground (arith, k, whole);
    roomy = ground (arith, k, some_room);
    aligned = ground (arith, k, aligned);
  };
  listed = λ x. ground arith;
}

-- On memory that begins at a multiple of 16 and does not wrap, the heap is one free block.
pub init_at-WellFormed :
    (base : ℕ) (h : Heap)
    → base ≢ null
    → base % 16 ≡ 0
    → base + 2 ^ 20 < 2 ^ 64
    → Returns WellFormed (init_at base h)
unfolding init_at write_free_header
init_at-WellFormed base h there aligned fits =
    let n = 2 ^ 20 - header_size in
    let stop_is : u64 (base + heap_initial_pages * page_size) ≡ base + 2 ^ 20 =
      omega (arith, fits) in
    let n_is : u32 (sub64 (base + 2 ^ 20) base - header_size) ≡ n = omega (arith, fits) in
    let stop_parts : base + 2 ^ 20 ≡ base + header_size + n = omega arith in
    rw (==_ne base null there, stop_is, n_is)
      record {
        blocks = base ∷ [];
        free = base ∷ [];
        inv = record {
          low = ground (arith, there);
          extent = refl;
          no_wrap = fits;
          shape =
              rw stop_parts (init-Shape base n h.magic h.size aligned (omega arith) (omega arith));
          chain = (refl, there, write_self h.next_free base null);
          total = refl;
          free = refl;
        };
      }

panics : (h : Heap) → init_at null h ≡ panicked
unfolding init_at
panics h = refl

-- While the page allocator's invariant holds, either heap_init returns and leaves a well-formed
-- heap; or no run of 256 free pages exists, and it panics.
pub heap_init_lem :
    (s : Pmm) (h : Heap)
    → PageInv s
    → Returns WellFormed (heap_init s h).1
      ⊎ (((heap_init s h).1 ≡ panicked)
          × ((a : ℕ) → a + 256 ≤ s.bitmap_pages → ¬ IsFreeRun s 256 a))
unfolding heap_init
heap_init_lem s h v = elim (alloc_pages_outcome 256 s v (omega arith)) [
  | inl (start, t) ↦
      let there : s.cover_lo + start * page_size ≢ null = λ e. omega (arith, e, v.positive) in
      inl (
        rw t.address (
          init_at-WellFormed (s.cover_lo + start * page_size) h there (omega (arith, v.aligned))
            (omega (arith, t.in_range, v.covered, v.no_wrap))))
  | inr n ↦ inr (rw n.refused (panics h), n.no_run)
]
