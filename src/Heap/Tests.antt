-- ===== src/Heap/Tests.antt =====
-- Runs of heap.c on a heap with one used block of 32 bytes and a free block behind it.
use apsyde.Pmm.Invariant.{Inv as PageInv}
use apsyde.Heap.State.{Heap, panicked, heap_magic_free, heap_magic_used, header_size, heap_init}
use apsyde.Heap.Ops.{heap_alloc, heap_free, heap_calloc}
use apsyde.Heap.Stats.{HeapStats, heap_check, heap_get_stats}
use apsyde.Heap.Segs.{occurs}
use apsyde.Heap.Shape.{IsHeader}
use apsyde.Heap.Invariant.{Inv, WellFormed, Returns}
use apsyde.Heap.Search.{first_fit}
use apsyde.Heap.Answer.{heap_alloc_lem, heap_alloc-WellFormed, Answered, NoSliver}
use apsyde.Heap.Free.{heap_free-WellFormed}
use apsyde.Heap.Misuse.{heap_free-twice}
use apsyde.Heap.Sliver.{heap_alloc-sliver, IsSliver}
use apsyde.Heap.Report.{heap_get_stats_lem, Counted}
use apsyde.Heap.Calloc.{heap_calloc_lem, CallocAnswer}
use apsyde.Common.{
  ℕ, ◌+◌, ◌-◌, ◌*◌, ◌/◌, ◌^◌, ◌<◌, ◌≡◌, refl, sym, ap, inl, inr, true, some-injective, some, List,
  [], ◌∷◌, arith, ◌==◌, if◌then◌else◌, Bool-cases, ◌≤◌, ◌⊎◌,
}
use apsyde.Pmm.State.{Pmm}
use apsyde.Pmm.Bitmap.Count.{free_below}
use apsyde.Pmm.Bitmap.{bitmap_test}
use apsyde.Pmm.Alloc.Runs.{IsFreeRun}
use apsyde.Heap.Start.{heap_init_lem}

abbrev base : ℕ
base = 0x10_0000

abbrev second : ℕ
second = base + 64

abbrev free_size : ℕ
free_size = 2 ^ 20 - 96

abbrev sample : Heap
sample = record {
  heap_start = base;
  heap_end = base + 2 ^ 20;
  free_list = second;
  alloc_count = 1;
  free_count = 0;
  total_blocks = 2;
  free_blocks = 1;
  magic = λ x. if x == base then heap_magic_used else if x == second then heap_magic_free else 0;
  size = λ x. if x == base then 32 else if x == second then free_size else 0;
  next_free = λ x. 0;
  flags = λ x. if x == second then 1 else 0;
  pad0 = λ x. 0;
  pad1 = λ x. 0;
  bytes = λ x. 7;
}

abbrev blocks : List ℕ
blocks = base ∷ (second ∷ [])

abbrev free : List ℕ
free = second ∷ []

sample-IsHeader : (x : ℕ) → 0 < occurs x blocks → IsHeader sample.magic sample.size x
unfolding occurs
sample-IsHeader x k = elim (Bool-cases (x == base)) [
  | inl e ↦ record {
    marked = ground (arith, e);
    whole = ground (arith, e);
    roomy = ground (arith, e);
    aligned = ground (arith, e);
  }
  | inr e ↦
      let q : (x == second) ≡ true = ground (arith, e, k) in
      record {
        marked = ground (arith, e, q);
        whole = ground (arith, e, q);
        roomy = ground (arith, e, q);
        aligned = ground (arith, e, q);
      }
]

sample_listed :
    (x : ℕ) → occurs x free ≡ (if sample.magic x == heap_magic_free then occurs x blocks else 0)
unfolding occurs
sample_listed x = ground arith

sample-Inv : Inv sample blocks free
sample-Inv = record {
  low = omega arith;
  extent = refl;
  no_wrap = omega arith;
  shape = record {
    tiles = (refl, (refl, refl));
    headers = sample-IsHeader;
    listed = sample_listed;
  };
  chain = (refl, (λ e. omega (arith, e)), refl);
  total = refl;
  free = refl;
}

base_in : 0 < occurs base blocks
unfolding occurs
base_in = omega arith

heap_alloc_lem_example : Returns (Answered sample blocks free 100) (heap_alloc 100 sample)
heap_alloc_lem_example = heap_alloc_lem sample blocks free 100 sample-Inv (omega arith)

first_block : (b : ℕ) → first_fit sample.size 112 free ≡ some b → sample.size b ≡ free_size
unfolding first_fit
first_block b e = ap sample.size (sym (some-injective second b e))

no_sliver : NoSliver sample free ((100 + 15) / 16 * 16)
no_sliver b e = ((λ q. omega (arith, first_block b e, q)), (λ q. omega (arith, first_block b e, q)))

heap_alloc-WellFormed_example : Returns (λ r. WellFormed (r.1)) (heap_alloc 100 sample)
heap_alloc-WellFormed_example =
    heap_alloc-WellFormed sample blocks free 100 sample-Inv (omega arith) no_sliver

heap_free-WellFormed_example : Returns WellFormed (heap_free (base + header_size) sample)
heap_free-WellFormed_example = heap_free-WellFormed sample blocks free base sample-Inv base_in refl

heap_free-twice_example :
    Returns
      (λ g. heap_free (base + header_size) g ≡ panicked)
      (heap_free (base + header_size) sample)
heap_free-twice_example = heap_free-twice sample blocks free base sample-Inv base_in refl

heap_get_stats_lem_example :
    (st : HeapStats) × (heap_get_stats sample ≡ some st) × Counted sample blocks st
heap_get_stats_lem_example = heap_get_stats_lem sample blocks free sample-Inv

heap_calloc_lem_example :
    Returns (CallocAnswer sample blocks free (10 * 8)) (heap_calloc 10 8 sample)
heap_calloc_lem_example = heap_calloc_lem sample blocks free 10 8 sample-Inv (inl (omega arith))

-- A request that leaves 16 bytes of the free block.
sliver_first : first_fit sample.size ((1048464 + 15) / 16 * 16) free ≡ some second
unfolding first_fit
sliver_first = refl

sliver : IsSliver sample ((1048464 + 15) / 16 * 16) second
sliver = record {
  left_over = inl refl;
  not_free = λ e. omega (arith, e);
  not_used = λ e. omega (arith, e);
}

heap_alloc-sliver_example : Returns (λ r. heap_check (r.1) ≡ some 0) (heap_alloc 1048464 sample)
heap_alloc-sliver_example =
    heap_alloc-sliver sample blocks free 1048464 second sample-Inv (omega arith) (omega arith)
      sliver_first sliver

-- 300 free pages from 1 MiB on.
abbrev pages : Pmm
pages = record {
  bitmap = λ j. 0;
  bitmap_pages = 300;
  regions = [];
  total_pages = 300;
  free_pages = 300;
  cover_lo = 0x10_0000;
  cover_hi = 0x10_0000 + 300 * 4096;
}

pages-Inv : PageInv pages
unfolding free_below bitmap_test
pages-Inv = record {
  bytes = λ j. ground arith;
  counted = refl;
  fits = omega arith;
  aligned = refl;
  positive = omega arith;
  covered = omega arith;
  no_wrap = omega arith;
}

heap_init_lem_example :
    Returns WellFormed (heap_init pages sample).1
    ⊎ (((heap_init pages sample).1 ≡ panicked)
        × ((a : ℕ) → a + 256 ≤ pages.bitmap_pages → ¬ IsFreeRun pages 256 a))
heap_init_lem_example = heap_init_lem pages sample pages-Inv
