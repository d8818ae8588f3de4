-- ===== src/Pmm/Tests.antt =====
-- Runs of the model of pmm.c, and the theorems about it at concrete states.
use apsyde.Common.{
  ◌+◌, ◌-◌, ◌*◌, ◌^◌, ◌≤◌, ◌≡◌, refl, ◌≢◌, ◌⊎◌, true, false, some, [], arith, ◌==◌, if◌then◌else◌,
}
use apsyde.Pmm.Alloc.{alloc_pages, free_pages, alloc_pages_from}
use apsyde.Pmm.Alloc.Reuse.{GivenBack, alloc_pages_disjoint, free_pages-alloc_pages}
use apsyde.Pmm.State.{Pmm, null, bit_to_phys, phys_to_bit}
use apsyde.Pmm.Alloc.Free.{Marked, free_pages-Marked}
use apsyde.Pmm.Invariant.{Inv}
use apsyde.Pmm.Init.{
  MemoryMap, scan_map, Layout, pmm_init, scan_desc, finish_init, add_region, classify_uefi_type,
  build_bitmap, release_regions, release_run, zero_bytes, reserve_image, reserve_run,
  reserve_boot_services, done,
}
use apsyde.Pmm.Bitmap.Count.{free_below}
use apsyde.Pmm.Bitmap.Laws.{IsBytes}
use apsyde.Pmm.Alloc.Runs.{alloc_pages_outcome, Attempt}
use apsyde.Pmm.Bitmap.{bitmap_test, set_bits, bitmap_set, bitmap_clear}
use apsyde.Pmm.Init.Scan.{WellFormed}
use apsyde.Pmm.Init.Valid.{pmm_init-Inv}
use apsyde.Pmm.Init.Protect.{Any, pmm_init_image_used, Provides, kernel, pmm_init_free_page}

-- Eight pages from 1 MiB on; pages 0, 1 and 4 are used.
abbrev sample : Pmm
sample = record {
  bitmap = λ j. if j == 0 then 0x13 else 0;
  bitmap_pages = 8;
  regions = [];
  total_pages = 8;
  free_pages = 5;
  cover_lo = 0x10_0000;
  cover_hi = 0x10_8000;
}

sample-IsBytes : IsBytes sample.bitmap
sample-IsBytes j = ground arith

sample-Inv : Inv sample
unfolding free_below bitmap_test
sample-Inv = record {
  bytes = sample-IsBytes;
  counted = refl;
  fits = omega arith;
  aligned = refl;
  positive = omega arith;
  covered = omega arith;
  no_wrap = omega arith;
}

alloc_two : (alloc_pages 2 sample).0 ≡ 0x10_2000
unfolding alloc_pages alloc_pages_from bitmap_test bit_to_phys
alloc_two = refl

alloc_three : (alloc_pages 3 sample).0 ≡ 0x10_5000
unfolding alloc_pages alloc_pages_from bitmap_test bit_to_phys
alloc_three = refl

alloc_four : (alloc_pages 4 sample).0 ≡ null
unfolding alloc_pages alloc_pages_from bitmap_test
alloc_four = refl

alloc_pages_outcome_example : Attempt sample 3 (alloc_pages 3 sample)
alloc_pages_outcome_example = alloc_pages_outcome 3 sample sample-Inv (omega arith)

free_pages-Marked_example : Marked false 2 0 sample (free_pages 0x10_0000 2 sample)
free_pages-Marked_example =
    free_pages-Marked 0x10_0000 2 sample 0 sample-Inv (omega arith) (omega arith) refl

two_there : (alloc_pages 2 sample).0 ≢ null
two_there = rw alloc_two (λ e. omega arith)

free_pages-alloc_pages_example :
    GivenBack sample (free_pages (alloc_pages 2 sample).0 2 (alloc_pages 2 sample).1)
free_pages-alloc_pages_example = free_pages-alloc_pages 2 sample sample-Inv (omega arith) two_there

then_three : (alloc_pages 3 (alloc_pages 2 sample).1).0 ≡ 0x10_5000
unfolding alloc_pages alloc_pages_from bitmap_test bit_to_phys set_bits bitmap_set
then_three = refl

alloc_pages_disjoint_example :
    ((alloc_pages 2 sample).0 + 2 * 4096 ≤ (alloc_pages 3 (alloc_pages 2 sample).1).0)
    ⊎ ((alloc_pages 3 (alloc_pages 2 sample).1).0 + 3 * 4096 ≤ (alloc_pages 2 sample).0)
alloc_pages_disjoint_example =
    alloc_pages_disjoint 2 3 sample sample-Inv (omega arith) (omega arith) two_there
      (rw then_three (λ e. omega arith))

-- A map of four descriptors: low memory, then 4 pages of RAM, 2 of the boot services, 4 of RAM.
abbrev small_map : MemoryMap
small_map = record {
  memory_map = 0x5000;
  memory_map_size = 192;
  descriptor_size = 48;
  desc = λ o.
      if o == 0
      then record { kind = 7; physical_start = 0x1000; number_of_pages = 2 }
      else if o == 48
      then record { kind = 7; physical_start = 0x10_0000; number_of_pages = 4 }
      else if o == 96
      then record { kind = 4; physical_start = 0x10_4000; number_of_pages = 2 }
      else record { kind = 7; physical_start = 0x10_6000; number_of_pages = 4 };
}

abbrev layout : Layout
layout = record {
  kernel_start = 0x10_1000;
  kernel_end = 0x10_2010;
  stack_bottom = 0x10_7000;
  stack_top = 0x10_8000;
}

abbrev before : Pmm
before = record {
  bitmap = λ j. 0;
  bitmap_pages = 0;
  regions = [];
  total_pages = 0;
  free_pages = 0;
  cover_lo = 0;
  cover_hi = 0;
}

abbrev built : Pmm
unfolding scan_map scan_desc add_region classify_uefi_type
built = build_bitmap layout (
    let p = scan_map small_map 4 0 (record { pmm = before; lo = 2 ^ 64 - 1; hi = 0 }) in
    record (p.pmm) { cover_lo = p.lo; cover_hi = p.hi; bitmap_pages = 10 })

-- Free: pages 0 and 3 of the first region, pages 6, 8 and 9 of the last.
init_runs : (pmm_init (some small_map) layout before ≡ done built) × (built.free_pages ≡ 5)
unfolding pmm_init finish_init scan_map scan_desc add_region classify_uefi_type build_bitmap
    release_regions release_run zero_bytes set_bits bitmap_set bitmap_clear bitmap_test
    reserve_image reserve_run reserve_boot_services phys_to_bit
init_runs = (refl, refl)

small_map-WellFormed : WellFormed small_map 4
small_map-WellFormed = record {
  aligned = λ i h. ground arith;
  no_wrap = λ i h. ground arith;
  apart = λ i k h p. ground arith;
}

built_free : bitmap_test built.bitmap 3 ≡ false
unfolding pmm_init finish_init scan_map scan_desc add_region classify_uefi_type build_bitmap
    release_regions release_run zero_bytes set_bits bitmap_set bitmap_clear bitmap_test
    reserve_image reserve_run reserve_boot_services phys_to_bit
built_free = refl

pmm_init-Inv_example : Inv built
pmm_init-Inv_example =
    pmm_init-Inv small_map layout before built small_map-WellFormed (λ j. omega arith) init_runs.0

pmm_init_free_page_example : Any (Provides 0x10_3000) built.regions
unfolding built build_bitmap
pmm_init_free_page_example =
    pmm_init_free_page small_map layout before built 3 small_map-WellFormed (λ j. omega arith)
      init_runs.0 (omega arith) built_free

pmm_init_image_used_example : bitmap_test built.bitmap 2 ≡ true
unfolding built build_bitmap
pmm_init_image_used_example =
    pmm_init_image_used small_map layout before built kernel 2 1 small_map-WellFormed
      (λ j. omega arith) init_runs.0 (omega arith) (omega arith) (omega arith) refl (omega arith)
      (omega arith) (omega arith)
