-- ===== src/Pmm/Init.antt =====
-- pmm_init of pmm.c with classify_uefi_type and add_region, from the memory map of boot_info.h.
-- The messages that it prints are left out. The linker's symbols are arguments.
pub mod Marks
pub mod Regions
pub mod Scan
pub mod Safety
pub mod Valid
pub mod Protect
use apsyde.Common.{
  ℕ, zero, suc, ◌+◌, ◌-◌, ◌*◌, ◌/◌, ◌^◌, Option, none, some, List, [], ◌∷◌, ◌++◌, Bool, not, ◌||◌,
  bit_and, u64, sub64, ltb, leb, ◌==◌, if◌then◌else◌, length,
}
use apsyde.Pmm.Bitmap.{Bitmap, bitmap_size, store, bitmap_test, bitmap_set, bitmap_clear, set_bits}
use apsyde.Pmm.State.{Pmm, Region, page_size, null, phys_to_bit}

-- `mem_desc_t`; the fields that the kernel does not read are left out.
pub record MemDesc : Type 0 where
  pub kind : ℕ
  pub physical_start : ℕ
  pub number_of_pages : ℕ

-- The part of `boot_info_t` that pmm_init reads. `memory_map` is the address of the map, and `desc`
-- reads the descriptor at the given offset from it.
pub record MemoryMap : Type 0 where
  pub memory_map : ℕ
  pub memory_map_size : ℕ
  pub descriptor_size : ℕ
  pub desc : ℕ → MemDesc

-- __kernel_start, __kernel_end, __stack_bottom and __stack_top.
pub record Layout : Type 0 where
  pub kernel_start : ℕ
  pub kernel_end : ℕ
  pub stack_bottom : ℕ
  pub stack_top : ℕ

-- `panicked` ends the system; `fault` is the division by a descriptor size of 0.
pub data Outcome : Type 0 where
  done : Pmm → Outcome
  panicked fault : Outcome

abbrev pub usable : ℕ
usable = 1

abbrev pub reserved : ℕ
reserved = 2

abbrev pub acpi : ℕ
acpi = 8

abbrev pub boot_services_code : ℕ
boot_services_code = 3

abbrev pub boot_services_data : ℕ
boot_services_data = 4

abbrev pub conventional_memory : ℕ
conventional_memory = 7

abbrev pub acpi_reclaim_memory : ℕ
acpi_reclaim_memory = 9

abbrev pub max_regions : ℕ
max_regions = 128

-- The cases of the switch that share the default's result are under it.
unfoldable pub classify_uefi_type : ℕ → ℕ
classify_uefi_type t =
    if t == conventional_memory
    then usable
    else if t == 1 || t == 2
    then reserved
    else if t == boot_services_code || t == boot_services_data
    then usable
    else if t == 5 || t == 6
    then reserved
    else if t == acpi_reclaim_memory
    then acpi
    else reserved

unfoldable pub add_region : Region → Pmm → Pmm
add_region r s =
    if leb max_regions (length s.regions) then s else record s { regions = s.regions ++ (r ∷ []) }

-- The variables of the first pass.
pub record Pass1 : Type 0 where
  pub pmm : Pmm
  pub lo : ℕ
  pub hi : ℕ

abbrev pub is_usable : ℕ → Bool
is_usable flags = not (bit_and flags usable == 0)

abbrev pub region_of : MemDesc → ℕ → Region
region_of d flags = record {
  base = d.physical_start;
  pages = d.number_of_pages;
  kind = d.kind;
  flags = flags;
}

-- One round of the first pass.
unfoldable pub scan_desc : MemDesc → Pass1 → Pass1
scan_desc d p =
    let flags = classify_uefi_type d.kind in
    let end_addr = u64 (d.physical_start + u64 (d.number_of_pages * page_size)) in
    let added = add_region (region_of d flags) p.pmm in
    if d.number_of_pages == 0
    then p
    else if ltb d.physical_start 0x100000
    then record p { pmm = add_region (region_of d reserved) p.pmm }
    else if not (is_usable flags)
    then (if leb 256 d.number_of_pages then record p { pmm = added } else p)
    else record {
      pmm = record added { total_pages = u64 (added.total_pages + d.number_of_pages) };
      lo = if ltb d.physical_start p.lo then d.physical_start else p.lo;
      hi = if ltb p.hi end_addr then end_addr else p.hi;
    }

unfoldable pub scan_map : MemoryMap → ℕ → ℕ → Pass1 → Pass1
scan_map m zero i p = p
scan_map m (suc left) i p = scan_map m left (i + 1) (scan_desc (m.desc (i * m.descriptor_size)) p)

-- `for (i = 0; i < n; i++) g_bitmap[i] = 0;`
unfoldable pub zero_bytes : ℕ → ℕ → Bitmap → Bitmap
zero_bytes zero i bm = bm
zero_bytes (suc left) i bm = zero_bytes left (i + 1) (store bm i 0)

-- The third pass: the bitmap and the local `free_pages`.
abbrev pub Marks : Type 0
Marks = Bitmap × ℕ

unfoldable pub release_run : ℕ → ℕ → ℕ → Marks → Marks
release_run cover zero b m = m
release_run cover (suc left) b m =
    let rest = release_run cover left (u64 (b + 1)) (bitmap_clear m.0 b, u64 (m.1 + 1)) in
    if leb cover b then m else rest

unfoldable pub release_regions : ℕ → ℕ → List Region → Marks → Marks
release_regions lo cover [] m = m
release_regions lo cover (r ∷ rs) m = release_regions lo cover rs (
    if not (is_usable r.flags)
    then m
    else release_run cover r.pages (sub64 r.base lo / page_size) m)

-- The loop that passes 4, 5 and 6 share: mark a run of pages used.
unfoldable pub reserve_run : ℕ → ℕ → ℕ → Marks → Marks
reserve_run cover zero b m = m
reserve_run cover (suc left) b m =
    let m' = (if not (bitmap_test m.0 b) then (bitmap_set m.0 b, sub64 m.1 1) else m) in
    let rest = reserve_run cover left (u64 (b + 1)) m' in if leb cover b then m else rest

-- Passes 4 and 5: the pages from `from` up to `to`, an image of the linker.
unfoldable pub reserve_image : Pmm → ℕ → ℕ → Marks → Marks
reserve_image s from to m =
    let start = bit_and from 0xffff_ffff_ffff_f000 in
    let stop = bit_and (u64 (to + page_size - 1)) 0xffff_ffff_ffff_f000 in
    let count = sub64 stop start / page_size in
    elim (phys_to_bit s start) [ none ↦ m | some bit ↦ reserve_run s.bitmap_pages count bit m ]

unfoldable pub reserve_boot_services : ℕ → ℕ → List Region → Marks → Marks
reserve_boot_services lo cover [] m = m
reserve_boot_services lo cover (r ∷ rs) m = reserve_boot_services lo cover rs (
    if r.kind == boot_services_code || r.kind == boot_services_data
    then reserve_run cover r.pages (sub64 r.base lo / page_size) m
    else m)

-- Passes 2 to 6, once the cover is known to fit the bitmap.
unfoldable pub build_bitmap : Layout → Pmm → Pmm
build_bitmap l s =
    let cover = s.bitmap_pages in
    let bytes = (cover + 7) / 8 in
    let full = set_bits cover 0 (zero_bytes bytes 0 s.bitmap) in
    let released = release_regions s.cover_lo cover s.regions (full, 0) in
    let kernel = reserve_image s l.kernel_start l.kernel_end released in
    let stack = reserve_image s l.stack_bottom l.stack_top kernel in
    let (bm, free) = reserve_boot_services s.cover_lo cover s.regions stack in
    record s { bitmap = bm; free_pages = free }

-- What follows the first pass.
unfoldable pub finish_init : Layout → Pass1 → Outcome
finish_init l p =
    let cover = sub64 p.hi p.lo / page_size in
    let covered = record (p.pmm) { cover_lo = p.lo; cover_hi = p.hi; bitmap_pages = cover } in
    if p.pmm.total_pages == 0
    then panicked
    else if ltb bitmap_size ((cover + 7) / 8)
    then panicked
    else done (build_bitmap l covered)

unfoldable pub pmm_init : Option MemoryMap → Layout → Pmm → Outcome
pmm_init none l s = panicked
pmm_init (some m) l s =
    let start = record s { regions = []; total_pages = 0; free_pages = 0 } in
    let p =
      scan_map m (m.memory_map_size / m.descriptor_size) 0
        (record { pmm = start; lo = 2 ^ 64 - 1; hi = 0 }) in
    if m.memory_map == null
    then panicked
    else if m.descriptor_size == 0
    then fault
    else finish_init l p
