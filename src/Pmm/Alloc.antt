-- ===== src/Pmm/Alloc.antt =====
-- pmm_alloc_page(s), pmm_free_page(s) and pmm_region_set_used. Each returns the new state; a pointer
-- is a number, and NULL is 0. A loop recurs on the rounds that are left.
pub mod FirstFit
pub mod Runs
pub mod Free
pub mod Reuse
use apsyde.Common.{
  ℕ, zero, suc, ◌+◌, ◌-◌, none, some, Bool, not, ◌&&◌, bit_and, u64, sub64, ltb, leb, ◌==◌,
  if◌then◌else◌,
}
use apsyde.Pmm.Bitmap.{bitmap_test, bitmap_set, bitmap_clear, set_bits}
use apsyde.Pmm.State.{Pmm, null, phys_to_bit, bit_to_phys}

-- The loop of pmm_alloc_page at index `i`, with `left` rounds left.
unfoldable pub alloc_page_from : ℕ → ℕ → Pmm → ℕ × Pmm
alloc_page_from zero i s = (null, s)
alloc_page_from (suc left) i s =
    let rest = alloc_page_from left (i + 1) s in
    if not (bitmap_test s.bitmap i)
    then (
      bit_to_phys s i,
      record s { bitmap = bitmap_set s.bitmap i; free_pages = sub64 s.free_pages 1 },
    )
    else rest

unfoldable pub alloc_page : Pmm → ℕ × Pmm
alloc_page s = if s.free_pages == 0 then (null, s) else alloc_page_from s.bitmap_pages 0 s

-- The loop of pmm_alloc_pages.
unfoldable pub alloc_pages_from : ℕ → ℕ → ℕ → ℕ → Pmm → ℕ × Pmm
alloc_pages_from count zero i run s = (null, s)
alloc_pages_from count (suc left) i run s =
    let skip = alloc_pages_from count left (i + 1) 0 s in
    let more = alloc_pages_from count left (i + 1) (run + 1) s in
    let start = i + 1 - count in
    if bitmap_test s.bitmap i
    then skip
    else if run + 1 == count
    then (
      bit_to_phys s start,
      record s { bitmap = set_bits count start s.bitmap; free_pages = sub64 s.free_pages count },
    )
    else more

unfoldable pub alloc_pages : ℕ → Pmm → ℕ × Pmm
alloc_pages count s =
    if count == 0
    then (null, s)
    else if count == 1
    then alloc_page s
    else if ltb s.free_pages count
    then (null, s)
    else alloc_pages_from count s.bitmap_pages 0 0 s

-- The loop of pmm_free_pages at bit `b`.
unfoldable pub free_pages_from : ℕ → ℕ → Pmm → Pmm
free_pages_from zero b s = s
free_pages_from (suc left) b s =
    let s' =
      (if bitmap_test s.bitmap b
        then record s { bitmap = bitmap_clear s.bitmap b; free_pages = u64 (s.free_pages + 1) }
        else s) in
    let rest = free_pages_from left (b + 1) s' in if leb s.bitmap_pages b then s else rest

unfoldable pub free_pages : ℕ → ℕ → Pmm → Pmm
free_pages phys count s =
    if phys == null
    then s
    else if count == 0
    then s
    else elim (phys_to_bit s phys) [ none ↦ s | some bit ↦ free_pages_from count bit s ]

unfoldable pub free_page : ℕ → Pmm → Pmm
free_page phys s = free_pages phys 1 s

-- The body and the loop of pmm_region_set_used.
unfoldable pub set_used_step : Bool → ℕ → Pmm → Pmm
set_used_step used b s =
    if used && not (bitmap_test s.bitmap b)
    then record s { bitmap = bitmap_set s.bitmap b; free_pages = sub64 s.free_pages 1 }
    else if not used && bitmap_test s.bitmap b
    then record s { bitmap = bitmap_clear s.bitmap b; free_pages = u64 (s.free_pages + 1) }
    else s

unfoldable pub set_used_from : Bool → ℕ → ℕ → Pmm → Pmm
set_used_from used zero b s = s
set_used_from used (suc left) b s =
    let rest = set_used_from used left (b + 1) (set_used_step used b s) in
    if leb s.bitmap_pages b then s else rest

unfoldable pub region_set_used : ℕ → ℕ → Bool → Pmm → Pmm
region_set_used base pages used s = elim (phys_to_bit s (bit_and base (0xffff_ffff_ffff_f000))) [
  | none ↦ s
  | some bit ↦ set_used_from used pages bit s
]
