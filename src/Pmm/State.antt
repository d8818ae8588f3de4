-- ===== src/Pmm/State.antt =====
-- The static state of pmm.c, its address arithmetic and its statistics functions.
use apsyde.Common.{
  ℕ, ◌+◌, ◌-◌, ◌*◌, ◌/◌, Option, none, some, List, not, ◌||◌, bit_and, u64, sub64, ltb, leb, ◌==◌,
  if◌then◌else◌,
}
use apsyde.Pmm.Bitmap.{Bitmap}

abbrev pub page_size : ℕ
page_size = 4096

-- The null pointer.
abbrev pub null : ℕ
null = 0

-- `pmm_region_t`; `type` is `kind` here.
pub record Region : Type 0 where
  pub base : ℕ
  pub pages : ℕ
  pub kind : ℕ
  pub flags : ℕ

-- The table `g_regions` is the list of its first `g_region_count` entries.
pub record Pmm : Type 0 where
  pub bitmap : Bitmap
  pub bitmap_pages : ℕ
  pub regions : List Region
  pub total_pages : ℕ
  pub free_pages : ℕ
  pub cover_lo : ℕ
  pub cover_hi : ℕ

-- `none` is -1. The quotient is below 2^52, so the cast to `int64_t` keeps it.
unfoldable pub phys_to_bit : Pmm → ℕ → Option ℕ
phys_to_bit s phys =
    if ltb phys s.cover_lo || leb s.cover_hi phys
    then none
    else if not (bit_and phys (page_size - 1) == 0)
    then none
    else some (sub64 phys s.cover_lo / page_size)

unfoldable pub bit_to_phys : Pmm → ℕ → ℕ
bit_to_phys s bit = u64 (s.cover_lo + u64 (bit * page_size))

unfoldable pub stat_total_pages : Pmm → ℕ
stat_total_pages s = s.total_pages

unfoldable pub stat_free_pages : Pmm → ℕ
stat_free_pages s = s.free_pages

unfoldable pub stat_used_pages : Pmm → ℕ
stat_used_pages s = sub64 s.total_pages s.free_pages

unfoldable pub stat_total_bytes : Pmm → ℕ
stat_total_bytes s = u64 (s.total_pages * page_size)

unfoldable pub stat_free_bytes : Pmm → ℕ
stat_free_bytes s = u64 (s.free_pages * page_size)
