-- ===== src/Pmm/Invariant.antt =====
-- The invariant of the state of pmm.c after pmm_init, and the address arithmetic under it.
use apsyde.Common.{ℕ, ◌+◌, ◌*◌, ◌%◌, ◌^◌, ◌≤◌, ◌<◌, ◌≡◌, some, arith}
use apsyde.Common.Bits.{bit_and_mask}
use apsyde.Pmm.Bitmap.{Bitmap, bitmap_size}
use apsyde.Pmm.Bitmap.Laws.{IsBytes}
use apsyde.Pmm.Bitmap.Count.{free_below, free_below-le}
use apsyde.Pmm.State.{Pmm, page_size, phys_to_bit, bit_to_phys}

-- The bitmap has a bit for each page of the covered range, and `free_pages` counts the clear ones.
pub record Inv (s : Pmm) : Type 0 where
  pub bytes : IsBytes s.bitmap
  pub counted : s.free_pages ≡ free_below s.bitmap s.bitmap_pages
  pub fits : s.bitmap_pages ≤ bitmap_size * 8
  pub aligned : s.cover_lo % page_size ≡ 0
  pub positive : 0 < s.cover_lo
  pub covered : s.cover_lo + s.bitmap_pages * page_size ≤ s.cover_hi
  pub no_wrap : s.cover_hi < 2 ^ 64

pub bit_to_phys-eq :
    (s : Pmm) (i : ℕ) → Inv s → i < s.bitmap_pages → bit_to_phys s i ≡ s.cover_lo + i * page_size
unfolding bit_to_phys
bit_to_phys-eq s i v h = omega arith

pub phys_to_bit-eq :
    (s : Pmm) (i : ℕ)
    → Inv s
    → i < s.bitmap_pages
    → phys_to_bit s (s.cover_lo + i * page_size) ≡ some i
unfolding phys_to_bit
phys_to_bit-eq s i v h =
    ground (arith, bit_and_mask 12 (s.cover_lo + i * page_size), v.aligned, v.covered, v.no_wrap)

-- A page's address leads back to its bit.
pub phys_to_bit-bit_to_phys :
    (s : Pmm) (i : ℕ) → Inv s → i < s.bitmap_pages → phys_to_bit s (bit_to_phys s i) ≡ some i
phys_to_bit-bit_to_phys s i v h = rw (bit_to_phys-eq s i v h) (phys_to_bit-eq s i v h)

-- The counter is far from wrapping.
pub free_pages-le : (s : Pmm) → Inv s → s.free_pages ≤ s.bitmap_pages
free_pages-le s v = omega (arith, v.counted, free_below-le s.bitmap s.bitmap_pages)

-- The invariant after a change of the bitmap and the counter alone.
pub Inv-update :
    (s : Pmm) (bm : Bitmap) (n : ℕ)
    → Inv s
    → IsBytes bm
    → n ≡ free_below bm s.bitmap_pages
    → Inv (record s { bitmap = bm; free_pages = n })
Inv-update s bm n v b e = record {
  bytes = b;
  counted = e;
  fits = v.fits;
  aligned = v.aligned;
  positive = v.positive;
  covered = v.covered;
  no_wrap = v.no_wrap;
}
