-- ===== src/Pmm/Alloc/Free.antt =====
-- pmm_free_pages and pmm_region_set_used of pmm.c: which pages they mark, and the counter.
use apsyde.Common.{
  ℕ, zero, suc, ◌+◌, ◌≤◌, ◌<◌, ◌≡◌, refl, inl, inr, Bool, true, false, arith, leb, ◌==◌,
  if◌then◌else◌, Bool-cases, ◌*◌, ◌/◌, ==_ne, bit_and, some,
}
use apsyde.Pmm.Bitmap.{bitmap_test}
use apsyde.Pmm.Bitmap.Laws.{clear-IsBytes, set-IsBytes, test-set, test-clear, in_run}
use apsyde.Pmm.Bitmap.Count.{free_below-set, free_below-clear, free_below-le}
use apsyde.Pmm.State.{Pmm, null, page_size, phys_to_bit}
use apsyde.Pmm.Invariant.{Inv-update, Inv, phys_to_bit-eq}
use apsyde.Pmm.Alloc.{free_pages_from, set_used_step, set_used_from, free_pages, region_set_used}
use apsyde.Common.Bits.{bit_and_align}

-- `t` is `s` but for the bitmap and the counter.
pub record SameCover (s t : Pmm) : Type 0 where
  pub pages : t.bitmap_pages ≡ s.bitmap_pages
  pub lo : t.cover_lo ≡ s.cover_lo
  pub hi : t.cover_hi ≡ s.cover_hi
  pub total : t.total_pages ≡ s.total_pages
  pub regions : t.regions ≡ s.regions

set_used_step-Inv :
    (used : Bool) (b : ℕ) (s : Pmm) → b < s.bitmap_pages → Inv s → Inv (set_used_step used b s)
unfolding set_used_step
set_used_step-Inv true b s h v = elim (Bool-cases (bitmap_test s.bitmap b)) [
  | inl old ↦ rw old v
  | inr new ↦ rw new (
      Inv-update s _ _ v (set-IsBytes s.bitmap b v.bytes) (
        ground (
          arith,
          v.counted,
          v.fits,
          free_below-set s.bitmap s.bitmap_pages b v.bytes new,
          free_below-le s.bitmap s.bitmap_pages,
        )))
]
set_used_step-Inv false b s h v = elim (Bool-cases (bitmap_test s.bitmap b)) [
  | inl old ↦ rw old (
      Inv-update s _ _ v (clear-IsBytes s.bitmap b v.bytes) (
        ground (
          arith,
          v.counted,
          v.fits,
          free_below-clear s.bitmap s.bitmap_pages b v.bytes old,
          free_below-le s.bitmap s.bitmap_pages,
        )))
  | inr new ↦ rw new v
]

set_used_step-test :
    (used : Bool) (b : ℕ) (s : Pmm) (j : ℕ)
    → Inv s
    → bitmap_test (set_used_step used b s).bitmap j
      ≡ (if b == j then used else bitmap_test s.bitmap j)
unfolding set_used_step
set_used_step-test used b s j v =
    ground (arith, test-set s.bitmap b j v.bytes, test-clear s.bitmap b j v.bytes)

set_used_step-SameCover : (used : Bool) (b : ℕ) (s : Pmm) → SameCover s (set_used_step used b s)
unfolding set_used_step
set_used_step-SameCover used b s = ground arith

pub SameCover-trans : (s t u : Pmm) → SameCover s t → SameCover t u → SameCover s u
SameCover-trans s t u p q = ground arith

-- What a marking loop from bit `b` over `n` pages has done to `s`.
pub record Marked (used : Bool) (n b : ℕ) (s t : Pmm) : Type 0 where
  pub valid : Inv t
  pub cover : SameCover s t
  pub bits :
      (j : ℕ)
      → j < s.bitmap_pages
      → bitmap_test t.bitmap j ≡ (if in_run b n j then used else bitmap_test s.bitmap j)
  pub outside : (j : ℕ) → s.bitmap_pages ≤ j → bitmap_test t.bitmap j ≡ bitmap_test s.bitmap j

pub set_used_from-Marked :
    (used : Bool) (n b : ℕ) (s : Pmm) → Inv s → Marked used n b s (set_used_from used n b s)
unfolding set_used_from
set_used_from-Marked used zero b s v = record {
  valid = v;
  cover = ground arith;
  bits = λ j h. ground arith;
  outside = λ j h. refl;
}
set_used_from-Marked used (suc n) b s v = elim (Bool-cases (leb s.bitmap_pages b)) [
  | inl beyond ↦ rw beyond (record {
    valid = v;
    cover = ground arith;
    bits = λ j h. ground arith;
    outside = λ j h. refl;
  })
  | inr inside ↦
      let t = set_used_step used b s in
      let same : SameCover s t = set_used_step-SameCover used b s in
      let rest =
        set_used_from-Marked used n (b + 1) t (set_used_step-Inv used b s (ground arith) v) in
      rw inside (record {
        valid = rest.valid;
        cover = SameCover-trans s t _ same rest.cover;
        bits = λ j h. ground (arith, rest.bits j, same.pages, set_used_step-test used b s j v);
        outside =
            λ j h. ground (arith, rest.outside j, same.pages, set_used_step-test used b s j v);
      })
]

-- The loop of pmm_free_pages is that of pmm_region_set_used with `used` 0.
free_pages_from-eq : (n b : ℕ) (s : Pmm) → free_pages_from n b s ≡ set_used_from false n b s
unfolding free_pages_from set_used_from set_used_step
free_pages_from-eq zero b s = refl
free_pages_from-eq (suc n) b s = elim (Bool-cases (bitmap_test s.bitmap b)) [
  | inl e ↦ rw (e, free_pages_from-eq n (b + 1))
  | inr e ↦ rw (e, free_pages_from-eq n (b + 1))
]

-- While the invariant holds, marking a range of pages, from an address on whose page is
-- covered, used or free changes the bits of exactly those pages that are covered, keeps the
-- counter right, and nothing else.
pub region_set_used-Marked :
    (base pages : ℕ) (used : Bool) (s : Pmm) (i : ℕ)
    → Inv s
    → i < s.bitmap_pages
    → base / page_size * page_size ≡ s.cover_lo + i * page_size
    → Marked used pages i s (region_set_used base pages used s)
unfolding region_set_used
region_set_used-Marked base pages used s i v h e =
    rw (found, region_set_used) (set_used_from-Marked used pages i s v)
  where
    found : phys_to_bit s (bit_and base 0xffff_ffff_ffff_f000) ≡ some i
    found =
        rw (bit_and_align base (omega (arith, v.covered, v.no_wrap)), e) (phys_to_bit-eq s i v h)

-- While the invariant holds, freeing at least one page, from a covered page's address on, clears
-- the bits of exactly those pages that are covered and counts those that were used.
pub free_pages-Marked :
    (phys count : ℕ) (s : Pmm) (i : ℕ)
    → Inv s
    → i < s.bitmap_pages
    → 0 < count
    → phys ≡ s.cover_lo + i * page_size
    → Marked false count i s (free_pages phys count s)
unfolding free_pages
free_pages-Marked phys count s i v h pos e =
    rw
      (
        ==_ne phys null (omega (arith, e, v.positive)),
        ==_ne count 0 (omega arith),
        e,
        phys_to_bit-eq s i v h,
        free_pages_from-eq count i s,
      )
      (set_used_from-Marked false count i s v)
