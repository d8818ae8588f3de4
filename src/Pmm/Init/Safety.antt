-- ===== src/Pmm/Init/Safety.antt =====
-- The bitmap that pmm_init of pmm.c builds: exactly which pages are free, and the invariant.
use apsyde.Common.{ℕ, zero, suc, ◌+◌, ◌/◌, ◌^◌, ◌<◌, ◌≡◌, Bool, true, not, ◌&&◌, ◌||◌, arith}
use apsyde.Pmm.Init.{Layout, build_bitmap, zero_bytes, Marks, release_regions, reserve_image}
use apsyde.Pmm.State.{Pmm}
use apsyde.Pmm.Init.Regions.{
  image_holds, Separate, any_region, releases, boots, boots-Counted, image-Counted,
  release_regions-Counted, release_regions-IsBytes, image-IsBytes, boots-test, image-test,
  release_regions-test,
}
use apsyde.Pmm.Bitmap.Laws.{IsBytes, set_bits-IsBytes, test-set_bits}
use apsyde.Pmm.Bitmap.{Bitmap, bitmap_test, set_bits}
use apsyde.Pmm.Init.Marks.{Counted}
use apsyde.Pmm.Bitmap.Count.{free_below_none}

zero_bytes-IsBytes : (n i : ℕ) (bm : Bitmap) → IsBytes bm → IsBytes (zero_bytes n i bm)
unfolding zero_bytes
zero_bytes-IsBytes zero i bm v = v
zero_bytes-IsBytes (suc n) i bm v = zero_bytes-IsBytes n (i + 1) _ (λ j. ground (arith, v j))

-- The bitmap after the second pass: every covered page is used.
abbrev full_bitmap : Pmm → Bitmap
full_bitmap s = set_bits s.bitmap_pages 0 (zero_bytes ((s.bitmap_pages + 7) / 8) 0 s.bitmap)

full-IsBytes : (s : Pmm) → IsBytes s.bitmap → IsBytes (full_bitmap s)
full-IsBytes s v = set_bits-IsBytes s.bitmap_pages 0 _ (zero_bytes-IsBytes _ 0 s.bitmap v)

full-test :
    (s : Pmm) (j : ℕ) → IsBytes s.bitmap → j < s.bitmap_pages → bitmap_test (full_bitmap s) j ≡ true
full-test s j v h = ground (
  arith,
  test-set_bits s.bitmap_pages 0 (zero_bytes ((s.bitmap_pages + 7) / 8) 0 s.bitmap) j
      (zero_bytes-IsBytes _ 0 s.bitmap v),
)

full-Counted : (s : Pmm) → IsBytes s.bitmap → Counted s.bitmap_pages (full_bitmap s, 0)
full-Counted s v = record {
  bytes = full-IsBytes s v;
  count = omega (arith, free_below_none (full_bitmap s) s.bitmap_pages (λ j h. full-test s j v h));
}

-- The pages of the kernel's image and of the stack.
abbrev pub own_image : Layout → Pmm → ℕ → Bool
own_image l s j =
    image_holds s l.kernel_start l.kernel_end j || image_holds s l.stack_bottom l.stack_top j

-- A covered page is free after pmm_init's marking exactly if a usable region holds it, and neither
-- the kernel's image, nor the stack, nor a region of the boot services does.
pub build_bitmap-test :
    (l : Layout) (s : Pmm) (j : ℕ)
    → IsBytes s.bitmap
    → s.bitmap_pages < 2 ^ 32
    → j < s.bitmap_pages
    → not (bitmap_test (build_bitmap l s).bitmap j)
      ≡ any_region (releases s.cover_lo s.bitmap_pages j) s.regions
        && not (own_image l s j)
        && not (any_region (boots s.cover_lo s.bitmap_pages j) s.regions)
unfolding build_bitmap
build_bitmap-test l s j v w h =
    let full : Marks = (full_bitmap s, 0) in
    let released = release_regions s.cover_lo s.bitmap_pages s.regions full in
    let kernel = reserve_image s l.kernel_start l.kernel_end released in
    let stack = reserve_image s l.stack_bottom l.stack_top kernel in
    let v1 = release_regions-IsBytes s.cover_lo s.bitmap_pages s.regions full (full-IsBytes s v) in
    let v2 = image-IsBytes s l.kernel_start l.kernel_end released v1 in
    let v3 = image-IsBytes s l.stack_bottom l.stack_top kernel v2 in
    rw
      (
        boots-test s.cover_lo s.bitmap_pages s.regions stack j w v3,
        image-test s l.stack_bottom l.stack_top kernel j w v2,
        image-test s l.kernel_start l.kernel_end released j w v1,
        release_regions-test s.cover_lo s.bitmap_pages s.regions full j w (full-IsBytes s v),
        full-test s j v h,
      )
      (ground arith)

pub build_bitmap-Counted :
    (l : Layout) (s : Pmm)
    → IsBytes s.bitmap
    → s.bitmap_pages < 2 ^ 32
    → Separate s.cover_lo s.bitmap_pages s.regions
    → ((j : ℕ)
        → any_region (releases s.cover_lo s.bitmap_pages j) s.regions ≡ true
        → j < s.bitmap_pages)
    → Counted s.bitmap_pages ((build_bitmap l s).bitmap, (build_bitmap l s).free_pages)
unfolding build_bitmap
build_bitmap-Counted l s v w sep inside = boots-Counted s.cover_lo s.bitmap_pages s.regions _ w (
    image-Counted s l.stack_bottom l.stack_top _ w (
      image-Counted s l.kernel_start l.kernel_end _ w (
        release_regions-Counted s.cover_lo s.bitmap_pages s.regions _ w (full-Counted s v) sep
          (λ j h. full-test s j v (inside j h)))))
