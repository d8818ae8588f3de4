-- ===== src/Pmm/Init/Protect.antt =====
-- Which pages pmm_init of pmm.c may hand out, by their addresses.
use apsyde.Common.{
  ℕ, ◌+◌, ◌*◌, ◌/◌, ◌^◌, ◌≤◌, ◌<◌, ◌≡◌, ◌≢◌, ◌⊎◌, inl, inr, true, false, some, List, [], ◌∷◌, arith,
  Bool-cases, All, ◌-◌, ◌%◌, bit_and, u64,
}
use apsyde.Pmm.Init.{
  MemoryMap, Layout, is_usable, boot_services_code, boot_services_data, pmm_init, done,
  build_bitmap,
}
use apsyde.Pmm.State.{Region, Pmm, page_size, phys_to_bit}
use apsyde.Pmm.Init.Scan.{IsExtent, WellFormed, IsInside}
use apsyde.Pmm.Bitmap.Laws.{IsBytes}
use apsyde.Pmm.Init.Valid.{
  Built, pmm_init-Built, releases-spans, covered_by, few_pages, covered-IsBytes, Built-Inv,
}
use apsyde.Pmm.Init.Regions.{any_region, releases, boots, image_holds}
use apsyde.Pmm.Bitmap.{bitmap_test}
use apsyde.Pmm.Init.Safety.{build_bitmap-test, own_image}
use apsyde.Common.Bits.{bit_and_align}
use apsyde.Pmm.Invariant.{phys_to_bit-eq}

-- `P` holds of some element.
abbrev pub Any {ℓ} : {A : Type ℓ} → (A → Type 0) → List A → Type 0
Any P [] = ⊥
Any P (x ∷ xs) = P x ⊎ Any P xs

-- The page at address `a` lies in `r`, which is usable and not of the boot services.
pub record Provides (a : ℕ) (r : Region) : Type 0 where
  pub is_ram : is_usable r.flags ≡ true
  pub not_code : r.kind ≢ boot_services_code
  pub not_data : r.kind ≢ boot_services_data
  pub starts : r.base ≤ a
  pub ends : a + page_size ≤ r.base + r.pages * page_size

Any-Provides :
    (lo hi cover j : ℕ) (rs : List Region)
    → IsExtent lo hi
    → hi < 2 ^ 64
    → All (IsInside lo hi) rs
    → any_region (releases lo cover j) rs ≡ true
    → any_region (boots lo cover j) rs ≡ false
    → Any (Provides (lo + j * page_size)) rs
Any-Provides lo hi cover j [] x w i h b = cc
Any-Provides lo hi cover j (r ∷ rs) x w i h b = elim (Bool-cases (releases lo cover j r)) [
  | inl here ↦
      let spans = releases-spans lo hi cover x w r j i.0 here in
      inl (record {
        is_ram = ground (arith, here);
        not_code = λ e. ground (arith, here, b, e);
        not_data = λ e. ground (arith, here, b, e);
        starts = spans.0;
        ends = spans.1;
      })
  | inr later ↦
      inr (Any-Provides lo hi cover j rs x w i.1 (ground (arith, later, h)) (ground (arith, b)))
]

small :
    (m : MemoryMap) (l : Layout) (s t : Pmm)
    → IsBytes s.bitmap
    → (b : Built m l s t) → (covered_by b.pass).bitmap_pages < 2 ^ 32
small m l s t v b = omega (arith, few_pages m l s t v b)

Built-free :
    (m : MemoryMap) (l : Layout) (s t : Pmm) (j : ℕ)
    → IsBytes s.bitmap
    → Built m l s t
    → j < t.bitmap_pages
    → bitmap_test t.bitmap j ≡ false
    → Any (Provides (t.cover_lo + j * page_size)) t.regions
unfolding build_bitmap
Built-free m l s t j v b h free =
    let c = covered_by b.pass in
    let free' : bitmap_test (build_bitmap l c).bitmap j ≡ false = rw b.result at free in
    let in_cover : j < c.bitmap_pages = rw b.result at h in
    let table =
      build_bitmap-test l c j (covered-IsBytes m l s t v b) (small m l s t v b) in_cover in
    rw b.result (
      Any-Provides b.pass.lo b.pass.hi c.bitmap_pages j b.pass.pmm.regions b.extent
        b.scanned.hi_bound b.scanned.inside (ground (arith, table, free'))
        (ground (arith, table, free')))

-- Every page that is free when pmm_init returns on a well-formed memory map lies whole in a
-- region of the table that is usable memory and does not belong to the boot services.
pub pmm_init_free_page :
    (m : MemoryMap) (l : Layout) (s t : Pmm) (j : ℕ)
    → WellFormed m (m.memory_map_size / m.descriptor_size)
    → IsBytes s.bitmap
    → pmm_init (some m) l s ≡ done t
    → j < t.bitmap_pages
    → bitmap_test t.bitmap j ≡ false
    → Any (Provides (t.cover_lo + j * page_size)) t.regions
pmm_init_free_page m l s t j wf v e h free =
    Built-free m l s t j v (pmm_init-Built m l s t wf e) h free

pub data Image : Type 0 where
  kernel stack : Image

abbrev pub image_start : Layout → Image → ℕ
image_start l kernel = l.kernel_start
image_start l stack = l.stack_bottom

abbrev pub image_end : Layout → Image → ℕ
image_end l kernel = l.kernel_end
image_end l stack = l.stack_top

image_holds_page :
    (s : Pmm) (from to j k : ℕ)
    → from < 2 ^ 64
    → to + page_size ≤ 2 ^ 64
    → phys_to_bit s (bit_and from 0xffff_ffff_ffff_f000) ≡ some k
    → from / page_size * page_size ≡ s.cover_lo + k * page_size
    → j < s.bitmap_pages
    → from < s.cover_lo + j * page_size + page_size
    → s.cover_lo + j * page_size < to
    → s.cover_lo % page_size ≡ 0
    → image_holds s from to j ≡ true
image_holds_page s from to j k fb tb found at h above below al =
    rw (found, image_holds)
      (ground
        (arith, bit_and_align from fb, bit_and_align (u64 (to + page_size - 1)) (omega arith)))

image_own :
    (l : Layout) (im : Image) (s : Pmm) (j : ℕ)
    → image_holds s (image_start l im) (image_end l im) j ≡ true
    → own_image l s j ≡ true
image_own l kernel s j h = ground (arith, h)
image_own l stack s j h = ground (arith, h)

Built-image :
    (m : MemoryMap) (l : Layout) (s t : Pmm) (im : Image) (j k : ℕ)
    → IsBytes s.bitmap
    → Built m l s t
    → image_start l im < 2 ^ 64
    → image_end l im + page_size ≤ 2 ^ 64
    → k < t.bitmap_pages
    → image_start l im / page_size * page_size ≡ t.cover_lo + k * page_size
    → j < t.bitmap_pages
    → image_start l im < t.cover_lo + j * page_size + page_size
    → t.cover_lo + j * page_size < image_end l im
    → bitmap_test t.bitmap j ≡ true
unfolding build_bitmap phys_to_bit
Built-image m l s t im j k v b fb tb hk at hj above below =
    let c = covered_by b.pass in
    let inv = Built-Inv m l s t v b in
    let found : phys_to_bit t (bit_and (image_start l im) 0xffff_ffff_ffff_f000) ≡ some k =
      rw (bit_and_align (image_start l im) fb, at) (phys_to_bit-eq t k inv hk) in
    let found' : phys_to_bit c (bit_and (image_start l im) 0xffff_ffff_ffff_f000) ≡ some k =
      rw b.result at found in
    let holds =
      image_holds_page c (image_start l im) (image_end l im) j k fb tb found' (rw b.result at at)
        (rw b.result at hj) (rw b.result at above) (rw b.result at below) b.extent.lo_aligned in
    let table =
      build_bitmap-test l c j (covered-IsBytes m l s t v b) (small m l s t v b)
        (rw b.result at hj) in
    rw b.result (ground (arith, table, image_own l im c j holds))

-- No covered page that the kernel's image or the stack touches is free when pmm_init returns on a
-- well-formed memory map, if the image or stack ends a page below 2^64 and the page in which it
-- begins is covered.
pub pmm_init_image_used :
    (m : MemoryMap) (l : Layout) (s t : Pmm) (im : Image) (j k : ℕ)
    → WellFormed m (m.memory_map_size / m.descriptor_size)
    → IsBytes s.bitmap
    → pmm_init (some m) l s ≡ done t
    → image_start l im < 2 ^ 64
    → image_end l im + page_size ≤ 2 ^ 64
    → k < t.bitmap_pages
    → image_start l im / page_size * page_size ≡ t.cover_lo + k * page_size
    → j < t.bitmap_pages
    → image_start l im < t.cover_lo + j * page_size + page_size
    → t.cover_lo + j * page_size < image_end l im
    → bitmap_test t.bitmap j ≡ true
pmm_init_image_used m l s t im j k wf v e =
    Built-image m l s t im j k v (pmm_init-Built m l s t wf e)
