-- ===== src/Pmm/Init/Valid.antt =====
-- pmm_init of pmm.c establishes the allocator's invariant on a well-formed memory map.
use apsyde.Common.{
  ℕ, ◌^◌, ◌<◌, ◌≡◌, refl, inr, Bool, true, false, List, [], ◌∷◌, arith, All, All-map, All-zip, ◌+◌,
  ◌*◌, ◌≤◌, inl, Bool-cases, ◌-◌, ◌/◌, some, sub64, ◌≢◌,
}
use apsyde.Pmm.State.{Region, page_size, Pmm}
use apsyde.Pmm.Init.Scan.{
  IsExtent, PairwiseApart, IsInside, Apart, WellFormed, Scanned, scan_map-Scanned, scan_map-bitmap,
}
use apsyde.Pmm.Init.Regions.{any_region, releases, Separate, start_bit}
use apsyde.Pmm.Init.{
  is_usable, MemoryMap, Pass1, pmm_init, Layout, done, scan_map, build_bitmap, finish_init,
}
use apsyde.Pmm.Bitmap.{bitmap_size}
use apsyde.Pmm.Bitmap.Laws.{IsBytes}
use apsyde.Pmm.Alloc.Free.{SameCover}
use apsyde.Pmm.Invariant.{Inv}
use apsyde.Pmm.Init.Safety.{build_bitmap-Counted}

any_region-false :
    (p : Region → Bool) (rs : List Region) → All (λ r. p r ≡ false) rs → any_region p rs ≡ false
any_region-false p [] h = refl
any_region-false p (r ∷ rs) h = ground (arith, h.0, any_region-false p rs h.1)

pub any_region-lt :
    (lo cover j : ℕ) (rs : List Region) → any_region (releases lo cover j) rs ≡ true → j < cover
any_region-lt lo cover j [] h = cc
any_region-lt lo cover j (r ∷ rs) h = ground (arith, any_region-lt lo cover j rs)

module _ (lo hi cover : ℕ) (x : IsExtent lo hi) (w : hi < 2 ^ 64) where
  -- A usable region that holds page `j` spans its addresses.
  pub releases-spans :
      (r : Region) (j : ℕ)
      → IsInside lo hi r
      → releases lo cover j r ≡ true
      → (r.base ≤ lo + j * page_size)
        × (lo + j * page_size + page_size ≤ r.base + r.pages * page_size)
  releases-spans r j inside h = elim (Bool-cases (is_usable r.flags)) [
    | inl u ↦
        let f = inside u in
        let exact : start_bit lo r * page_size + lo ≡ r.base = omega (arith, f, x.lo_aligned, w) in
        ground (arith, u, exact, h)
    | inr n ↦ ground (arith, n, h)
  ]

  -- Two usable regions that do not overlap hold no common page.
  releases-Apart :
      (r q : Region) (j : ℕ)
      → IsInside lo hi r
      → IsInside lo hi q
      → Apart r q
      → releases lo cover j r ≡ true
      → releases lo cover j q ≡ false
  releases-Apart r q j ir iq a h = elim (Bool-cases (releases lo cover j q)) [
    | inl t ↦ absurd (omega (arith, a, releases-spans r j ir h, releases-spans q j iq t))
    | inr f ↦ f
  ]

  Separate-of_apart :
      (rs : List Region) → PairwiseApart rs → All (IsInside lo hi) rs → Separate lo cover rs
  Separate-of_apart [] p i = tt
  Separate-of_apart (r ∷ rs) p i = (
    λ j h. any_region-false (releases lo cover j) rs (
        All-map rs (λ q a. releases-Apart r q j i.0 a.1 a.0 h)
          (All-zip (Apart r) (IsInside lo hi) rs p.0 i.1)),
    Separate-of_apart rs p.1 i.1,
  )

abbrev first_pass : MemoryMap → Pmm → Pass1
first_pass m s = record {
  pmm = record s { regions = []; total_pages = 0; free_pages = 0 };
  lo = 2 ^ 64 - 1;
  hi = 0;
}

abbrev pub count_of : MemoryMap → ℕ
count_of m = m.memory_map_size / m.descriptor_size

-- The state of pmm_init between the first pass and the second.
abbrev pub covered_by : Pass1 → Pmm
covered_by p = record (p.pmm) {
  cover_lo = p.lo;
  cover_hi = p.hi;
  bitmap_pages = sub64 p.hi p.lo / page_size;
}

-- What pmm_init has found when it returns.
pub record Built (m : MemoryMap) (l : Layout) (s t : Pmm) : Type 0 where
  pub pass : Pass1
  pub scanned : Scanned m (count_of m) pass
  pub bitmap : pass.pmm.bitmap ≡ s.bitmap
  pub extent : IsExtent pass.lo pass.hi
  pub fits : (sub64 pass.hi pass.lo / page_size + 7) / 8 ≤ bitmap_size
  pub result : t ≡ build_bitmap l (covered_by pass)

finish_init-done :
    (l : Layout) (p : Pass1) (t : Pmm)
    → finish_init l p ≡ done t
    → (p.pmm.total_pages ≢ 0)
      × ((sub64 p.hi p.lo / page_size + 7) / 8 ≤ bitmap_size)
      × (t ≡ build_bitmap l (covered_by p))
unfolding finish_init
finish_init-done l p t e = (ground arith, ground arith, ground arith)

pmm_init-finish :
    (m : MemoryMap) (l : Layout) (s t : Pmm)
    → pmm_init (some m) l s ≡ done t
    → finish_init l (scan_map m (count_of m) 0 (first_pass m s)) ≡ done t
unfolding pmm_init
pmm_init-finish m l s t e = ground arith

first_pass-Scanned : (m : MemoryMap) (s : Pmm) → Scanned m 0 (first_pass m s)
first_pass-Scanned m s = record {
  from = tt;
  apart = tt;
  inside = tt;
  extent = inl (refl, refl, refl);
  lo_bound = omega arith;
  hi_bound = omega arith;
}

pub pmm_init-Built :
    (m : MemoryMap) (l : Layout) (s t : Pmm)
    → WellFormed m (count_of m)
    → pmm_init (some m) l s ≡ done t
    → Built m l s t
pmm_init-Built m l s t wf e =
    let p = scan_map m (count_of m) 0 (first_pass m s) in
    let sc =
      scan_map-Scanned m (count_of m) (count_of m) 0 (first_pass m s) wf (omega arith)
        (first_pass-Scanned m s) in
    let f = finish_init-done l p t (pmm_init-finish m l s t e) in
    record {
      pass = p;
      scanned = sc;
      bitmap = scan_map-bitmap m (count_of m) 0 (first_pass m s);
      extent = elim sc.extent [ inl none_seen ↦ absurd (f.0 none_seen.0) | inr x ↦ x ];
      fits = f.1;
      result = f.2;
    }

cover_size :
    (lo hi : ℕ) → IsExtent lo hi → hi < 2 ^ 64 → lo + sub64 hi lo / page_size * page_size ≡ hi
cover_size lo hi x w = omega (arith, x.order, x.lo_aligned, x.hi_aligned)

-- `t` has the cover and the table of the first pass.
pub build_bitmap-SameCover : (l : Layout) (s : Pmm) → SameCover s (build_bitmap l s)
unfolding build_bitmap
build_bitmap-SameCover l s = record {
  pages = refl;
  lo = refl;
  hi = refl;
  total = refl;
  regions = refl;
}

module _ (m : MemoryMap) (l : Layout) (s t : Pmm) (v : IsBytes s.bitmap) (b : Built m l s t) where
  pub covered-IsBytes : IsBytes (covered_by b.pass).bitmap
  covered-IsBytes = rw b.bitmap v

  pub few_pages : (covered_by b.pass).bitmap_pages ≤ bitmap_size * 8
  few_pages = omega (arith, b.fits)

  table_Separate : Separate b.pass.lo (covered_by b.pass).bitmap_pages b.pass.pmm.regions
  table_Separate =
      Separate-of_apart b.pass.lo b.pass.hi (covered_by b.pass).bitmap_pages b.extent
        b.scanned.hi_bound b.pass.pmm.regions b.scanned.apart b.scanned.inside

  pub Built-Inv : Inv t
  Built-Inv =
      let c = covered_by b.pass in
      let same = build_bitmap-SameCover l c in
      let counted =
        build_bitmap-Counted l c covered-IsBytes (omega (arith, few_pages)) table_Separate
          (λ j h. any_region-lt b.pass.lo c.bitmap_pages j b.pass.pmm.regions h) in
      rw b.result (record {
        bytes = counted.bytes;
        counted = rw same.pages counted.count;
        fits = omega (arith, same.pages, few_pages);
        aligned = omega (arith, same.lo, b.extent.lo_aligned);
        positive = omega (arith, same.lo, b.scanned.lo_bound);
        covered = omega (
          arith,
          same.lo,
          same.hi,
          same.pages,
          cover_size b.pass.lo b.pass.hi b.extent b.scanned.hi_bound,
        );
        no_wrap = omega (arith, same.hi, b.scanned.hi_bound);
      })

-- When pmm_init returns on a well-formed memory map, the allocator's invariant holds: the cover
-- is page-aligned, above zero and below 2^64, its bitmap fits g_bitmap, and the counter of free
-- pages is the number of clear bits.
pub pmm_init-Inv :
    (m : MemoryMap) (l : Layout) (s t : Pmm)
    → WellFormed m (m.memory_map_size / m.descriptor_size)
    → IsBytes s.bitmap
    → pmm_init (some m) l s ≡ done t
    → Inv t
pmm_init-Inv m l s t wf v e = Built-Inv m l s t v (pmm_init-Built m l s t wf e)
