-- ===== src/Pmm/Init/Scan.antt =====
-- The first pass of pmm_init in pmm.c over a well-formed memory map: the region table and the cover.
use apsyde.Common.{
  ℕ, ◌+◌, ◌*◌, ◌%◌, ◌^◌, ◌≤◌, ◌<◌, ◌≡◌, refl, ◌⊎◌, inl, inr, true, List, [], ◌∷◌, ◌++◌, arith, leb,
  Bool-cases, length, All, All-map, All-snoc, false, ltb, if◌then◌else◌, u64, ◌-◌, zero, suc, ◌∙◌,
  ◌==◌,
}
use apsyde.Pmm.State.{page_size, Region, Pmm}
use apsyde.Pmm.Init.{
  MemDesc, add_region, MemoryMap, region_of, is_usable, Pass1, max_regions, classify_uefi_type,
  scan_desc, scan_map, reserved,
}

abbrev pub entry : MemoryMap → ℕ → MemDesc
entry m i = m.desc (i * m.descriptor_size)

abbrev pub end_of : MemDesc → ℕ
end_of d = d.physical_start + d.number_of_pages * page_size

-- What UEFI promises of the map's first `n` descriptors: page-aligned ranges that lie inside the
-- address space and do not overlap.
pub record WellFormed (m : MemoryMap) (n : ℕ) : Type 0 where
  pub aligned : (i : ℕ) → i < n → (entry m i).physical_start % page_size ≡ 0
  pub no_wrap : (i : ℕ) → i < n → end_of (entry m i) < 2 ^ 64
  pub apart :
      (i k : ℕ)
      → i < k
      → k < n
      → (end_of (entry m i) ≤ (entry m k).physical_start)
        ⊎ (end_of (entry m k) ≤ (entry m i).physical_start)

-- `r` is the range of a descriptor before the `i`-th.
abbrev pub IsFrom : MemoryMap → ℕ → Region → Type 0
IsFrom m i r =
    (k : ℕ) × (k < i)
    × (r.base ≡ (entry m k).physical_start)
    × (r.pages ≡ (entry m k).number_of_pages)

abbrev pub Apart : Region → Region → Type 0
Apart r q = (r.base + r.pages * page_size ≤ q.base) ⊎ (q.base + q.pages * page_size ≤ r.base)

abbrev pub PairwiseApart : List Region → Type 0
PairwiseApart [] = Unit {0}
PairwiseApart (r ∷ rs) = All (Apart r) rs × PairwiseApart rs

-- A usable region is page-aligned and lies inside the cover.
abbrev pub IsInside : ℕ → ℕ → Region → Type 0
IsInside lo hi r =
    is_usable r.flags ≡ true
    → (r.base % page_size ≡ 0) × (lo ≤ r.base) × (r.base + r.pages * page_size ≤ hi)

pub record IsExtent (lo hi : ℕ) : Type 0 where
  pub order : lo ≤ hi
  pub lo_aligned : lo % page_size ≡ 0
  pub hi_aligned : hi % page_size ≡ 0

-- The state of the first pass before descriptor `i`.
pub record Scanned (m : MemoryMap) (i : ℕ) (p : Pass1) : Type 0 where
  pub from : All (IsFrom m i) p.pmm.regions
  pub apart : PairwiseApart p.pmm.regions
  pub inside : All (IsInside p.lo p.hi) p.pmm.regions
  pub extent : (p.pmm.total_pages ≡ 0) × (p.lo ≡ 2 ^ 64 - 1) × (p.hi ≡ 0) ⊎ IsExtent p.lo p.hi
  pub lo_bound : 0x10_0000 ≤ p.lo
  pub hi_bound : p.hi < 2 ^ 64

PairwiseApart-snoc :
    (rs : List Region) (r : Region)
    → PairwiseApart rs
    → All (λ q. Apart q r) rs
    → PairwiseApart (rs ++ (r ∷ []))
PairwiseApart-snoc [] r h k = (tt, tt)
PairwiseApart-snoc (q ∷ rs) r h k =
    (All-snoc (Apart q) rs r h.0 k.0, PairwiseApart-snoc rs r h.1 k.1)

-- What holds of the old table and of the extended one holds after add_region.
add_region_cases {ℓ} :
    (P : List Region → Type ℓ) (r : Region) (s : Pmm)
    → P s.regions
    → P (s.regions ++ (r ∷ []))
    → P (add_region r s).regions
unfolding add_region
add_region_cases P r s old new = elim (Bool-cases (leb max_regions (length s.regions))) [
  | inl full ↦ rw full old
  | inr room ↦ rw room new
]

total_pages-add_region : (r : Region) (s : Pmm) → (add_region r s).total_pages ≡ s.total_pages
unfolding add_region
total_pages-add_region r s = ground arith

IsFrom-suc :
    (m : MemoryMap) (i : ℕ) (rs : List Region) → All (IsFrom m i) rs → All (IsFrom m (i + 1)) rs
IsFrom-suc m i rs h = All-map rs (λ r f. (f.0, omega arith, f.2, f.3)) h

Apart-from :
    (m : MemoryMap) (n i : ℕ) (flags : ℕ) (rs : List Region)
    → WellFormed m n
    → i < n
    → All (IsFrom m i) rs
    → All (λ q. Apart q (region_of (entry m i) flags)) rs
Apart-from m n i flags rs wf h f = All-map rs (λ q g. ground (arith, wf.apart g.0 i, g)) f

-- Adding the range of descriptor `i` keeps the table's part of the invariant.
Table : MemoryMap → ℕ → ℕ → ℕ → List Region → Type 0
Table m i lo hi rs = All (IsFrom m i) rs × PairwiseApart rs × All (IsInside lo hi) rs

Table-add_region :
    (m : MemoryMap) (n i lo hi flags : ℕ) (s : Pmm)
    → WellFormed m n
    → i < n
    → Table m i lo hi s.regions
    → IsInside lo hi (region_of (entry m i) flags)
    → Table m (i + 1) lo hi (add_region (region_of (entry m i) flags) s).regions
unfolding Table
Table-add_region m n i lo hi flags s wf h t new =
    add_region_cases (Table m (i + 1) lo hi) (region_of (entry m i) flags) s
      (IsFrom-suc m i s.regions t.0, t.1, t.2)
      (
        All-snoc (IsFrom m (i + 1)) s.regions _ (IsFrom-suc m i s.regions t.0)
            (i, omega arith, refl, refl),
        PairwiseApart-snoc s.regions _ t.1 (Apart-from m n i flags s.regions wf h t.0),
        All-snoc (IsInside lo hi) s.regions _ t.2 new,
      )

-- A wider cover keeps what is inside.
IsInside-widen :
    (lo hi lo' hi' : ℕ) (rs : List Region)
    → lo' ≤ lo
    → hi ≤ hi'
    → All (IsInside lo hi) rs
    → All (IsInside lo' hi') rs
IsInside-widen lo hi lo' hi' rs p q h =
    All-map rs (λ r f u. let g = f u in (g.0, omega arith, omega arith)) h

-- The four ways of a round: an empty descriptor, low memory, unusable memory, usable memory.
scan_usable :
    (m : MemoryMap) (n i : ℕ) (p : Pass1)
    → WellFormed m n
    → i < n
    → Scanned m i p
    → ltb (entry m i).physical_start 0x10_0000 ≡ false
    → let d = entry m i in
      let lo = if ltb d.physical_start p.lo then d.physical_start else p.lo in
      let e = u64 (d.physical_start + u64 (d.number_of_pages * page_size)) in
      let hi = if ltb p.hi e then e else p.hi in
      let added = add_region (region_of d (classify_uefi_type d.kind)) p.pmm in
      Scanned m (i + 1) (record {
        pmm = record added { total_pages = u64 (added.total_pages + d.number_of_pages) };
        lo = lo;
        hi = hi;
      })
unfolding Table
scan_usable m n i p wf h sc high = record {
  from = table.0;
  apart = table.1;
  inside = table.2;
  extent = inr (record {
    order = ground (arith, sc.extent, e-eq);
    lo_aligned = ground (arith, sc.extent, wf.aligned i h, wf.no_wrap i h);
    hi_aligned = ground (arith, sc.extent, wf.aligned i h, e-eq);
  });
  lo_bound = ground (arith, sc.lo_bound);
  hi_bound = ground (arith, sc.hi_bound);
}
  where
    d : MemDesc
    d = entry m i

    lo : ℕ
    lo = if ltb d.physical_start p.lo then d.physical_start else p.lo

    e : ℕ
    e = u64 (d.physical_start + u64 (d.number_of_pages * page_size))

    hi : ℕ
    hi = if ltb p.hi e then e else p.hi

    e-eq : e ≡ end_of d
    e-eq = omega (arith, wf.no_wrap i h)

    table :
        Table m (i + 1) lo hi (add_region (region_of d (classify_uefi_type d.kind)) p.pmm).regions
    table =
        Table-add_region m n i lo hi _ p.pmm wf h
          (
            sc.from,
            sc.apart,
            IsInside-widen p.lo p.hi lo hi p.pmm.regions (ground arith) (ground arith) sc.inside,
          )
          (λ u. (wf.aligned i h, ground arith, ground (arith, e-eq)))

-- A round that leaves the cover and the page total alone.
scan_other :
    (m : MemoryMap) (i : ℕ) (p : Pass1) (s : Pmm)
    → Scanned m i p
    → Table m (i + 1) p.lo p.hi s.regions
    → s.total_pages ≡ p.pmm.total_pages
    → Scanned m (i + 1) (record p { pmm = s })
unfolding Table
scan_other m i p s sc t e = record {
  from = t.0;
  apart = t.1;
  inside = t.2;
  extent = rw e sc.extent;
  lo_bound = sc.lo_bound;
  hi_bound = sc.hi_bound;
}

scan_skip : (m : MemoryMap) (i : ℕ) (p : Pass1) → Scanned m i p → Scanned m (i + 1) p
unfolding Table
scan_skip m i p sc =
    scan_other m i p p.pmm sc (IsFrom-suc m i p.pmm.regions sc.from, sc.apart, sc.inside) refl

-- A region that is not usable joins the table.
scan_unusable :
    (m : MemoryMap) (n i : ℕ) (p : Pass1) (flags : ℕ)
    → WellFormed m n
    → i < n
    → Scanned m i p
    → is_usable flags ≡ false
    → Scanned m (i + 1) (record p { pmm = add_region (region_of (entry m i) flags) p.pmm })
unfolding Table
scan_unusable m n i p flags wf h sc u =
    scan_other m i p _ sc
      (Table-add_region m n i p.lo p.hi flags p.pmm wf h (sc.from, sc.apart, sc.inside)
        (λ t. ground arith))
      (total_pages-add_region _ p.pmm)

scan_desc-Scanned :
    (m : MemoryMap) (n i : ℕ) (p : Pass1)
    → WellFormed m n
    → i < n
    → Scanned m i p
    → Scanned m (i + 1) (scan_desc (entry m i) p)
unfolding scan_desc
scan_desc-Scanned m n i p wf h sc = elim (Bool-cases ((entry m i).number_of_pages == 0)) [
  | inl empty ↦ rw empty (scan_skip m i p sc)
  | inr some_pages ↦ rw some_pages (elim (Bool-cases (ltb (entry m i).physical_start 0x10_0000)) [
    | inl low ↦ rw low (scan_unusable m n i p reserved wf h sc refl)
    | inr high ↦ rw high (elim (Bool-cases (is_usable (classify_uefi_type (entry m i).kind))) [
      | inl u ↦ rw u (scan_usable m n i p wf h sc high)
      | inr u ↦ rw u (elim (Bool-cases (leb 256 (entry m i).number_of_pages)) [
        | inl large ↦ rw large (scan_unusable m n i p _ wf h sc u)
        | inr small ↦ rw small (scan_skip m i p sc)
      ])
    ])
  ])
]

pub scan_map-Scanned :
    (m : MemoryMap) (n left i : ℕ) (p : Pass1)
    → WellFormed m n
    → i + left ≡ n
    → Scanned m i p
    → Scanned m n (scan_map m left i p)
unfolding scan_map
scan_map-Scanned m n zero i p wf e sc = let i-eq : i ≡ n = omega arith in rw i-eq at sc
scan_map-Scanned m n (suc left) i p wf e sc =
    scan_map-Scanned m n left (i + 1) (scan_desc (entry m i) p) wf (omega arith)
      (scan_desc-Scanned m n i p wf (omega arith) sc)

-- The first pass leaves the bitmap alone.
scan_desc-bitmap : (d : MemDesc) (p : Pass1) → (scan_desc d p).pmm.bitmap ≡ p.pmm.bitmap
unfolding scan_desc add_region
scan_desc-bitmap d p = ground arith

pub scan_map-bitmap :
    (m : MemoryMap) (left i : ℕ) (p : Pass1) → (scan_map m left i p).pmm.bitmap ≡ p.pmm.bitmap
unfolding scan_map
scan_map-bitmap m zero i p = refl
scan_map-bitmap m (suc left) i p = scan_map-bitmap m left (i + 1) _ ∙ scan_desc-bitmap (entry m i) p
