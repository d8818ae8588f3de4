-- ===== src/Pmm/Alloc/Reuse.antt =====
-- Allocation and release of pages in pmm.c together: what is given back, what never overlaps.
use apsyde.Common.{
  ℕ, ◌+◌, ◌≤◌, ◌<◌, ◌≡◌, inl, inr, true, false, arith, leb, if◌then◌else◌, Bool-cases, ◌*◌, ◌≢◌,
  ◌⊎◌, ap, ◌∙◌,
}
use apsyde.Pmm.Bitmap.{bitmap_test}
use apsyde.Pmm.Bitmap.Laws.{in_run, test-set_bits}
use apsyde.Pmm.Bitmap.Count.{free_below_ext, free_below}
use apsyde.Pmm.State.{Pmm, null, page_size}
use apsyde.Pmm.Invariant.{Inv}
use apsyde.Pmm.Alloc.{free_pages, alloc_pages}
use apsyde.Pmm.Alloc.Runs.{alloc_pages_outcome, RunTaken, alloc_pages-Inv}
use apsyde.Pmm.Alloc.Free.{SameCover, Marked, free_pages-Marked, SameCover-trans}

-- `u` marks every page as `s` does, and counts as many free ones.
pub record GivenBack (s u : Pmm) : Type 0 where
  pub counter : u.free_pages ≡ s.free_pages
  pub cover : SameCover s u
  pub bits : (j : ℕ) → bitmap_test u.bitmap j ≡ bitmap_test s.bitmap j

RunTaken-SameCover :
    (s : Pmm) (count start p : ℕ) (t : Pmm) → RunTaken s count start (p, t) → SameCover s t
RunTaken-SameCover s count start p t r = rw r.state (ground arith)

free_pages-RunTaken :
    (s : Pmm) (count start p : ℕ) (t : Pmm)
    → Inv s
    → Inv t
    → 0 < count
    → RunTaken s count start (p, t)
    → GivenBack s (free_pages p count t)
free_pages-RunTaken s count start p t v w pos r = record {
  counter = omega (
    arith,
    v.counted,
    back.valid.counted,
    free_below_ext u.bitmap s.bitmap s.bitmap_pages (λ j h. same j),
    ap (free_below u.bitmap) (cover.pages),
  );
  cover = cover;
  bits = same;
}
  where
    u : Pmm
    u = free_pages p count t

    taken : SameCover s t
    taken = RunTaken-SameCover s count start p t r

    back : Marked false count start t u
    back =
        free_pages-Marked p count t start w (omega (arith, r.in_range, taken.pages)) pos
          (omega (arith, r.address, taken.lo))

    cover : SameCover s u
    cover = SameCover-trans s t u taken back.cover

    set_there :
        (j : ℕ)
        → bitmap_test t.bitmap j ≡ (if in_run start count j then true else bitmap_test s.bitmap j)
    set_there j =
        ap (λ (x : Pmm). bitmap_test x.bitmap j) r.state
        ∙ test-set_bits count start s.bitmap j v.bytes

    same : (j : ℕ) → bitmap_test u.bitmap j ≡ bitmap_test s.bitmap j
    same j =
        ground
          (arith, back.bits j, back.outside j, set_there j, r.was_free j, r.in_range, taken.pages)

-- While the invariant holds, what a successful pmm_alloc_pages took, pmm_free_pages gives back:
-- every page is marked as it was before and the counter is what it was.
pub free_pages-alloc_pages :
    (count : ℕ) (s : Pmm)
    → Inv s
    → 0 < count
    → (alloc_pages count s).0 ≢ null
    → GivenBack s (free_pages (alloc_pages count s).0 count (alloc_pages count s).1)
free_pages-alloc_pages count s v pos ok = elim (alloc_pages_outcome count s v pos) [
  | inl (start, t) ↦ free_pages-RunTaken s count start _ _ v (alloc_pages-Inv count s v) pos t
  | inr n ↦ absurd (ok (ap (λ (x : ℕ × Pmm). x.0) n.refused))
]

RunTaken-disjoint :
    (s : Pmm) (m a p n b q : ℕ) (t u : Pmm)
    → Inv s
    → 0 < m
    → 0 < n
    → RunTaken s m a (p, t)
    → RunTaken t n b (q, u)
    → (a + m ≤ b) ⊎ (b + n ≤ a)
RunTaken-disjoint s m a p n b q t u v pm pn r r' = elim (Bool-cases (leb (a + m) b)) [
  | inl e ↦ inl (ground arith)
  | inr e ↦ elim (Bool-cases (leb (b + n) a)) [
    | inl e' ↦ inr (ground arith)
    | inr e' ↦ elim (Bool-cases (leb a b)) [
      | inl le ↦ ground (arith, used b, r'.was_free b)
      | inr gt ↦ ground (arith, used a, r'.was_free a)
    ]
  ]
]
  where
    used :
        (j : ℕ) → bitmap_test t.bitmap j ≡ (if in_run a m j then true else bitmap_test s.bitmap j)
    used j = ap (λ (x : Pmm). bitmap_test x.bitmap j) r.state ∙ test-set_bits m a s.bitmap j v.bytes

-- While the invariant holds, two successful requests for at least one page each, one after the
-- other, get ranges of memory that do not overlap.
pub alloc_pages_disjoint :
    (m n : ℕ) (s : Pmm)
    → Inv s
    → 0 < m
    → 0 < n
    → (alloc_pages m s).0 ≢ null
    → (alloc_pages n (alloc_pages m s).1).0 ≢ null
    → let p = (alloc_pages m s).0 in
      let q = (alloc_pages n (alloc_pages m s).1).0 in
      (p + m * page_size ≤ q) ⊎ (q + n * page_size ≤ p)
alloc_pages_disjoint m n s v pm pn ok ok' = elim (alloc_pages_outcome m s v pm) [
  | inr none_m ↦ absurd (ok (ap (λ (x : ℕ × Pmm). x.0) none_m.refused))
  | inl (a, r) ↦
      let w = alloc_pages-Inv m s v in
      elim (alloc_pages_outcome n _ w pn) [
        | inr none_n ↦ absurd (ok' (ap (λ (x : ℕ × Pmm). x.0) none_n.refused))
        | inl (b, r') ↦ ground (
          arith,
          r.address,
          r'.address,
          ap (λ (x : Pmm). x.cover_lo) r.state,
          RunTaken-disjoint s m a _ n b _ _ _ v pm pn r r',
        )
      ]
]
