-- ===== src/Pmm/Alloc/FirstFit.antt =====
-- pmm_alloc_page of pmm.c takes the first free page.
use apsyde.Common.{
  ℕ, zero, suc, ◌+◌, ◌-◌, ◌*◌, ◌<◌, ◌≡◌, ◌↔◌, inl, inr, true, false, arith, ap, sub64-eq, ◌==◌,
  Bool-cases, ==_ne, ==_iff, ◌≢◌,
}
use apsyde.Pmm.Bitmap.{bitmap_test, bitmap_set}
use apsyde.Pmm.Bitmap.Laws.{set-IsBytes}
use apsyde.Pmm.Bitmap.Count.{free_below_none, free_below-set}
use apsyde.Pmm.State.{Pmm, page_size, null}
use apsyde.Pmm.Invariant.{Inv, Inv-update, bit_to_phys-eq, free_pages-le}
use apsyde.Pmm.Alloc.{alloc_page_from, alloc_page}

-- `out` is the result of taking page `i`, the first free one.
pub record PageTaken (s : Pmm) (i : ℕ) (out : ℕ × Pmm) : Type 0 where
  pub in_range : i < s.bitmap_pages
  pub was_free : bitmap_test s.bitmap i ≡ false
  pub first : (j : ℕ) → j < i → bitmap_test s.bitmap j ≡ true
  pub address : out.0 ≡ s.cover_lo + i * page_size
  pub state : out.1 ≡ record s { bitmap = bitmap_set s.bitmap i; free_pages = s.free_pages - 1 }

below_suc :
    (s : Pmm) (i : ℕ)
    → bitmap_test s.bitmap i ≡ true
    → ((j : ℕ) → j < i → bitmap_test s.bitmap j ≡ true)
    → (j : ℕ) → j < i + 1
    → bitmap_test s.bitmap j ≡ true
below_suc s i t h j p = elim (Bool-cases (j == i)) [
  | inl e ↦ ground arith
  | inr e ↦ h j (ground arith)
]

alloc_page_from-PageTaken :
    (left i : ℕ) (s : Pmm)
    → Inv s
    → 0 < s.free_pages
    → i + left ≡ s.bitmap_pages
    → ((j : ℕ) → j < i → bitmap_test s.bitmap j ≡ true)
    → (k : ℕ) × PageTaken s k (alloc_page_from left i s)
unfolding alloc_page_from
alloc_page_from-PageTaken zero i s v pos e before = absurd (
    omega
      (arith, v.counted, free_below_none s.bitmap s.bitmap_pages (λ j p. before j (omega arith))))
alloc_page_from-PageTaken (suc left) i s v pos e before =
    elim (Bool-cases (bitmap_test s.bitmap i)) [
      | inl used ↦
          rw used (
            alloc_page_from-PageTaken left (i + 1) s v pos (omega arith)
              (below_suc s i used before))
      | inr clear ↦ rw clear (
        i,
        record {
          in_range = omega arith;
          was_free = clear;
          first = before;
          address = bit_to_phys-eq s i v (omega arith);
          state =
              ap (λ n. record s { bitmap = bitmap_set s.bitmap i; free_pages = n })
                (sub64-eq s.free_pages 1 pos (omega (arith, free_pages-le s v, v.fits)));
        },
      )
    ]

-- While the invariant holds and a page is free, pmm_alloc_page returns the address of the
-- first free page, marks exactly that page and takes one from the counter.
pub alloc_page_first_fit :
    (s : Pmm) → Inv s → 0 < s.free_pages → (i : ℕ) × PageTaken s i (alloc_page s)
unfolding alloc_page
alloc_page_first_fit s v pos =
    rw (==_ne s.free_pages 0 (omega arith)) (
      alloc_page_from-PageTaken s.bitmap_pages 0 s v pos (omega arith)
        (λ j p. absurd (omega arith)))

pub PageTaken-nonzero :
    (s : Pmm) (out : ℕ × Pmm) → Inv s → (i : ℕ) × PageTaken s i out → out.0 ≢ null
PageTaken-nonzero s out v (i, t) e = omega (arith, t.address, v.positive)

pub alloc_page_none : (s : Pmm) → s.free_pages ≡ 0 → alloc_page s ≡ (null, s)
unfolding alloc_page
alloc_page_none s e = rw ((==_iff s.free_pages 0).1 e)

-- Taking a page keeps the invariant.
PageTaken-Inv : (s : Pmm) (i : ℕ) (out : ℕ × Pmm) → Inv s → PageTaken s i out → Inv out.1
PageTaken-Inv s i out v t = rw t.state (
    Inv-update s _ _ v (set-IsBytes s.bitmap i v.bytes) (
      ground (
        arith,
        v.counted,
        free_below-set s.bitmap s.bitmap_pages i v.bytes t.was_free,
        t.in_range,
      )))

-- pmm_alloc_page keeps the invariant.
pub alloc_page-Inv : (s : Pmm) → Inv s → Inv (alloc_page s).1
alloc_page-Inv s v = elim (Bool-cases (s.free_pages == 0)) [
  | inl z ↦ rw (alloc_page_none s ((==_iff _ _).0 z)) v
  | inr p ↦ let (i, t) = alloc_page_first_fit s v (ground arith) in PageTaken-Inv s i _ v t
]

-- While the invariant holds, pmm_alloc_page returns NULL exactly when no page is free.
pub alloc_page-null_iff : (s : Pmm) → Inv s → ((alloc_page s).0 ≡ null) ↔ (s.free_pages ≡ 0)
alloc_page-null_iff s v = (some_free, none_free)
  where
    some_free : (alloc_page s).0 ≡ null → s.free_pages ≡ 0
    some_free e = elim (Bool-cases (s.free_pages == 0)) [
      | inl z ↦ ground arith
      | inr p ↦ absurd (PageTaken-nonzero s _ v (alloc_page_first_fit s v (ground arith)) e)
    ]

    none_free : s.free_pages ≡ 0 → (alloc_page s).0 ≡ null
    none_free e = rw (alloc_page_none s e)
