-- ===== src/Pmm/Alloc/Runs.antt =====
-- pmm_alloc_pages of pmm.c takes the first run of free pages that is long enough.
use apsyde.Common.{
  sub64, ℕ, zero, suc, ◌+◌, ◌-◌, ◌*◌, ◌≤◌, ◌<◌, ◌≡◌, refl, ap, ◌⊎◌, inl, inr, true, false, arith,
  sub64-eq, ltb, ◌==◌, Bool-cases, ==_ne, ==_iff,
}
use apsyde.Pmm.Bitmap.{bitmap_test, set_bits}
use apsyde.Pmm.Bitmap.Laws.{set_bits-IsBytes}
use apsyde.Pmm.Bitmap.Count.{free_below-set_bits}
use apsyde.Pmm.State.{Pmm, page_size, null, bit_to_phys}
use apsyde.Pmm.Invariant.{Inv, Inv-update, bit_to_phys-eq, free_pages-le}
use apsyde.Pmm.Alloc.{alloc_pages_from, alloc_pages, alloc_page}
use apsyde.Pmm.Alloc.FirstFit.{PageTaken, alloc_page_none, alloc_page_first_fit}

-- The `count` pages from `start` on are free.
abbrev pub IsFreeRun : Pmm → ℕ → ℕ → Type 0
IsFreeRun s count start = (j : ℕ) → start ≤ j → j < start + count → bitmap_test s.bitmap j ≡ false

-- `out` is the result of taking the first free run of `count` pages, which begins at `start`.
pub record RunTaken (s : Pmm) (count start : ℕ) (out : ℕ × Pmm) : Type 0 where
  pub in_range : start + count ≤ s.bitmap_pages
  pub was_free : IsFreeRun s count start
  pub first : (a : ℕ) → a < start → ¬ IsFreeRun s count a
  pub address : out.0 ≡ s.cover_lo + start * page_size
  pub state :
      out.1 ≡ record s { bitmap = set_bits count start s.bitmap; free_pages = s.free_pages - count }

-- `out` is a refusal, and no run of `count` free pages is there.
pub record NoRun (s : Pmm) (count : ℕ) (out : ℕ × Pmm) : Type 0 where
  pub refused : out ≡ (null, s)
  pub no_run : (a : ℕ) → a + count ≤ s.bitmap_pages → ¬ IsFreeRun s count a

abbrev pub Attempt : Pmm → ℕ → ℕ × Pmm → Type 0
Attempt s count out = ((start : ℕ) × RunTaken s count start out) ⊎ NoRun s count out

run-le-free_pages :
    (s : Pmm) (count a : ℕ)
    → Inv s
    → a + count ≤ s.bitmap_pages
    → IsFreeRun s count a
    → count ≤ s.free_pages
run-le-free_pages s count a v h f =
    omega (arith, v.counted, free_below-set_bits count a s.bitmap s.bitmap_pages v.bytes h f)

-- What the loop knows at index `i`: the last `run` pages are free, and no earlier run will do.
record Scan (s : Pmm) (count i run : ℕ) : Type 0 where
  short : run < count
  within : run ≤ i
  open_run : IsFreeRun s run (i - run)
  earlier : (a : ℕ) → a < i - run → ¬ IsFreeRun s count a

Scan-skip :
    (s : Pmm) (count i run : ℕ)
    → Scan s count i run
    → bitmap_test s.bitmap i ≡ true
    → Scan s count (i + 1) 0
Scan-skip s count i run c used = record {
  short = omega (arith, c.short);
  within = omega arith;
  open_run = λ j p q. absurd (omega arith);
  earlier = λ a p f. elim (Bool-cases (ltb a (i - run))) [
    | inl e ↦ c.earlier a (ground arith) f
    | inr n ↦ ground (arith, used, f i, c.short, c.within)
  ];
}

Scan-more :
    (s : Pmm) (count i run : ℕ)
    → Scan s count i run
    → bitmap_test s.bitmap i ≡ false
    → run + 1 < count
    → Scan s count (i + 1) (run + 1)
Scan-more s count i run c clear h = record {
  short = h;
  within = omega (arith, c.within);
  open_run = λ j p q. elim (Bool-cases (j == i)) [
    | inl e ↦ ground arith
    | inr n ↦ c.open_run j (omega (arith, c.within)) (ground (arith, c.within))
  ];
  earlier = λ a p. c.earlier a (omega arith);
}

Scan-full :
    (s : Pmm) (count i run : ℕ)
    → Inv s
    → Scan s count i run
    → bitmap_test s.bitmap i ≡ false
    → (run + 1 == count) ≡ true
    → i < s.bitmap_pages
    → RunTaken s count (i + 1 - count) (
      bit_to_phys s (i + 1 - count),
      record s {
        bitmap = set_bits count (i + 1 - count) s.bitmap;
        free_pages = sub64 s.free_pages count;
      },
    )
Scan-full s count i run v c clear full h = record {
  in_range = omega (arith, enough, c.within);
  was_free = free_run;
  first = λ a p. c.earlier a (omega (arith, enough));
  address = bit_to_phys-eq s (i + 1 - count) v (omega (arith, enough));
  state =
      ap (λ n. record s { bitmap = set_bits count (i + 1 - count) s.bitmap; free_pages = n })
        (sub64-eq s.free_pages count
          (run-le-free_pages s count (i + 1 - count) v (omega (arith, enough, c.within)) free_run)
          (omega (arith, free_pages-le s v, v.fits)));
}
  where
    enough : run + 1 ≡ count
    enough = (==_iff _ _).0 full

    free_run : IsFreeRun s count (i + 1 - count)
    free_run j p q = elim (Bool-cases (j == i)) [
      | inl e ↦ ground arith
      | inr n ↦ c.open_run j (omega (arith, enough)) (ground (arith, enough, c.within))
    ]

alloc_pages_from-Attempt :
    (count left i run : ℕ) (s : Pmm)
    → Inv s
    → i + left ≡ s.bitmap_pages
    → Scan s count i run
    → Attempt s count (alloc_pages_from count left i run s)
unfolding alloc_pages_from
alloc_pages_from-Attempt count zero i run s v e c =
    inr (record { refused = refl; no_run = λ a p. c.earlier a (omega (arith, c.short, c.within)) })
alloc_pages_from-Attempt count (suc left) i run s v e c =
    elim (Bool-cases (bitmap_test s.bitmap i)) [
      | inl used ↦ rw used (
          alloc_pages_from-Attempt count left (i + 1) 0 s v (omega arith)
            (Scan-skip s count i run c used))
      | inr clear ↦ rw clear (elim (Bool-cases (run + 1 == count)) [
        | inl full ↦
            rw full (inl (i + 1 - count, Scan-full s count i run v c clear full (omega (arith, e))))
        | inr short ↦ rw short (
            alloc_pages_from-Attempt count left (i + 1) (run + 1) s v (omega arith)
              (Scan-more s count i run c clear (ground (arith, c.short))))
      ])
    ]

RunTaken-one : (s : Pmm) (i : ℕ) (out : ℕ × Pmm) → PageTaken s i out → RunTaken s 1 i out
unfolding set_bits
RunTaken-one s i out t = record {
  in_range = omega (arith, t.in_range);
  was_free = λ j p q. let e : j ≡ i = omega arith in rw e t.was_free;
  first = λ a p f. ground (arith, f a, t.first a);
  address = t.address;
  state = t.state;
}

NoRun-few :
    (s : Pmm) (count : ℕ) (out : ℕ × Pmm)
    → Inv s
    → s.free_pages < count
    → out ≡ (null, s)
    → NoRun s count out
NoRun-few s count out v few e = record {
  refused = e;
  no_run = λ a p f. omega (arith, few, run-le-free_pages s count a v p f);
}

alloc_page-Attempt : (s : Pmm) → Inv s → Attempt s 1 (alloc_page s)
alloc_page-Attempt s v = elim (Bool-cases (s.free_pages == 0)) [
  | inl z ↦ inr (NoRun-few s 1 _ v (ground arith) (alloc_page_none s (ground arith)))
  | inr p ↦ let (i, t) = alloc_page_first_fit s v (ground arith) in inl (i, RunTaken-one s i _ t)
]

Scan-start : (s : Pmm) (count : ℕ) → 0 < count → Scan s count 0 0
Scan-start s count h = record {
  short = h;
  within = omega arith;
  open_run = λ j p q. absurd (omega arith);
  earlier = λ a p. absurd (omega arith);
}

-- While the invariant holds, for a positive count pmm_alloc_pages either takes the first run of
-- that many free pages: it returns its address, marks exactly its pages and takes the count from
-- the counter; or it returns NULL, changes nothing, and there is no such run.
pub alloc_pages_outcome :
    (count : ℕ) (s : Pmm) → Inv s → 0 < count → Attempt s count (alloc_pages count s)
unfolding alloc_pages
alloc_pages_outcome count s v pos =
    rw (==_ne count 0 (omega arith)) (elim (Bool-cases (count == 1)) [
      | inl one ↦ let e : count ≡ 1 = (==_iff _ _).0 one in rw one (rw e (alloc_page-Attempt s v))
      | inr many ↦ rw many (elim (Bool-cases (ltb s.free_pages count)) [
        | inl few ↦ rw few (inr (NoRun-few s count _ v (ground arith) refl))
        | inr enough ↦ rw enough (
            alloc_pages_from-Attempt count s.bitmap_pages 0 0 s v (omega arith)
              (Scan-start s count pos))
      ])
    ])

RunTaken-Inv :
    (s : Pmm) (count start : ℕ) (out : ℕ × Pmm) → Inv s → RunTaken s count start out → Inv out.1
RunTaken-Inv s count start out v t = rw t.state (
    Inv-update s _ _ v (set_bits-IsBytes count start s.bitmap v.bytes) (
      omega (
        arith,
        v.counted,
        free_below-set_bits count start s.bitmap s.bitmap_pages v.bytes t.in_range t.was_free,
      )))

alloc_pages_zero : (s : Pmm) → alloc_pages 0 s ≡ (null, s)
unfolding alloc_pages
alloc_pages_zero s = refl

-- pmm_alloc_pages keeps the invariant, whatever the count.
pub alloc_pages-Inv : (count : ℕ) (s : Pmm) → Inv s → Inv (alloc_pages count s).1
alloc_pages-Inv zero s v = rw (alloc_pages_zero s) v
alloc_pages-Inv (suc k) s v = elim (alloc_pages_outcome (suc k) s v (omega arith)) [
  | inl (start, t) ↦ RunTaken-Inv s (suc k) start _ v t
  | inr n ↦ rw n.refused v
]
