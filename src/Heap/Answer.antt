-- ===== src/Heap/Answer.antt =====
-- heap_alloc of heap.c as a whole: what a request gets, and when it gets nothing.
use apsyde.Heap.State.{Heap, ok, header_size, heap_magic_used, align_up}
use apsyde.Heap.Ops.{heap_alloc, place, find_fit, Found, missing, take_block}
use apsyde.Heap.Segs.{occurs, last_or, occurs-split}
use apsyde.Heap.Counts.{occurs-middle, All-occurs_at, All-occurs}
use apsyde.Heap.Shape.{inside_none, block_bounds, free_block, free_all_marked}
use apsyde.Heap.Invariant.{Inv, Returns, WellFormed}
use apsyde.Heap.Request.{take_block-Taken, bounds, align_up-eq}
use apsyde.Heap.Search.{find_fit-cases, Fit, first_fit, Fit-first}
use apsyde.Pmm.State.{null}
use apsyde.Common.{
  ℕ, suc, ◌+◌, ◌-◌, ◌*◌, ◌/◌, ◌%◌, ◌^◌, ◌≤◌, ◌<◌, ◌≡◌, refl, ap, ◌≢◌, ◌⊎◌, inl, inr, List, arith,
  ltb, ◌==◌, if◌then◌else◌, ltb→lt, ==_iff, ==_refl, Bool-cases, if-both, All, u64, sym, ◌∷◌, ◌++◌,
  some,
}
use apsyde.Heap.Alloc.{take_block-WellFormed}

-- The request got the block `block` behind its header, and no other block is touched.
pub record Allocated (h : Heap) (bs fs : List ℕ) (n p : ℕ) (g : Heap) : Type 0 where
  pub block : ℕ
  pub was_free : 0 < occurs block fs
  pub first : first_fit h.size ((n + 15) / 16 * 16) fs ≡ some block
  pub address : p ≡ block + header_size
  pub aligned : p % 16 ≡ 0
  pub inside : (h.heap_start < p) × (p + n ≤ h.heap_end)
  pub used : g.magic block ≡ heap_magic_used
  pub large : n ≤ g.size block
  pub apart :
      (x : ℕ) → 0 < occurs x bs → x ≢ block → (x + header_size + h.size x ≤ block) ⊎ (p + n ≤ x)
  pub kept : (x : ℕ) → 0 < occurs x bs → x ≢ block → (g.magic x ≡ h.magic x) × (g.size x ≡ h.size x)

pub record Refused (h : Heap) (fs : List ℕ) (n p : ℕ) (g : Heap) : Type 0 where
  pub address : p ≡ null
  pub same : g ≡ h
  pub reason : (n ≡ 0) ⊎ All (λ f. h.size f < n) fs

-- What the search for the rounded size `al` finds.
module _ (h : Heap) (bs fs : List ℕ) (v : Inv h bs fs) (al : ℕ) where
  abbrev pub search_result : Found
  search_result = find_fit (suc h.free_blocks) h al null h.free_list

  pub search_cases :
      ((search_result ≡ missing) × All (λ f. h.size f < al) fs) ⊎ Fit h al null fs search_result
  search_cases =
      find_fit-cases h al fs (suc h.free_blocks) null h.free_list v.chain
        (free_all_marked h.heap_start h.heap_end h.magic h.size bs fs v.shape)
        (omega (arith, v.free))

  pub Fit-in_list : (c : Fit h al null fs search_result) → 0 < occurs c.block fs
  Fit-in_list c = ground (
    arith,
    ap (occurs c.block) c.split,
    occurs-middle c.block c.block c.before c.after,
    ==_refl c.block,
  )

  pub Fit-block : (c : Fit h al null fs search_result) → 0 < occurs c.block bs
  Fit-block c =
      free_block h.heap_start h.heap_end h.magic h.size bs fs v.shape c.block (Fit-in_list c)

  pub Fit-Allocated :
      (n : ℕ) (c : Fit h al null fs search_result)
      → al ≡ (n + 15) / 16 * 16
      → Allocated h bs fs n
          (u64 (c.block + header_size))
          (take_block al (last_or null c.before) c.block h)
  Fit-Allocated n c al_is =
      let big : n ≤ al = omega (arith, al_is) in
      let b = c.block in
      let b_in = Fit-block c in
      let t = take_block-Taken h bs fs b al v b_in c.enough (last_or null c.before) in
      let limits = bounds h bs fs b al v b_in c.enough in
      let old = v.shape.headers b b_in in
      let address_is : u64 (b + header_size) ≡ b + header_size = omega (arith, limits, v.no_wrap) in
      let enough = c.enough in
      rw address_is record {
        block = b;
        was_free = Fit-in_list c;
        first = rw (sym al_is) (Fit-first h al null fs search_result c);
        address = refl;
        aligned = omega (arith, old.aligned);
        inside = (omega (arith, limits), omega (arith, limits, enough, big));
        used = t.used;
        large = rw t.size_is big;
        apart = λ x k ne.
            let from_b =
              inside_none h.heap_start h.heap_end h.magic h.size bs fs v.shape b x b_in in
            let from_x = inside_none h.heap_start h.heap_end h.magic h.size bs fs v.shape x b k in
            elim (Bool-cases (ltb x b)) [
              | inl e ↦ inl (elim (Bool-cases (ltb b (x + header_size + h.size x))) [
                | inl q ↦ absurd (
                    omega (
                      arith,
                      b_in,
                      from_x (ltb→lt x b e) (ltb→lt b (x + header_size + h.size x) q),
                    ))
                | inr q ↦ ground (arith, q)
              ])
              | inr e ↦ inr (elim (Bool-cases (ltb x (b + header_size + h.size b))) [
                | inl q ↦ absurd (
                    omega (
                      arith,
                      k,
                      from_b (ground (arith, e, ne)) (ltb→lt x (b + header_size + h.size b) q),
                    ))
                | inr q ↦ ground (arith, q, enough, big)
              ])
            ];
        kept = t.kept;
      }

  -- Free blocks are whole multiples of 16, so one that is smaller than the rounded size is smaller
  -- than the size.
  pub too_small :
      (n : ℕ) → al ≡ (n + 15) / 16 * 16 → All (λ f. h.size f < al) fs → All (λ f. h.size f < n) fs
  too_small n al_is small =
      All-occurs (λ f. h.size f < n) fs
        (λ x k.
          let old =
            v.shape.headers x
              (free_block h.heap_start h.heap_end h.magic h.size bs fs v.shape x k) in
          omega (arith, old.whole, al_is, All-occurs_at (λ f. h.size f < al) x fs small k))

  pub all_small : 2 ^ 20 ≤ al → All (λ f. h.size f < al) fs
  all_small big =
      All-occurs (λ f. h.size f < al) fs
        (λ x k. omega (
          arith,
          big,
          v.extent,
          block_bounds h.heap_start h.heap_end h.magic h.size bs fs v.shape x
              (free_block h.heap_start h.heap_end h.magic h.size bs fs v.shape x k),
        ))

abbrev pub Answered : (h : Heap) (bs fs : List ℕ) (n : ℕ) → ℕ × Heap → Type 0
Answered h bs fs n r = Allocated h bs fs n (r.0) (r.1) ⊎ Refused h fs n (r.0) (r.1)

-- While the invariant holds, heap_alloc of a size below 2^64 - 15 returns. Either its result is
-- the address behind the header of the first block of the free list that is large enough for the
-- size rounded up to a multiple of 16; the address is a multiple of 16, and the block is marked
-- as used, has the size, lies in the heap, overlaps no other block, and the headers of the other
-- blocks have the mark and size as before. Or it returns NULL and changes nothing, and the size
-- is 0 or larger than every free block.
pub heap_alloc_lem :
    (h : Heap) (bs fs : List ℕ) (n : ℕ)
    → Inv h bs fs
    → n + 15 < 2 ^ 64
    → Returns (Answered h bs fs n) (heap_alloc n h)
unfolding heap_alloc place
heap_alloc_lem h bs fs n v fits =
    let al = align_up n in
    let al_is = align_up-eq n fits in
    if-both (Returns (Answered h bs fs n)) (n == 0) (ok (null, h))
      (if ltb (2 ^ 32 - 1) al
        then ok (null, h)
        else place al (find_fit (suc h.free_blocks) h al null h.free_list) h)
      (λ e. inr record { address = refl; same = refl; reason = inl ((==_iff n 0).0 e) })
      (λ e.
        if-both (Returns (Answered h bs fs n)) (ltb (2 ^ 32 - 1) al) (ok (null, h))
          (place al (find_fit (suc h.free_blocks) h al null h.free_list) h)
          (λ q. inr record {
            address = refl;
            same = refl;
            reason =
                inr (too_small h bs fs v al n al_is (all_small h bs fs v al (ground (arith, q))));
          })
          (λ q. elim (search_cases h bs fs v al) [
            | inl m ↦ rw (m.0) (
                inr record {
                  address = refl;
                  same = refl;
                  reason = inr (too_small h bs fs v al n al_is (m.1));
                })
            | inr c ↦ rw (c.result) (inl (Fit-Allocated h bs fs v al n c al_is))
          ]))

-- The first free block that is large enough is not larger than the rounded size by just 16 or 32
-- bytes.
abbrev pub NoSliver : Heap → List ℕ → ℕ → Type 0
NoSliver h fs al =
    (b : ℕ) → first_fit h.size al fs ≡ some b → (h.size b ≢ al + 16) × (h.size b ≢ al + 32)

-- On a well-formed heap, heap_alloc of a size below 2^64 - 15 neither panics nor loops and leaves
-- a well-formed heap, where the first free block that is large enough is not larger than the
-- size, rounded up to a multiple of 16, by just 16 or 32 bytes.
pub heap_alloc-WellFormed :
    (h : Heap) (bs fs : List ℕ) (n : ℕ)
    → Inv h bs fs
    → n + 15 < 2 ^ 64
    → NoSliver h fs ((n + 15) / 16 * 16)
    → Returns (λ r. WellFormed (r.1)) (heap_alloc n h)
unfolding heap_alloc place
heap_alloc-WellFormed h bs fs n v fits none_close =
    let al = align_up n in
    let al_is = align_up-eq n fits in
    let as_is : WellFormed h = record { blocks = bs; free = fs; inv = v } in
    if-both (Returns (λ r. WellFormed (r.1))) (n == 0) (ok (null, h))
      (if ltb (2 ^ 32 - 1) al
        then ok (null, h)
        else place al (find_fit (suc h.free_blocks) h al null h.free_list) h)
      (λ e. as_is)
      (λ e.
        if-both (Returns (λ r. WellFormed (r.1))) (ltb (2 ^ 32 - 1) al) (ok (null, h))
          (place al (find_fit (suc h.free_blocks) h al null h.free_list) h) (λ q. as_is)
          (λ q. elim (search_cases h bs fs v al) [
            | inl m ↦ rw (m.0) as_is
            | inr c ↦
                let b_in = Fit-block h bs fs v al c in
                let away =
                  none_close c.block
                    (rw (sym al_is) (Fit-first h al null fs (search_result h bs fs v al) c)) in
                let s = occurs-split c.block bs b_in in
                let w : Inv h (s.0 ++ (c.block ∷ s.1)) (c.before ++ (c.block ∷ c.after)) =
                  rw (sym (s.2), sym c.split) v in
                rw (c.result) (
                  take_block-WellFormed h (s.0) (s.1) c.before c.after c.block al w
                    (omega (arith, al_is)) (ground (arith, al_is, e)) c.enough (rw al_is (away.0))
                    (rw al_is (away.1)))
          ]))
