-- ===== src/Heap/Report.antt =====
-- heap_get_stats of heap.c counts the blocks and the bytes of a well-formed heap.
use apsyde.Heap.State.{Heap, header_size, heap_magic_free, heap_magic_used, next_block}
use apsyde.Heap.Stats.{stats_from, heap_get_stats, report, HeapStats}
use apsyde.Heap.Segs.{occurs, occurs_self, occurs-cons, Tiles, Tiles-le}
use apsyde.Heap.Counts.{occurs-length}
use apsyde.Heap.Invariant.{Inv}
use apsyde.Heap.Walk.{IsMarked}
use apsyde.Common.{
  ℕ, zero, suc, ◌+◌, ◌^◌, ◌≤◌, ◌<◌, ◌≡◌, sym, ap, ap₂, ◌∙◌, inl, inr, true, some, List, [], ◌∷◌,
  arith, ltb, ◌==◌, if◌then◌else◌, lt→ltb, le→ltb, ==_iff, Bool-cases, length, u64,
}

-- The blocks that are marked as free.
unfoldable free_of : (ℕ → ℕ) → List ℕ → List ℕ
free_of magic [] = []
free_of magic (b ∷ bs) =
    if magic b == heap_magic_free then b ∷ free_of magic bs else free_of magic bs

-- The number of the blocks that are marked as used, and their bytes with the headers.
unfoldable pub count_used : (ℕ → ℕ) → List ℕ → ℕ
count_used magic [] = 0
count_used magic (b ∷ bs) = (if magic b == heap_magic_used then 1 else 0) + count_used magic bs

unfoldable pub bytes_used : (ℕ → ℕ) → (ℕ → ℕ) → List ℕ → ℕ
bytes_used magic size [] = 0
bytes_used magic size (b ∷ bs) =
    (if magic b == heap_magic_used then header_size + size b else 0) + bytes_used magic size bs

occurs-free_of :
    (magic : ℕ → ℕ) (x : ℕ) (bs : List ℕ)
    → occurs x (free_of magic bs) ≡ (if magic x == heap_magic_free then occurs x bs else 0)
unfolding occurs free_of
occurs-free_of magic x [] = ground arith
occurs-free_of magic x (b ∷ bs) =
    let ih = occurs-free_of magic x bs in
    elim (Bool-cases (magic b == heap_magic_free)) [
      | inl e ↦ elim (Bool-cases (x == b)) [
        | inl q ↦
            let same : magic x ≡ magic b = ap magic ((==_iff x b).0 q) in
            rw e (ground (arith, e, q, same, ih))
        | inr q ↦ rw e (ground (arith, q, ih))
      ]
      | inr e ↦ elim (Bool-cases (x == b)) [
        | inl q ↦
            let same : magic x ≡ magic b = ap magic ((==_iff x b).0 q) in
            rw e (ground (arith, e, q, same, ih))
        | inr q ↦ rw e (ground (arith, q, ih))
      ]
    ]

-- Every block is marked as used or as free.
length-free_of :
    (h : Heap) (bs : List ℕ)
    → ((x : ℕ) → 0 < occurs x bs → IsMarked h x)
    → count_used h.magic bs + length (free_of h.magic bs) ≡ length bs
unfolding count_used free_of
length-free_of h [] g = omega arith
length-free_of h (b ∷ bs) g =
    let ih = length-free_of h bs (λ y p. g y (omega (arith, p, occurs-cons y b bs))) in
    elim (g b (omega (arith, occurs_self b bs))) [
      | inl e ↦ rw e (omega (arith, ih))
      | inr e ↦ rw e (omega (arith, ih))
    ]

pub used_and_free :
    (h : Heap) (bs fs : List ℕ)
    → Inv h bs fs
    → count_used h.magic bs + h.free_blocks ≡ h.total_blocks
used_and_free h bs fs v =
    let same : (x : ℕ) → occurs x fs ≡ occurs x (free_of h.magic bs) =
      λ x. v.shape.listed x ∙ sym (occurs-free_of h.magic x bs) in
    omega (
      arith,
      v.free,
      v.total,
      length-free_of h bs (λ x k. (v.shape.headers x k).marked),
      occurs-length fs (free_of h.magic bs) (λ x. omega (arith, same x)),
      occurs-length (free_of h.magic bs) fs (λ x. omega (arith, same x)),
    )

-- The walk goes over a segment and adds its blocks and bytes.
stats_walk :
    (h : Heap) (a : ℕ) (xs : List ℕ) (fuel used blocks : ℕ)
    → Tiles h.size a xs h.heap_end
    → h.heap_end < 2 ^ 64
    → ((x : ℕ) → 0 < occurs x xs → IsMarked h x)
    → length xs < fuel
    → used ≤ a
    → blocks ≤ used
    → stats_from fuel h a used blocks
      ≡ some (used + bytes_used h.magic h.size xs, blocks + count_used h.magic xs)
unfolding stats_from next_block count_used bytes_used
stats_walk h a xs zero used blocks t w g f u c = absurd (omega (arith, f))
stats_walk h a [] (suc fuel) used blocks t w g f u c =
    rw (le→ltb a h.heap_end (omega (arith, t)))
      (ap₂ (λ (x : ℕ) (y : ℕ). some (x, y)) (omega arith) (omega arith))
stats_walk h a (x ∷ xs) (suc fuel) used blocks t w g f u c =
    let far = Tiles-le h.size (x + header_size + h.size x) xs h.heap_end (t.1) in
    let n = h.size x in
    let here : a ≡ x = sym (t.0) in
    let inside : ltb x h.heap_end ≡ true = lt→ltb x h.heap_end (omega (arith, far)) in
    let there : u64 (x + header_size + n) ≡ x + header_size + n = omega (arith, far, w) in
    let more : u64 (used + header_size + n) ≡ used + header_size + n =
      omega (arith, far, w, u, here) in
    let one_more : u64 (blocks + 1) ≡ blocks + 1 = omega (arith, far, w, u, here, c) in
    let ih = stats_walk h (x + header_size + n) xs fuel in
    let marks : (y : ℕ) → 0 < occurs y xs → IsMarked h y =
      λ y p. g y (omega (arith, p, occurs-cons y x xs)) in
    rw (here, inside, there)
      (elim (g x (omega (arith, occurs_self x xs))) [
        | inl e ↦ rw e (
            ih used blocks (t.1) w marks (omega (arith, f)) (omega (arith, u, here)) c
            ∙ ap₂ (λ (x : ℕ) (y : ℕ). some (x, y)) (omega arith) (omega arith))
        | inr e ↦
            rw (e, more, one_more)
              (ih (used + header_size + n) (blocks + 1) (t.1) w marks (omega (arith, f))
                  (omega (arith, u, here)) (omega (arith, c))
                ∙ ap₂ (λ (x : ℕ) (y : ℕ). some (x, y)) (omega arith) (omega arith))
      ])

-- What heap_get_stats reports: the blocks in use with their headers, and the rest.
pub record Counted (h : Heap) (bs : List ℕ) (st : HeapStats) : Type 0 where
  pub used_blocks_is : st.used_blocks ≡ count_used h.magic bs
  pub blocks_add : st.used_blocks + st.free_blocks ≡ st.total_blocks
  pub used_bytes_is : st.used_bytes ≡ bytes_used h.magic h.size bs
  pub bytes_add : st.used_bytes + st.free_bytes ≡ st.total_bytes
  pub total_is : st.total_bytes ≡ 2 ^ 20

bytes_used-le :
    (h : Heap) (a : ℕ) (xs : List ℕ) (e : ℕ)
    → Tiles h.size a xs e
    → a + bytes_used h.magic h.size xs ≤ e
unfolding bytes_used
bytes_used-le h a [] e t = omega (arith, t)
bytes_used-le h a (x ∷ xs) e t =
    let ih = bytes_used-le h (x + header_size + h.size x) xs e (t.1) in
    elim (Bool-cases (h.magic x == heap_magic_used)) [
      | inl q ↦ rw q (omega (arith, ih, t.0))
      | inr q ↦ rw q (omega (arith, ih, t.0))
    ]

-- On a well-formed heap heap_get_stats ends within its fuel; the blocks and bytes in use that it
-- reports are those of the blocks marked as used, with their headers, and together with the free
-- ones they make up all blocks and all bytes, 1 MiB.
pub heap_get_stats_lem :
    (h : Heap) (bs fs : List ℕ)
    → Inv h bs fs
    → (st : HeapStats) × (heap_get_stats h ≡ some st) × Counted h bs st
unfolding heap_get_stats report
heap_get_stats_lem h bs fs v =
    let w =
      stats_walk h h.heap_start bs (suc h.total_blocks) 0 0 v.shape.tiles v.no_wrap
        (λ x k. (v.shape.headers x k).marked) (omega (arith, v.total)) (omega arith)
        (omega arith) in
    let all = bytes_used-le h h.heap_start bs h.heap_end v.shape.tiles in
    (
      _,
      ap (report h) w,
      record {
        used_blocks_is = omega arith;
        blocks_add = omega (arith, used_and_free h bs fs v);
        used_bytes_is = omega arith;
        bytes_add = omega (arith, all, v.extent, v.no_wrap);
        total_is = omega (arith, v.extent, v.no_wrap);
      },
    )
