-- ===== src/Heap/Walk.antt =====
-- heap_check and heap_get_stats of heap.c walk over all blocks of a well-formed heap.
use apsyde.Heap.State.{Heap, header_size, heap_magic_free, heap_magic_used, next_block}
use apsyde.Heap.Stats.{check_from, heap_check}
use apsyde.Heap.Segs.{occurs, occurs_self, occurs-cons, Tiles, Tiles-le}
use apsyde.Heap.Invariant.{Inv}
use apsyde.Common.{
  ℕ, zero, suc, ◌+◌, ◌^◌, ◌≤◌, ◌<◌, ◌≡◌, refl, sym, ◌∙◌, ◌⊎◌, some, List, [], ◌∷◌, arith, length,
  inl, inr, true, false, ltb, ◌==◌, lt→ltb, le→ltb, ==_ne,
}

abbrev pub IsMarked : Heap → ℕ → Type 0
IsMarked h x = (h.magic x ≡ heap_magic_free) ⊎ (h.magic x ≡ heap_magic_used)

-- The walk of heap_check goes over a segment of the heap.
pub check_walk :
    (h : Heap) (a : ℕ) (xs : List ℕ) (m fuel k : ℕ)
    → Tiles h.size a xs m
    → m ≤ h.heap_end
    → h.heap_end < 2 ^ 64
    → ((x : ℕ) → 0 < occurs x xs → IsMarked h x)
    → fuel ≡ length xs + k
    → check_from fuel h a ≡ check_from k h m
unfolding check_from next_block
check_walk h a [] m fuel k t i w g f = let same : fuel ≡ k = omega (arith, f) in rw (t, same) refl
check_walk h a (x ∷ xs) m zero k t i w g f = absurd (omega (arith, f))
check_walk h a (x ∷ xs) m (suc fuel) k t i w g f =
    let far = Tiles-le h.size (x + header_size + h.size x) xs m (t.1) in
    let marked = g x (omega (arith, occurs_self x xs)) in
    let there : next_block h a ≡ x + header_size + h.size x =
      rw (sym (t.0)) (omega (arith, far, i, w)) in
    let rest =
      check_walk h (x + header_size + h.size x) xs m fuel k (t.1) i w
        (λ y p. g y (omega (arith, p, occurs-cons y x xs))) (omega (arith, f)) in
    let here : a ≡ x = sym (t.0) in
    let inside : ltb x h.heap_end ≡ true = lt→ltb x h.heap_end (omega (arith, far, i)) in
    let behind = le→ltb h.heap_end (x + header_size + h.size x) (omega (arith, far, i)) in
    let moved : (x + header_size + h.size x == x) ≡ false =
      ==_ne (x + header_size + h.size x) x (λ e. omega (arith, e)) in
    rw (there, here)
      (elim marked [
        | inl q ↦ rw (q, inside, behind, moved) rest
        | inr q ↦ rw (q, inside, behind, moved) rest
      ])

-- heap_check finds a well-formed heap in order, within its fuel.
pub heap_check_lem : (h : Heap) (bs fs : List ℕ) → Inv h bs fs → heap_check h ≡ some 1
unfolding heap_check check_from
heap_check_lem h bs fs v =
    check_walk h h.heap_start bs h.heap_end (suc h.total_blocks) 1 v.shape.tiles (omega arith)
      v.no_wrap (λ x k. (v.shape.headers x k).marked) (omega (arith, v.total))
    ∙ ground arith
