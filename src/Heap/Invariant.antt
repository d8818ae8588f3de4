-- ===== src/Heap/Invariant.antt =====
-- The invariant of the state of heap.c: the blocks fill the heap, and the list has the free ones.
use apsyde.Heap.State.{Heap, Result, ok, panicked, hung}
use apsyde.Heap.Segs.{Chain, Tiles-le}
use apsyde.Heap.Counts.{occurs-length}
use apsyde.Heap.Shape.{Shape}
use apsyde.Pmm.State.{null}
use apsyde.Common.{ℕ, ◌+◌, ◌^◌, ◌≤◌, ◌<◌, ◌≡◌, List, arith, length}

-- The blocks `bs` fill the heap, one after the other; the list leads through `fs`, which are the
-- blocks marked as free; the counters count both.
pub record Inv (h : Heap) (bs fs : List ℕ) : Type 0 where
  pub low : 0 < h.heap_start
  pub extent : h.heap_end ≡ h.heap_start + 2 ^ 20
  pub no_wrap : h.heap_end < 2 ^ 64
  pub shape : Shape h.heap_start h.heap_end h.magic h.size bs fs
  pub chain : Chain h.next_free h.free_list fs null
  pub total : h.total_blocks ≡ length bs
  pub free : h.free_blocks ≡ length fs

pub record WellFormed (h : Heap) : Type 0 where
  pub blocks : List ℕ
  pub free : List ℕ
  pub inv : Inv h blocks free

-- The call returns, and what it returns has the property.
abbrev pub Returns : {A : Type 0} → (A → Type 0) → Result A → Type 0
Returns P (ok a) = P a
Returns P panicked = ⊥
Returns P hung = ⊥

module _ (h : Heap) (bs fs : List ℕ) (v : Inv h bs fs) where
  -- At most 32,768 blocks fit.
  pub blocks_few : length bs ≤ 2 ^ 15
  blocks_few = omega (arith, Tiles-le h.size h.heap_start bs h.heap_end v.shape.tiles, v.extent)

  pub free_few : length fs ≤ length bs
  free_few = occurs-length fs bs (λ x. ground (arith, v.shape.listed x))

pub Returns-map :
    {A : Type 0} (P Q : A → Type 0) (r : Result A)
    → ((a : A) → P a → Q a)
    → Returns P r
    → Returns Q r
Returns-map P Q (ok a) f p = f a p
Returns-map P Q panicked f p = absurd p
Returns-map P Q hung f p = absurd p
