-- ===== src/Heap/Free.antt =====
-- heap_free of heap.c keeps the heap well-formed.
use apsyde.Heap.State.{
  Heap, header_size, heap_magic_free, heap_magic_used, next_block, is_in_heap, write,
}
use apsyde.Heap.Ops.{heap_free, push_free, join_next, bypass, absorb, find_prev, relink}
use apsyde.Heap.Segs.{
  occurs, occurs-split, occurs-append, occurs-ne, last_or, Chain, Chain-write, Chain-split,
  write_self, AllOnce, occurs-cons, Tiles-le,
}
use apsyde.Heap.Counts.{occurs-middle, length-middle, Tiles-Cut}
use apsyde.Heap.Shape.{block_bounds, free_once, free_block}
use apsyde.Heap.Merge.{Shape-free, Shape-join}
use apsyde.Heap.Invariant.{Inv, WellFormed, Returns, blocks_few, free_few}
use apsyde.Heap.Search.{relink-Chain, find_prev_lem, last_or-there}
use apsyde.Pmm.State.{null}
use apsyde.Common.{
  ℕ, suc, ◌+◌, ◌≤◌, ◌<◌, ◌≡◌, refl, sym, ◌≢◌, some, List, [], ◌∷◌, ◌++◌, arith, ==_refl, ==_ne,
  length-append, u32, ◌∙◌, inl, inr, true, false, ltb, ◌==◌, lt→ltb, le→ltb, Bool-cases, u64, ap,
  subst, leb, sub64,
}

-- The block is marked as free and stands first in the list.
push_free-Inv :
    (h : Heap) (bs fs : List ℕ) (b : ℕ)
    → Inv h bs fs
    → 0 < occurs b bs
    → h.magic b ≡ heap_magic_used
    → Inv (push_free b h) bs (b ∷ fs)
unfolding push_free
push_free-Inv h bs fs b v k used =
    let limits = block_bounds h.heap_start h.heap_end h.magic h.size bs fs v.shape b k in
    let fresh : occurs b fs ≡ 0 = ground (arith, v.shape.listed b, used) in
    record {
      low = v.low;
      extent = v.extent;
      no_wrap = v.no_wrap;
      shape = Shape-free h.heap_start h.heap_end h.magic h.size bs fs b v.shape k used;
      chain = (
        refl,
        (λ e. omega (arith, e, v.low, limits)),
        rw (write_self h.next_free b h.free_list)
            (Chain-write h.next_free b h.free_list h.free_list fs null fresh v.chain),
      );
      total = v.total;
      free = omega (arith, v.free, free_few h bs fs v, blocks_few h bs fs v);
    }

pub push_free-magic : (h : Heap) (b : ℕ) → (push_free b h).magic b ≡ heap_magic_free
unfolding push_free
push_free-magic h b = write_self h.magic b heap_magic_free

relink-there :
    (prev v : ℕ) (h : Heap)
    → prev ≢ null
    → relink prev v h ≡ record h { next_free = write h.next_free prev v }
unfolding relink
relink-there prev v h n = rw (==_ne prev null n) refl

-- The block `b`, which stands first in the list, takes in the free block `n` behind it.
module _ (h : Heap) (xs ys l r : List ℕ) (b n : ℕ)
    (v : Inv h (xs ++ (b ∷ (n ∷ ys))) (b ∷ (l ++ (n ∷ r))))
    (b_free : h.magic b ≡ heap_magic_free) where
  abbrev all_blocks : List ℕ
  all_blocks = xs ++ (b ∷ (n ∷ ys))

  abbrev all_free : List ℕ
  all_free = b ∷ (l ++ (n ∷ r))

  fs_once : AllOnce all_free
  fs_once = free_once h.heap_start h.heap_end h.magic h.size all_blocks all_free v.shape

  n_not_before : occurs n (b ∷ l) ≡ 0
  n_not_before =
      ground (arith, fs_once n, occurs-append n (b ∷ l) (n ∷ r), occurs-middle n n [] r, ==_refl n)

  parts : (m : ℕ) × Chain h.next_free h.free_list (b ∷ l) m × Chain h.next_free m (n ∷ r) null
  parts = Chain-split h.next_free h.free_list (b ∷ l) (n ∷ r) null v.chain

  abbrev prev : ℕ
  prev = last_or b l

  prev_there : prev ≢ null
  prev_there = last_or-there h.next_free b l (parts.0) ((parts.1).1) ((parts.1).2)

  n_in : 0 < occurs n all_blocks
  n_in =
      free_block h.heap_start h.heap_end h.magic h.size all_blocks all_free v.shape n
        (ground (arith, occurs-middle n n (b ∷ l) r, ==_refl n))

  b_in : 0 < occurs b all_blocks
  b_in = ground (arith, occurs-middle b b xs (n ∷ ys), ==_refl b)

  limits : b + header_size + h.size b + header_size + h.size n ≤ h.heap_end
  limits =
      let c = Tiles-Cut h.size h.heap_start xs b (n ∷ ys) h.heap_end v.shape.tiles in
      omega (
        arith,
        (c.after).0,
        block_bounds h.heap_start h.heap_end h.magic h.size all_blocks all_free v.shape n n_in,
      )

  found : find_prev (suc h.free_blocks) h.next_free n h.free_list ≡ some prev
  found =
      let n_is : parts.0 ≡ n = (parts.2).0 in
      let to_n : Chain h.next_free (h.next_free b) l n = rw (sym n_is) ((parts.1).2) in
      ap (find_prev (suc h.free_blocks) h.next_free n) v.chain.0
      ∙ find_prev_lem h.next_free n b l (suc h.free_blocks) ((parts.1).1) to_n
          (omega (arith, n_not_before, occurs-cons n b l))
          (omega (arith, v.free, length-append l (n ∷ r)))

  joined-Chain : Chain (write h.next_free prev (h.next_free n)) h.free_list ((b ∷ l) ++ r) null
  joined-Chain =
      subst (λ (g : Heap). Chain g.next_free g.free_list ((b ∷ l) ++ r) null)
        (relink-there prev (h.next_free n) h prev_there)
        (relink-Chain h (b ∷ l) r r n (h.next_free n) v.chain
          (λ x. omega (arith, fs_once x, occurs-middle x n (b ∷ l) r)) ((parts.2).2))

  joined_WellFormed :
      WellFormed (absorb b n record h { next_free = write h.next_free prev (h.next_free n) })
  unfolding absorb
  joined_WellFormed =
      let size_is : u32 (h.size b + header_size + h.size n) ≡ h.size b + header_size + h.size n =
        omega (
          arith,
          limits,
          v.low,
          v.extent,
          block_bounds h.heap_start h.heap_end h.magic h.size all_blocks all_free v.shape b b_in,
        ) in
      record {
        blocks = xs ++ (b ∷ ys);
        free = (b ∷ l) ++ r;
        inv = record {
          low = v.low;
          extent = v.extent;
          no_wrap = v.no_wrap;
          shape = rw size_is (
              Shape-join h.heap_start h.heap_end h.magic h.size xs ys (b ∷ l) r b n v.shape b_free);
          chain = joined-Chain;
          total = omega (
            arith,
            v.total,
            length-append xs (b ∷ (n ∷ ys)),
            length-append xs (b ∷ ys),
            blocks_few h all_blocks all_free v,
          );
          free = omega (
            arith,
            v.free,
            length-middle n (b ∷ l) r,
            free_few h all_blocks all_free v,
            blocks_few h all_blocks all_free v,
          );
        };
      }

  bypass-WellFormed :
      Returns WellFormed (bypass (find_prev (suc h.free_blocks) h.next_free n h.free_list) b n h)
  unfolding bypass
  bypass-WellFormed = rw (found, ==_ne prev null prev_there) joined_WellFormed

-- The block that was put first in the list is joined to a free block behind it.
join_next-WellFormed :
    (h : Heap) (xs zs fs : List ℕ) (b : ℕ)
    → Inv h (xs ++ (b ∷ zs)) (b ∷ fs)
    → h.magic b ≡ heap_magic_free
    → Returns WellFormed (join_next b h)
unfolding join_next next_block
join_next-WellFormed h xs [] fs b v b_free =
    let end_is = (Tiles-Cut h.size h.heap_start xs b [] h.heap_end v.shape.tiles).after in
    rw (le→ltb (u64 (b + header_size + h.size b)) h.heap_end (omega (arith, end_is, v.no_wrap)))
      record { blocks = xs ++ (b ∷ []); free = b ∷ fs; inv = v }
join_next-WellFormed h xs (n ∷ ys) fs b v b_free =
    let t = (Tiles-Cut h.size h.heap_start xs b (n ∷ ys) h.heap_end v.shape.tiles).after in
    let far = Tiles-le h.size (n + header_size + h.size n) ys h.heap_end (t.1) in
    let next_is : u64 (b + header_size + h.size b) ≡ n = omega (arith, t.0, far, v.no_wrap) in
    let inside : ltb n h.heap_end ≡ true = lt→ltb n h.heap_end (omega (arith, far)) in
    let n_far : n ≢ b = λ e. omega (arith, e, t.0) in
    let head_is : h.free_list ≡ b = v.chain.0 in
    let other : (h.free_list == n) ≡ false = ==_ne h.free_list n (λ e. n_far (sym e ∙ head_is)) in
    rw (next_is, inside)
      (elim (Bool-cases (h.magic n == heap_magic_free)) [
        | inl e ↦
            let n_in : 0 < occurs n fs = ground (
              arith,
              e,
              v.shape.listed n,
              occurs-ne n b fs n_far,
              occurs-middle n b xs (n ∷ ys),
              occurs-middle n n xs ys,
              ==_refl n,
            ) in
            let s = occurs-split n fs n_in in
            let w : Inv h (xs ++ (b ∷ (n ∷ ys))) (b ∷ (s.0 ++ (n ∷ s.1))) = rw (sym (s.2)) v in
            rw (e, other) (bypass-WellFormed h xs ys (s.0) (s.1) b n w b_free)
        | inr e ↦ rw e record { blocks = xs ++ (b ∷ (n ∷ ys)); free = b ∷ fs; inv = v }
      ])

-- On a well-formed heap, heap_free of the address behind the header of a used block returns, and
-- leaves a well-formed heap.
pub heap_free-WellFormed :
    (h : Heap) (bs fs : List ℕ) (b : ℕ)
    → Inv h bs fs
    → 0 < occurs b bs
    → h.magic b ≡ heap_magic_used
    → Returns WellFormed (heap_free (b + header_size) h)
unfolding heap_free is_in_heap
heap_free-WellFormed h bs fs b v k used =
    let limits = block_bounds h.heap_start h.heap_end h.magic h.size bs fs v.shape b k in
    let b_is : sub64 (b + header_size) header_size ≡ b = omega (arith, limits, v.no_wrap) in
    let low_in : leb h.heap_start (b + header_size) ≡ true = ground (arith, limits) in
    let s = occurs-split b bs k in
    let w : Inv (push_free b h) (s.0 ++ (b ∷ s.1)) (b ∷ fs) =
      rw (sym (s.2)) (push_free-Inv h bs fs b v k used) in
    rw
      (
        b_is,
        ==_ne (b + header_size) null (λ e. omega (arith, e)),
        low_in,
        lt→ltb (b + header_size) h.heap_end (omega (arith, limits, (v.shape.headers b k).roomy)),
        used,
      )
      (join_next-WellFormed (push_free b h) (s.0) (s.1) fs b w (push_free-magic h b))
