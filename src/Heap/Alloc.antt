-- ===== src/Heap/Alloc.antt =====
-- The block that heap_alloc of heap.c takes, and the state it leaves.
use apsyde.Heap.State.{Heap, header_size, write, write_free_header, heap_alignment}
use apsyde.Heap.Ops.{relink, unlink_block, mark_used, split_block, take_block}
use apsyde.Heap.Segs.{
  occurs, occurs-append, last_or, Chain, Chain-write, Chain-split, write_self, AllOnce,
}
use apsyde.Heap.Counts.{occurs-middle, length-middle}
use apsyde.Heap.Shape.{Shape-take, new_none, free_once, block_bounds, Shape-split}
use apsyde.Heap.Invariant.{Inv, WellFormed, blocks_few, free_few}
use apsyde.Heap.Search.{relink-Chain}
use apsyde.Pmm.State.{null}
use apsyde.Common.{
  ℕ, ◌+◌, ◌%◌, ◌≤◌, ◌<◌, ◌≡◌, refl, ◌∙◌, List, ◌∷◌, ◌++◌, arith, ◌==◌, ==_refl, if-both, u32, ◌-◌,
  sym, ◌≢◌, leb, length-append, u64, sub32,
}

-- All but the list is the same.
pub record Same (h g : Heap) : Type 0 where
  pub start_is : g.heap_start ≡ h.heap_start
  pub end_is : g.heap_end ≡ h.heap_end
  pub magic_is : g.magic ≡ h.magic
  pub size_is : g.size ≡ h.size
  pub total_is : g.total_blocks ≡ h.total_blocks
  pub free_is : g.free_blocks ≡ h.free_blocks

pub relink-Same : (prev v : ℕ) (h : Heap) → Same h (relink prev v h)
unfolding relink
relink-Same prev v h =
    if-both (Same h) (prev == null) record h { free_list = v }
      record h { next_free = write h.next_free prev v }
      (λ e. record {
        start_is = refl;
        end_is = refl;
        magic_is = refl;
        size_is = refl;
        total_is = refl;
        free_is = refl;
      })
      (λ e. record {
        start_is = refl;
        end_is = refl;
        magic_is = refl;
        size_is = refl;
        total_is = refl;
        free_is = refl;
      })

-- The invariant with a block `b` that is in the list.
module _ (h : Heap) (xs ys l r : List ℕ) (b al : ℕ) (v : Inv h (xs ++ (b ∷ ys)) (l ++ (b ∷ r)))
    (al_whole : al % 16 ≡ 0) (al_some : 0 < al) (enough : al ≤ h.size b) where
  b_block : 0 < occurs b (xs ++ (b ∷ ys))
  b_block = ground (arith, occurs-middle b b xs ys, ==_refl b)

  b_bounds : (h.heap_start ≤ b) × (b + header_size + h.size b ≤ h.heap_end)
  b_bounds =
      block_bounds h.heap_start h.heap_end h.magic h.size (xs ++ (b ∷ ys)) (l ++ (b ∷ r)) v.shape b
        b_block

  fs_once : AllOnce (l ++ (b ∷ r))
  fs_once = free_once h.heap_start h.heap_end h.magic h.size (xs ++ (b ∷ ys)) (l ++ (b ∷ r)) v.shape

  b_once : occurs b (l ++ r) ≡ 0
  b_once = ground (arith, fs_once b, occurs-middle b b l r, ==_refl b)

  rest_once : AllOnce (l ++ r)
  rest_once x = omega (arith, fs_once x, occurs-middle x b l r)

  behind_b : Chain h.next_free (h.next_free b) r null
  behind_b = let p = Chain-split h.next_free h.free_list l (b ∷ r) null v.chain in (p.2).2

  unlink_WellFormed :
      al ≡ h.size b → WellFormed (mark_used al b (unlink_block (last_or null l) b h))
  unfolding mark_used unlink_block
  unlink_WellFormed same =
      let s = relink-Same (last_or null l) (h.next_free b) h in
      let al_is : u32 al ≡ h.size b = omega (arith, same, b_bounds, v.extent) in
      record {
        blocks = xs ++ (b ∷ ys);
        free = l ++ r;
        inv = record {
          low = rw s.start_is v.low;
          extent = rw (s.start_is, s.end_is) v.extent;
          no_wrap = rw s.end_is v.no_wrap;
          shape =
              rw (s.start_is, s.end_is, s.magic_is, s.size_is, al_is)
                (Shape-take h.heap_start h.heap_end h.magic h.size xs ys l r b v.shape);
          chain =
              Chain-write (relink (last_or null l) (h.next_free b) h).next_free b null
                (relink (last_or null l) (h.next_free b) h).free_list (l ++ r) null b_once
                (relink-Chain h l r r b (h.next_free b) v.chain rest_once behind_b);
          total = s.total_is ∙ v.total;
          free = rw s.free_is (
              omega (
                arith,
                v.free,
                length-middle b l r,
                free_few h (xs ++ (b ∷ ys)) (l ++ (b ∷ r)) v,
                blocks_few h (xs ++ (b ∷ ys)) (l ++ (b ∷ r)) v,
              ));
        };
      }

  module _ (rem : ℕ) (rem_some : 0 < rem) (parts : h.size b ≡ al + header_size + rem) where
    abbrev new_b : ℕ
    new_b = b + header_size + al

    new_fresh : occurs new_b (l ++ (b ∷ r)) ≡ 0
    new_fresh = ground (
      arith,
      new_none h.heap_start h.heap_end h.magic h.size xs ys l r b al rem v.shape al_whole al_some
          rem_some parts,
      v.shape.listed new_b,
    )

    -- The state after the header of the new block is written.
    abbrev with_new : Heap
    with_new = write_free_header new_b rem (h.next_free b) h

    split-Chain :
        Chain
          (write (relink (last_or null l) new_b with_new).next_free b null)
          (relink (last_or null l) new_b with_new).free_list
          (l ++ (new_b ∷ r))
          null
    unfolding write_free_header
    split-Chain =
        let next' = write h.next_free new_b (h.next_free b) in
        let new_rest : occurs new_b (l ++ r) ≡ 0 =
          omega (arith, new_fresh, occurs-middle new_b b l r) in
        let new_r : occurs new_b r ≡ 0 = omega (arith, new_rest, occurs-append new_b l r) in
        Chain-write (relink (last_or null l) new_b with_new).next_free b null
          (relink (last_or null l) new_b with_new).free_list (l ++ (new_b ∷ r)) null
          (ground (arith, occurs-middle b new_b l r, b_once))
          (relink-Chain with_new l (new_b ∷ r) r b new_b
            (Chain-write h.next_free new_b (h.next_free b) h.free_list (l ++ (b ∷ r)) null new_fresh
              v.chain)
            (λ x. ground (arith, occurs-middle x new_b l r, rest_once x, new_rest))
            (
              refl,
              (λ e. omega (arith, e, v.low, b_bounds)),
              rw (write_self h.next_free new_b (h.next_free b)) (
                  Chain-write h.next_free new_b (h.next_free b) (h.next_free b) r null new_r
                    behind_b),
            ))

    split_inv :
        Same with_new (relink (last_or null l) new_b with_new)
        → u32 al ≡ al
        → WellFormed (
            mark_used al b record (relink (last_or null l) new_b with_new) {
              total_blocks = u64 ((relink (last_or null l) new_b with_new).total_blocks + 1);
            })
    unfolding mark_used write_free_header
    split_inv s al_is = record {
      blocks = xs ++ (b ∷ (new_b ∷ ys));
      free = l ++ (new_b ∷ r);
      inv = record {
        low = rw s.start_is v.low;
        extent = rw (s.start_is, s.end_is) v.extent;
        no_wrap = rw s.end_is v.no_wrap;
        shape =
            rw (s.start_is, s.end_is, s.magic_is, s.size_is, al_is)
              (Shape-split h.heap_start h.heap_end h.magic h.size xs ys l r b al rem v.shape
                al_whole al_some rem_some parts);
        chain = split-Chain;
        total = rw s.total_is (
            omega (
              arith,
              v.total,
              length-append xs (b ∷ ys),
              length-append xs (b ∷ (new_b ∷ ys)),
              blocks_few h (xs ++ (b ∷ ys)) (l ++ (b ∷ r)) v,
            ));
        free = s.free_is ∙ v.free ∙ length-middle b l r ∙ sym (length-middle new_b l r);
      };
    }

    split_WellFormed :
        WellFormed (mark_used al b (split_block al (rem + header_size) (last_or null l) b h))
    unfolding mark_used split_block
    split_WellFormed =
        let g = relink (last_or null l) new_b with_new in
        let s = relink-Same (last_or null l) new_b with_new in
        let al_is : u32 al ≡ al = omega (arith, enough, b_bounds, v.extent) in
        let new_is : u64 (b + header_size + al) ≡ new_b =
          omega (arith, b_bounds, enough, v.no_wrap) in
        let rem_is : u32 (rem + header_size - header_size) ≡ rem =
          omega (arith, parts, b_bounds, v.extent) in
        rw (new_is, rem_is) (split_inv s al_is)

-- The block that is taken leaves a well-formed heap, unless it is larger than what is wanted by just
-- 16 or 32 bytes.
pub take_block-WellFormed :
    (h : Heap) (xs ys l r : List ℕ) (b al : ℕ)
    → Inv h (xs ++ (b ∷ ys)) (l ++ (b ∷ r))
    → al % 16 ≡ 0
    → 0 < al
    → al ≤ h.size b
    → h.size b ≢ al + 16
    → h.size b ≢ al + 32
    → WellFormed (take_block al (last_or null l) b h)
unfolding take_block
take_block-WellFormed h xs ys l r b al v whole al_some enough n16 n32 =
    let bounds = b_bounds h xs ys l r b al v whole al_some enough in
    let b_old = v.shape.headers b (b_block h xs ys l r b al v whole al_some enough) in
    let rem = h.size b - al in
    let rem_is : sub32 (h.size b) (u32 al) ≡ rem = omega (arith, enough, bounds, v.extent) in
    rw rem_is (
      if-both (λ (g : Heap). WellFormed (mark_used al b g)) (leb (header_size + heap_alignment) rem)
        (split_block al rem (last_or null l) b h) (unlink_block (last_or null l) b h)
        (λ e.
          let split : rem ≡ (rem - header_size) + header_size = ground (arith, e) in
          rw split (
            split_WellFormed h xs ys l r b al v whole al_some enough (rem - header_size)
              (ground (arith, e)) (ground (arith, e, enough))))
        (λ e.
          unlink_WellFormed h xs ys l r b al v whole al_some enough
            (ground (arith, e, enough, n16, n32, b_old.whole, whole))))
