-- ===== src/Heap/Request.antt =====
-- heap_alloc of heap.c: what a request gets, and when it gets nothing.
use apsyde.Heap.State.{
  Heap, header_size, heap_alignment, heap_magic_free, heap_magic_used, align_up, write_free_header,
}
use apsyde.Heap.Ops.{take_block, mark_used, split_block, unlink_block, relink}
use apsyde.Heap.Segs.{occurs, write_self, write-ne}
use apsyde.Heap.Shape.{inside_none, block_bounds}
use apsyde.Heap.Invariant.{Inv}
use apsyde.Heap.Alloc.{relink-Same}
use apsyde.Common.Bits.{bit_and_mask, bit_and_shifted}
use apsyde.Common.{
  ℕ, ◌+◌, ◌-◌, ◌*◌, ◌/◌, ◌^◌, ◌≤◌, ◌<◌, ◌≡◌, ap, ◌∙◌, ◌≢◌, List, arith, leb, if-both, u32, u64,
  sub32,
}

-- A size is rounded up to a multiple of 16.
pub align_up-eq : (n : ℕ) → n + 15 < 2 ^ 64 → align_up n ≡ (n + 15) / 16 * 16
unfolding align_up
align_up-eq n h =
    let x = n + 15 in
    let x_is : u64 (n + heap_alignment - 1) ≡ x = omega (arith, h) in
    rw x_is (omega (arith, bit_and_shifted 4 x (2 ^ 60 - 1), bit_and_mask 60 (x / 16), h))

-- What the header of the block `b` and those of the other blocks are after it was taken.
pub record Taken (h : Heap) (bs : List ℕ) (al b : ℕ) (g : Heap) : Type 0 where
  pub used : g.magic b ≡ heap_magic_used
  pub size_is : g.size b ≡ al
  pub kept : (x : ℕ) → 0 < occurs x bs → x ≢ b → (g.magic x ≡ h.magic x) × (g.size x ≡ h.size x)

module _ (h : Heap) (bs fs : List ℕ) (b al : ℕ) (v : Inv h bs fs) (b_in : 0 < occurs b bs)
    (enough : al ≤ h.size b) where
  pub bounds : (h.heap_start ≤ b) × (b + header_size + h.size b ≤ h.heap_end)
  bounds = block_bounds h.heap_start h.heap_end h.magic h.size bs fs v.shape b b_in

  unlink_Taken : (prev : ℕ) → Taken h bs al b (mark_used al b (unlink_block prev b h))
  unfolding mark_used unlink_block
  unlink_Taken prev =
      let s = relink-Same prev (h.next_free b) h in
      let al_is : u32 al ≡ al = omega (arith, enough, bounds, v.extent) in
      record {
        used = write_self (relink prev (h.next_free b) h).magic b heap_magic_used;
        size_is = write_self (relink prev (h.next_free b) h).size b (u32 al) ∙ al_is;
        kept = λ x k ne. (
          write-ne (relink prev (h.next_free b) h).magic b heap_magic_used x ne
              ∙ ap (λ (f : ℕ → ℕ). f x) s.magic_is,
          write-ne (relink prev (h.next_free b) h).size b (u32 al) x ne
              ∙ ap (λ (f : ℕ → ℕ). f x) s.size_is,
        );
      }

  split_Taken :
      (prev rem : ℕ)
      → h.size b ≡ al + header_size + rem
      → Taken h bs al b (mark_used al b (split_block al (rem + header_size) prev b h))
  unfolding mark_used split_block write_free_header
  split_Taken prev rem parts =
      let new_b = b + header_size + al in
      let al_is : u32 al ≡ al = omega (arith, enough, bounds, v.extent) in
      let new_is : u64 (b + header_size + al) ≡ new_b = omega (arith, bounds, enough, v.no_wrap) in
      let n = u32 (rem + header_size - header_size) in
      let h1 = write_free_header new_b n (h.next_free b) h in
      let s = relink-Same prev new_b h1 in
      let new_none =
        inside_none h.heap_start h.heap_end h.magic h.size bs fs v.shape b new_b b_in (omega arith)
          (omega (arith, parts)) in
      rw new_is record {
        used = write_self (relink prev new_b h1).magic b heap_magic_used;
        size_is = write_self (relink prev new_b h1).size b (u32 al) ∙ al_is;
        kept = λ x k ne.
            let x_new : x ≢ new_b = λ e. omega (arith, k, new_none, ap (λ t. occurs t bs) e) in
            (
              write-ne (relink prev new_b h1).magic b heap_magic_used x ne
                  ∙ ap (λ (f : ℕ → ℕ). f x) s.magic_is
                  ∙ write-ne h.magic new_b heap_magic_free x x_new,
              write-ne (relink prev new_b h1).size b (u32 al) x ne
                  ∙ ap (λ (f : ℕ → ℕ). f x) s.size_is
                  ∙ write-ne h.size new_b n x x_new,
            );
      }

  pub take_block-Taken : (prev : ℕ) → Taken h bs al b (take_block al prev b h)
  unfolding take_block
  take_block-Taken prev =
      let rem = h.size b - al in
      let rem_is : sub32 (h.size b) (u32 al) ≡ rem = omega (arith, enough, bounds, v.extent) in
      rw rem_is (
        if-both (λ (g : Heap). Taken h bs al b (mark_used al b g))
          (leb (header_size + heap_alignment) rem) (split_block al rem prev b h)
          (unlink_block prev b h)
          (λ e.
            let split : rem ≡ (rem - header_size) + header_size = ground (arith, e) in
            rw split (split_Taken prev (rem - header_size) (ground (arith, e, enough))))
          (λ e. unlink_Taken prev))
