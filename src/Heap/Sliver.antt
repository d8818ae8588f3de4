-- ===== src/Heap/Sliver.antt =====
-- heap_alloc of heap.c loses the end of a block that is larger than the request by 16 or 32 bytes:
-- the block gets the smaller size, so its end leads into the bytes left over, not to the next block.
use apsyde.Heap.State.{
  Heap, header_size, heap_alignment, heap_magic_free, heap_magic_used, align_up, next_block,
}
use apsyde.Heap.Ops.{heap_alloc, place, take_block, mark_used, unlink_block, relink}
use apsyde.Heap.Stats.{heap_check, check_from}
use apsyde.Heap.Segs.{
  occurs, occurs-split, occurs_self, occurs-cons, Tiles, write-ne, occurs-append, Tiles-append,
  last_or,
}
use apsyde.Heap.Counts.{occurs-middle, Tiles-Cut}
use apsyde.Heap.Shape.{block_bounds}
use apsyde.Heap.Invariant.{Inv, Returns}
use apsyde.Heap.Alloc.{relink-Same}
use apsyde.Heap.Request.{align_up-eq, Taken, take_block-Taken}
use apsyde.Heap.Search.{first_fit, Fit-first, first_fit-none}
use apsyde.Heap.Answer.{search_cases, search_result, Fit-block}
use apsyde.Heap.Walk.{check_walk}
use apsyde.Pmm.State.{null}
use apsyde.Common.{
  ℕ, suc, ◌+◌, ◌<◌, ◌≡◌, refl, ap, ◌∙◌, ◌≢◌, ◌⊎◌, inl, inr, false, some, List, [], ◌∷◌, ◌++◌, arith,
  leb, ◌==◌, lt→ltb, ==_iff, ==_ne, Bool-cases, length, length-append, u32, sub32, ◌-◌, ◌*◌, ◌/◌,
  ◌^◌, sym, some-injective, ltb, none-ne-some,
}

-- What the walks read of the state after a block was taken whole.
record Whole (h : Heap) (b : ℕ) (g : Heap) : Type 0 where
  start_is : g.heap_start ≡ h.heap_start
  end_is : g.heap_end ≡ h.heap_end
  total_is : g.total_blocks ≡ h.total_blocks
  others : (x : ℕ) → x ≢ b → g.magic x ≡ h.magic x

take_block-Whole :
    (al prev b : ℕ) (h : Heap)
    → sub32 (h.size b) (u32 al) < header_size + heap_alignment
    → Whole h b (take_block al prev b h)
unfolding take_block mark_used unlink_block
take_block-Whole al prev b h few =
    let s = relink-Same prev (h.next_free b) h in
    let no_split : leb (header_size + heap_alignment) (sub32 (h.size b) (u32 al)) ≡ false =
      ground (arith, few) in
    rw no_split record {
      start_is = s.start_is;
      end_is = s.end_is;
      total_is = s.total_is;
      others = λ x ne.
          write-ne (relink prev (h.next_free b) h).magic b heap_magic_used x ne
          ∙ ap (λ (f : ℕ → ℕ). f x) s.magic_is;
    }

Tiles-agree :
    (size size' : ℕ → ℕ) (a : ℕ) (xs : List ℕ) (e : ℕ)
    → ((x : ℕ) → 0 < occurs x xs → size' x ≡ size x)
    → Tiles size a xs e
    → Tiles size' a xs e
Tiles-agree size size' a [] e f h = h
Tiles-agree size size' a (x ∷ xs) e f h = (
  h.0,
  rw (f x (omega (arith, occurs_self x xs))) (
      Tiles-agree size size' (x + header_size + size x) xs e
        (λ y k. f y (omega (arith, k, occurs-cons y x xs))) (h.1)),
)

-- A walk that meets a header with neither mark inside of the heap reports damage.
check_bad :
    (h : Heap) (y k : ℕ)
    → y < h.heap_end
    → h.magic y ≢ heap_magic_free
    → h.magic y ≢ heap_magic_used
    → check_from (suc k) h y ≡ some 0
unfolding check_from
check_bad h y k i f u =
    rw
      (
        lt→ltb y h.heap_end i,
        ==_ne (h.magic y) heap_magic_free f,
        ==_ne (h.magic y) heap_magic_used u,
      )
      refl

-- A walk over a heap whose block `b` ends at an address with neither mark.
module _ (h g : Heap) (xs ys fs : List ℕ) (b al : ℕ) (v : Inv h (xs ++ (b ∷ ys)) fs)
    (w : Whole h b g) (t : Taken h (xs ++ (b ∷ ys)) al b g) (less : al < h.size b)
    (not_free : h.magic (b + header_size + al) ≢ heap_magic_free)
    (not_used : h.magic (b + header_size + al) ≢ heap_magic_used) where
  abbrev gap : ℕ
  gap = b + header_size + al

  finds_gap : heap_check g ≡ some 0
  unfolding heap_check next_block occurs
  finds_gap =
      let c = Tiles-Cut h.size h.heap_start xs b ys h.heap_end v.shape.tiles in
      let in_front : (x : ℕ) → 0 < occurs x xs → (0 < occurs x (xs ++ (b ∷ ys))) × (x ≢ b) = λ x k.
        (
          omega (arith, k, occurs-append x xs (b ∷ ys)),
          (λ e. omega (arith, k, c.only_before, ap (λ z. occurs z xs) e)),
        ) in
      let front : Tiles g.size h.heap_start xs b =
        Tiles-agree h.size g.size h.heap_start xs b
          (λ x k. (t.kept x ((in_front x k).0) ((in_front x k).1)).1) c.before in
      let to_gap : Tiles g.size h.heap_start (xs ++ (b ∷ [])) gap =
        Tiles-append g.size h.heap_start xs b (b ∷ []) gap front (refl, rw t.size_is refl) in
      let marked : (x : ℕ)
          → 0 < occurs x (xs ++ (b ∷ []))
          → (g.magic x ≡ heap_magic_free) ⊎ (g.magic x ≡ heap_magic_used) =
        λ x k. elim (Bool-cases (x == b)) [
          | inl e ↦ inr (ap g.magic ((==_iff x b).0 e) ∙ t.used)
          | inr e ↦
              let x_in : 0 < occurs x xs =
                ground (arith, k, e, occurs-middle x b xs [], occurs-append x xs []) in
              rw ((t.kept x ((in_front x x_in).0) ((in_front x x_in).1)).0)
                ((v.shape.headers x ((in_front x x_in).0)).marked)
        ] in
      let same_gap : g.magic gap ≡ h.magic gap = w.others gap (λ e. omega (arith, e)) in
      let rounds : suc g.total_blocks ≡ length (xs ++ (b ∷ [])) + suc (length ys) =
        omega (arith, w.total_is, v.total, length-append xs (b ∷ []), length-append xs (b ∷ ys)) in
      let inside : gap < g.heap_end = omega (arith, w.end_is, c.high, less) in
      ap (check_from (suc g.total_blocks) g) w.start_is
      ∙ check_walk g h.heap_start (xs ++ (b ∷ [])) gap (suc g.total_blocks) (suc (length ys)) to_gap
          (omega (arith, inside)) (rw w.end_is v.no_wrap) marked rounds
      ∙ check_bad g gap (length ys) inside (rw same_gap not_free) (rw same_gap not_used)

-- The free block that heap_alloc takes for the rounded size `al` is larger by 16 or 32 bytes, and
-- the bytes behind `al` bytes of it hold neither mark.
pub record IsSliver (h : Heap) (al b : ℕ) : Type 0 where
  pub left_over : (h.size b ≡ al + 16) ⊎ (h.size b ≡ al + 32)
  pub not_free : h.magic (b + header_size + al) ≢ heap_magic_free
  pub not_used : h.magic (b + header_size + al) ≢ heap_magic_used

take_sliver :
    (h : Heap) (bs fs : List ℕ) (al prev b : ℕ)
    → Inv h bs fs
    → 0 < occurs b bs
    → IsSliver h al b
    → heap_check (take_block al prev b h) ≡ some 0
take_sliver h bs fs al prev b v b_in i =
    let limits = block_bounds h.heap_start h.heap_end h.magic h.size bs fs v.shape b b_in in
    let left_over = i.left_over in
    let less : al < h.size b = omega (arith, left_over) in
    let few : sub32 (h.size b) (u32 al) < header_size + heap_alignment =
      omega (arith, left_over, limits, v.extent) in
    let s = occurs-split b bs b_in in
    let v' : Inv h (s.0 ++ (b ∷ s.1)) fs = rw (sym (s.2)) v in
    let b_in' : 0 < occurs b (s.0 ++ (b ∷ s.1)) = rw (sym (s.2)) b_in in
    finds_gap h (take_block al prev b h) (s.0) (s.1) fs b al v' (take_block-Whole al prev b h few)
      (take_block-Taken h (s.0 ++ (b ∷ s.1)) fs b al v' b_in' (omega (arith, less)) prev) less
      i.not_free i.not_used

-- On a well-formed heap, let the first free block that is large enough for a positive size below
-- 2^64 - 15 be larger than the size, rounded up to a multiple of 16, by just 16 or 32 bytes, and
-- let the memory behind that many bytes hold no mark: then heap_alloc returns, and heap_check
-- reports damage.
pub heap_alloc-sliver :
    (h : Heap) (bs fs : List ℕ) (n b : ℕ)
    → Inv h bs fs
    → 0 < n
    → n + 15 < 2 ^ 64
    → first_fit h.size ((n + 15) / 16 * 16) fs ≡ some b
    → IsSliver h ((n + 15) / 16 * 16) b
    → Returns (λ r. heap_check (r.1) ≡ some 0) (heap_alloc n h)
unfolding heap_alloc place
heap_alloc-sliver h bs fs n b v pos fits first i =
    let al = align_up n in
    let al_is = align_up-eq n fits in
    rw (==_ne n 0 (λ e. omega (arith, e, pos))) (elim (search_cases h bs fs v al) [
      | inl m ↦ absurd (
          none-ne-some b (
            sym (first_fit-none h.size al fs (m.1))
            ∙ ap (λ t. first_fit h.size t fs) al_is
            ∙ first))
      | inr c ↦
          let b_is : c.block ≡ b = some-injective c.block b (
            sym (Fit-first h al null fs (search_result h bs fs v al) c)
            ∙ ap (λ t. first_fit h.size t fs) al_is
            ∙ first) in
          let b_in : 0 < occurs b bs = rw (sym b_is) (Fit-block h bs fs v al c) in
          let j : IsSliver h al b = rw al_is i in
          let limits = block_bounds h.heap_start h.heap_end h.magic h.size bs fs v.shape b b_in in
          let small : ltb (2 ^ 32 - 1) al ≡ false = ground (arith, limits, v.extent, j.left_over) in
          rw (small, c.result) (rw b_is (take_sliver h bs fs al (last_or null c.before) b v b_in j))
    ])
