-- ===== src/Heap/Merge.antt =====
-- The blocks of heap.c when one is freed, and when a free block takes in the free one behind it.
use apsyde.Heap.State.{heap_magic_free, heap_magic_used, header_size, write}
use apsyde.Heap.Segs.{occurs, Tiles, Tiles-append, Tiles-write, write_self}
use apsyde.Heap.Counts.{Tiles-Cut, occurs-middle}
use apsyde.Heap.Shape.{Shape, IsHeader, free_once, blocks_once}
use apsyde.Common.{
  ℕ, ◌+◌, ◌<◌, ◌≡◌, refl, sym, inl, inr, List, [], ◌∷◌, ◌++◌, arith, ◌==◌, if◌then◌else◌, ==_iff,
  Bool-cases,
}

-- A used block is marked as free, and joins the list.
pub Shape-free :
    (a e : ℕ) (magic size : ℕ → ℕ) (bs fs : List ℕ) (b : ℕ)
    → Shape a e magic size bs fs
    → 0 < occurs b bs
    → magic b ≡ heap_magic_used
    → Shape a e (write magic b heap_magic_free) size bs (b ∷ fs)
unfolding occurs
Shape-free a e magic size bs fs b v k u = record {
  tiles = v.tiles;
  headers = λ x i.
      let old = v.headers x i in
      record {
        marked = ground (arith, old.marked);
        whole = old.whole;
        roomy = old.roomy;
        aligned = old.aligned;
      };
  listed = λ x. elim (Bool-cases (x == b)) [
    | inl q ↦
        let x_is : x ≡ b = (==_iff x b).0 q in
        let old = v.listed b in
        let once = blocks_once a e magic size bs fs v b in rw x_is (ground (arith, old, once, k, u))
    | inr q ↦ ground (arith, q, v.listed x)
  ];
}

-- The free block `b` takes in the free block behind it.
module _ (a e : ℕ) (magic size : ℕ → ℕ) (xs ys l r : List ℕ) (b n : ℕ)
    (v : Shape a e magic size (xs ++ (b ∷ (n ∷ ys))) (l ++ (n ∷ r)))
    (b_free : magic b ≡ heap_magic_free) where
  abbrev size' : ℕ → ℕ
  size' = write size b (size b + header_size + size n)

  join_tiles : Tiles size' a (xs ++ (b ∷ ys)) e
  join_tiles =
      let c = Tiles-Cut size a xs b (n ∷ ys) e v.tiles in
      let t = c.after in
      let d = Tiles-Cut size (b + header_size + size b) [] n ys e t in
      let end_is : n + header_size + size n ≡ b + header_size + (size b + header_size + size n) =
        omega (arith, t.0) in
      let b_not : occurs b ys ≡ 0 = omega (arith, c.only_after, occurs-middle b n [] ys) in
      Tiles-append size' a xs b (b ∷ ys) e
        (Tiles-write size b (size b + header_size + size n) a xs b c.only_before c.before)
        (
          refl,
          rw (write_self size b (size b + header_size + size n), sym end_is)
              (Tiles-write size b (size b + header_size + size n) (n + header_size + size n) ys e
                b_not d.after),
        )

  join_occurs :
      (x : ℕ)
      → occurs x (xs ++ (b ∷ (n ∷ ys))) ≡ (if x == n then 1 else 0) + occurs x (xs ++ (b ∷ ys))
  join_occurs x =
      omega (arith, occurs-middle x b xs (n ∷ ys), occurs-middle x n xs ys, occurs-middle x b xs ys)

  join_headers : (x : ℕ) → 0 < occurs x (xs ++ (b ∷ ys)) → IsHeader magic size' x
  join_headers x k =
      let old = v.headers x (omega (arith, k, join_occurs x)) in
      let n_old = v.headers n (ground (arith, join_occurs n)) in
      record {
        marked = old.marked;
        whole = ground (arith, old.whole, n_old.whole);
        roomy = ground (arith, old.roomy);
        aligned = old.aligned;
      }

  join_listed :
      (x : ℕ)
      → occurs x (l ++ r) ≡ (if magic x == heap_magic_free then occurs x (xs ++ (b ∷ ys)) else 0)
  join_listed x =
      let old = v.listed x in
      let old_n = v.listed n in
      let once = free_once a e magic size (xs ++ (b ∷ (n ∷ ys))) (l ++ (n ∷ r)) v n in
      elim (Bool-cases (x == n)) [
        | inl q ↦
            let x_is : x ≡ n = (==_iff x n).0 q in
            rw x_is (ground (arith, old_n, once, join_occurs n, occurs-middle n n l r))
        | inr q ↦ ground (arith, old, q, join_occurs x, occurs-middle x n l r)
      ]

  pub Shape-join : Shape a e magic size' (xs ++ (b ∷ ys)) (l ++ r)
  Shape-join = record { tiles = join_tiles; headers = join_headers; listed = join_listed }
