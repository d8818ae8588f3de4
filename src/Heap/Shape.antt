-- ===== src/Heap/Shape.antt =====
-- The blocks of heap.c and their headers, as each change of a header leaves them.
use apsyde.Heap.State.{heap_magic_free, heap_magic_used, header_size, write}
use apsyde.Heap.Segs.{
  occurs, occurs-split, occurs-append, Tiles, AllOnce, Tiles-AllOnce, Tiles-append, Tiles-below,
  Tiles-above, Tiles-write, write_self, write-ne,
}
use apsyde.Heap.Counts.{All-occurs, Tiles-Cut, occurs-middle}
use apsyde.Common.{
  ℕ, ◌+◌, ◌%◌, ◌≤◌, ◌<◌, ◌≡◌, refl, sym, ap, ◌≢◌, ◌⊎◌, List, ◌∷◌, ◌++◌, arith, ◌==◌, if◌then◌else◌,
  ==_refl, ==_ne, All, inl, inr, ==_iff, Bool-cases,
}

-- A header is marked as free or as used, and it and its block are aligned.
pub record IsHeader (magic size : ℕ → ℕ) (x : ℕ) : Type 0 where
  pub marked : (magic x ≡ heap_magic_free) ⊎ (magic x ≡ heap_magic_used)
  pub whole : size x % 16 ≡ 0
  pub roomy : 0 < size x
  pub aligned : x % 16 ≡ 0

-- The blocks `bs` fill the memory from `a` to `e`, one after the other, and `fs` are those that are
-- marked as free.
pub record Shape (a e : ℕ) (magic size : ℕ → ℕ) (bs fs : List ℕ) : Type 0 where
  pub tiles : Tiles size a bs e
  pub headers : (x : ℕ) → 0 < occurs x bs → IsHeader magic size x
  pub listed : (x : ℕ) → occurs x fs ≡ (if magic x == heap_magic_free then occurs x bs else 0)

module _ (a e : ℕ) (magic size : ℕ → ℕ) (bs fs : List ℕ) (v : Shape a e magic size bs fs) where
  pub free_marked : (x : ℕ) → 0 < occurs x fs → magic x ≡ heap_magic_free
  free_marked x k = ground (arith, k, v.listed x)

  pub free_block : (x : ℕ) → 0 < occurs x fs → 0 < occurs x bs
  free_block x k = ground (arith, k, v.listed x)

  pub free_all_marked : All (λ f. magic f ≡ heap_magic_free) fs
  free_all_marked = All-occurs (λ f. magic f ≡ heap_magic_free) fs free_marked

  pub blocks_once : AllOnce bs
  blocks_once = Tiles-AllOnce size a bs e v.tiles

  pub free_once : AllOnce fs
  free_once x = ground (arith, v.listed x, blocks_once x)

  pub block_bounds : (x : ℕ) → 0 < occurs x bs → (a ≤ x) × (x + header_size + size x ≤ e)
  block_bounds x k =
      let s = occurs-split x bs k in
      let t : Tiles size a (s.0 ++ (x ∷ s.1)) e = rw (sym (s.2)) v.tiles in
      let c = Tiles-Cut size a (s.0) x (s.1) e t in (c.low, c.high)

  -- An address inside of a block is no block's.
  pub inside_none :
      (x y : ℕ) → 0 < occurs x bs → x < y → y < x + header_size + size x → occurs y bs ≡ 0
  inside_none x y k l u =
      let s = occurs-split x bs k in
      let t : Tiles size a (s.0 ++ (x ∷ s.1)) e = rw (sym (s.2)) v.tiles in
      let c = Tiles-Cut size a (s.0) x (s.1) e t in
      ground (
        arith,
        ap (occurs y) (s.2),
        occurs-middle y x (s.0) (s.1),
        occurs-append y (s.0) (s.1),
        Tiles-above size a (s.0) x y c.before (omega (arith, l)),
        Tiles-below size (x + header_size + size x) (s.1) e y c.after u,
        ==_ne y x (λ q. omega (arith, q, l)),
      )

-- A block that is taken whole.
pub Shape-take :
    (a e : ℕ) (magic size : ℕ → ℕ) (xs ys l r : List ℕ) (b : ℕ)
    → Shape a e magic size (xs ++ (b ∷ ys)) (l ++ (b ∷ r))
    → Shape a e (write magic b heap_magic_used) (write size b (size b)) (xs ++ (b ∷ ys)) (l ++ r)
Shape-take a e magic size xs ys l r b v = record {
  tiles =
      let c = Tiles-Cut size a xs b ys e v.tiles in
      Tiles-append (write size b (size b)) a xs b (b ∷ ys) e
        (Tiles-write size b (size b) a xs b c.only_before c.before)
        (
          refl,
          rw (write_self size b (size b))
              (Tiles-write size b (size b) (b + header_size + size b) ys e c.only_after c.after),
        );
  headers = λ x k.
      let old = v.headers x k in
      record {
        marked = ground (arith, old.marked);
        whole = ground (arith, old.whole);
        roomy = ground (arith, old.roomy);
        aligned = old.aligned;
      };
  listed = λ x. ground (
    arith,
    v.listed x,
    occurs-middle x b l r,
    free_once a e magic size (xs ++ (b ∷ ys)) (l ++ (b ∷ r)) v x,
  );
}

-- A block whose rear part becomes a block of its own.
module _ (a e : ℕ) (magic size : ℕ → ℕ) (xs ys l r : List ℕ) (b al rem : ℕ)
    (v : Shape a e magic size (xs ++ (b ∷ ys)) (l ++ (b ∷ r))) (al_whole : al % 16 ≡ 0)
    (al_some : 0 < al) (rem_some : 0 < rem) (parts : size b ≡ al + header_size + rem) where
  abbrev new_b : ℕ
  new_b = b + header_size + al

  b_block : 0 < occurs b (xs ++ (b ∷ ys))
  b_block = ground (arith, occurs-middle b b xs ys, ==_refl b)

  pub new_none : occurs new_b (xs ++ (b ∷ ys)) ≡ 0
  new_none =
      inside_none a e magic size (xs ++ (b ∷ ys)) (l ++ (b ∷ r)) v b new_b b_block (omega arith)
        (omega (arith, parts))

  abbrev magic' : ℕ → ℕ
  magic' = write (write magic new_b heap_magic_free) b heap_magic_used

  abbrev size' : ℕ → ℕ
  size' = write (write size new_b rem) b al

  new_far : new_b ≢ b
  new_far q = omega (arith, q)

  new_in_front : occurs new_b xs ≡ 0
  new_in_front = omega (arith, new_none, occurs-append new_b xs (b ∷ ys))

  new_behind : occurs new_b ys ≡ 0
  new_behind = omega (
    arith,
    new_none,
    occurs-append new_b xs (b ∷ ys),
    occurs-middle new_b b xs ys,
    occurs-append new_b xs ys,
  )

  split_tiles : Tiles size' a (xs ++ (b ∷ (new_b ∷ ys))) e
  split_tiles =
      let c = Tiles-Cut size a xs b ys e v.tiles in
      let end_is : new_b + header_size + rem ≡ b + header_size + size b = omega (arith, parts) in
      Tiles-append size' a xs b (b ∷ (new_b ∷ ys)) e
        (Tiles-write (write size new_b rem) b al a xs b c.only_before
          (Tiles-write size new_b rem a xs b new_in_front c.before))
        (
          refl,
          rw (write_self (write size new_b rem) b al) (
            refl,
            rw
                (
                  write-ne (write size new_b rem) b al new_b new_far,
                  write_self size new_b rem,
                  end_is,
                )
                (Tiles-write (write size new_b rem) b al (b + header_size + size b) ys e
                  c.only_after
                  (Tiles-write size new_b rem (b + header_size + size b) ys e new_behind c.after)),
          ),
        )

  split_occurs :
      (x : ℕ)
      → occurs x (xs ++ (b ∷ (new_b ∷ ys)))
        ≡ (if x == b then 1 else 0) + ((if x == new_b then 1 else 0) + occurs x (xs ++ ys))
  split_occurs x = omega (arith, occurs-middle x b xs (new_b ∷ ys), occurs-middle x new_b xs ys)

  split_headers : (x : ℕ) → 0 < occurs x (xs ++ (b ∷ (new_b ∷ ys))) → IsHeader magic' size' x
  split_headers x k =
      let b_old = v.headers b b_block in
      elim (Bool-cases (x == b)) [
        | inl q ↦ record {
          marked = inr (rw q refl);
          whole = rw q al_whole;
          roomy = rw q al_some;
          aligned = rw ((==_iff x b).0 q) b_old.aligned;
        }
        | inr q ↦ elim (Bool-cases (x == new_b)) [
          | inl t ↦ record {
            marked = inl (rw (q, t) refl);
            whole = rw (q, t) (omega (arith, parts, al_whole, b_old.whole));
            roomy = rw (q, t) rem_some;
            aligned = omega (arith, (==_iff x new_b).0 t, al_whole, b_old.aligned);
          }
          | inr t ↦
              let old =
                v.headers x (ground (arith, k, q, t, split_occurs x, occurs-middle x b xs ys)) in
              record {
                marked = rw (q, t) old.marked;
                whole = rw (q, t) old.whole;
                roomy = rw (q, t) old.roomy;
                aligned = old.aligned;
              }
        ]
      ]

  split_listed :
      (x : ℕ)
      → occurs x (l ++ (new_b ∷ r))
        ≡ (if magic' x == heap_magic_free then occurs x (xs ++ (b ∷ (new_b ∷ ys))) else 0)
  split_listed x =
      let old = v.listed x in
      let b_free = free_marked a e magic size (xs ++ (b ∷ ys)) (l ++ (b ∷ r)) v b in
      let once = free_once a e magic size (xs ++ (b ∷ ys)) (l ++ (b ∷ r)) v x in
      ground (
        arith,
        old,
        once,
        new_none,
        split_occurs x,
        occurs-middle x b xs ys,
        occurs-middle x b l r,
        occurs-middle x new_b l r,
      )

  pub Shape-split : Shape a e magic' size' (xs ++ (b ∷ (new_b ∷ ys))) (l ++ (new_b ∷ r))
  Shape-split = record { tiles = split_tiles; headers = split_headers; listed = split_listed }
