-- ===== src/Heap/Misuse.antt =====
-- heap_free of heap.c refuses a block that is free already.
use apsyde.Heap.State.{
  Heap, Result, ok, panicked, hung, header_size, heap_magic_free, heap_magic_used, is_in_heap,
  next_block,
}
use apsyde.Heap.Ops.{heap_free, push_free, join_next, bypass, absorb, find_prev}
use apsyde.Heap.Segs.{occurs}
use apsyde.Heap.Invariant.{Inv, WellFormed, Returns}
use apsyde.Heap.Free.{heap_free-WellFormed, push_free-magic}
use apsyde.Pmm.State.{null}
use apsyde.Common.{
  ℕ, suc, ◌+◌, ◌<◌, ◌≡◌, refl, ◌≢◌, inl, inr, ◌&&◌, Option, none, some, List, arith, ltb, ◌==◌,
  if◌then◌else◌, ==_ne, Bool-cases, if-both, sub64,
}

-- What the call returns has the property, if it returns.
abbrev IfReturns : {A : Type 0} → (A → Type 0) → Result A → Type 0
IfReturns P (ok a) = P a
IfReturns P panicked = Unit
IfReturns P hung = Unit

both : {A : Type 0} (P Q : A → Type 0) (r : Result A) → Returns P r → IfReturns Q r → Returns Q r
both P Q (ok a) p q = q
both P Q panicked p q = absurd p
both P Q hung p q = absurd p

weaken :
    {A : Type 0} (P Q : A → Type 0) (r : Result A)
    → ((a : A) → P a → Q a)
    → IfReturns P r
    → IfReturns Q r
weaken P Q (ok a) f p = f a p
weaken P Q panicked f p = tt
weaken P Q hung f p = tt

abbrev StaysFree : ℕ → Heap → Type 0
StaysFree b g = g.magic b ≡ heap_magic_free

bypass_free :
    (o : Option ℕ) (b n : ℕ) (h : Heap)
    → h.magic b ≡ heap_magic_free
    → IfReturns (StaysFree b) (bypass o b n h)
unfolding bypass absorb
bypass_free none b n h m = tt
bypass_free (some prev) b n h m = elim (Bool-cases (prev == null)) [
  | inl e ↦ rw e m
  | inr e ↦ rw e m
]

join_next_free :
    (b : ℕ) (h : Heap) → h.magic b ≡ heap_magic_free → IfReturns (StaysFree b) (join_next b h)
unfolding join_next absorb
join_next_free b h m =
    if-both (IfReturns (StaysFree b))
      (ltb (next_block h b) h.heap_end && (h.magic (next_block h b) == heap_magic_free))
      (if h.free_list == next_block h b
        then ok (absorb b (next_block h b) record h { free_list = h.next_free (next_block h b) })
        else bypass (find_prev (suc h.free_blocks) h.next_free (next_block h b) h.free_list) b
            (next_block h b) h)
      (ok h)
      (λ e. elim (Bool-cases (h.free_list == next_block h b)) [
        | inl q ↦ rw q m
        | inr q ↦ rw q (bypass_free _ b (next_block h b) h m)
      ])
      (λ e. m)

heap_free_free :
    (p : ℕ) (h : Heap) → p ≢ null → IfReturns (StaysFree (sub64 p header_size)) (heap_free p h)
unfolding heap_free
heap_free_free p h there =
    let b = sub64 p header_size in
    rw (==_ne p null there) (elim (Bool-cases (is_in_heap h p)) [
      | inr e ↦ rw e tt
      | inl e ↦ elim (Bool-cases (h.magic b == heap_magic_free)) [
        | inl q ↦ rw (e, q) tt
        | inr q ↦ elim (Bool-cases (h.magic b == heap_magic_used)) [
          | inl t ↦ rw (e, q, t) (join_next_free b (push_free b h) (push_free-magic h b))
          | inr t ↦ rw (e, q, t) tt
        ]
      ]
    ])

refuses :
    (p : ℕ) (g : Heap) → p ≢ null → StaysFree (sub64 p header_size) g → heap_free p g ≡ panicked
unfolding heap_free
refuses p g there m =
    rw (==_ne p null there, m)
      (elim (Bool-cases (is_in_heap g p)) [ inl e ↦ rw e refl | inr e ↦ rw e refl ])

-- On a well-formed heap, after heap_free of a used block a second heap_free of the same address
-- panics.
pub heap_free-twice :
    (h : Heap) (bs fs : List ℕ) (b : ℕ)
    → Inv h bs fs
    → 0 < occurs b bs
    → h.magic b ≡ heap_magic_used
    → Returns (λ g. heap_free (b + header_size) g ≡ panicked) (heap_free (b + header_size) h)
heap_free-twice h bs fs b v k used =
    let there : b + header_size ≢ null = λ e. omega (arith, e) in
    both WellFormed (λ g. heap_free (b + header_size) g ≡ panicked) (heap_free (b + header_size) h)
      (heap_free-WellFormed h bs fs b v k used)
      (weaken (StaysFree (sub64 (b + header_size) header_size))
        (λ g. heap_free (b + header_size) g ≡ panicked) (heap_free (b + header_size) h)
        (λ g m. refuses (b + header_size) g there m) (heap_free_free (b + header_size) h there))
