-- ===== src/Heap/Calloc.antt =====
-- heap_calloc of heap.c: an array of zeros, or nothing where its size does not fit.
use apsyde.Heap.State.{Heap, Result, ok, panicked, hung}
use apsyde.Heap.Ops.{heap_calloc, heap_alloc, clear_at, set_bytes}
use apsyde.Heap.Invariant.{Inv, Returns, Returns-map}
use apsyde.Heap.Answer.{Allocated, Answered, heap_alloc_lem}
use apsyde.Pmm.State.{null}
use native.Mathlib.Nat.{div-lt_iff_lt-mul}
use apsyde.Common.{
  ℕ, ◌+◌, ◌*◌, ◌^◌, ◌≤◌, ◌<◌, ◌≡◌, refl, ◌⊎◌, inl, inr, false, List, arith, ◌==◌, ==_ne, ◌-◌, ◌/◌,
  ◌||◌, ltb, if◌then◌else◌, ltb→lt, Bool-cases, if-both, u64,
}

-- The new block is there as after heap_alloc, and its first `n` bytes are 0.
pub record Zeroed (h : Heap) (bs fs : List ℕ) (n p : ℕ) (g : Heap) : Type 0 where
  pub there : Allocated h bs fs n p g
  pub cleared : (x : ℕ) → p ≤ x → x < p + n → g.bytes x ≡ 0

abbrev pub Cleared : (h : Heap) (bs fs : List ℕ) (n : ℕ) → ℕ × Heap → Type 0
Cleared h bs fs n r = Zeroed h bs fs n (r.0) (r.1) ⊎ ((r.0 ≡ null) × (r.1 ≡ h))

set_bytes-Zeroed :
    (h : Heap) (bs fs : List ℕ) (n p : ℕ) (g : Heap)
    → Allocated h bs fs n p g
    → Zeroed h bs fs n p (set_bytes p 0 n g)
unfolding set_bytes
set_bytes-Zeroed h bs fs n p g a = record {
  there = record {
    block = a.block;
    was_free = a.was_free;
    first = a.first;
    address = a.address;
    aligned = a.aligned;
    inside = a.inside;
    used = a.used;
    large = a.large;
    apart = a.apart;
    kept = a.kept;
  };
  cleared = λ x l u. ground (arith, l, u);
}

clear_at-Cleared :
    (h : Heap) (bs fs : List ℕ) (n : ℕ) (r : Result (ℕ × Heap))
    → Returns (Answered h bs fs n) r
    → Returns (Cleared h bs fs n) (clear_at n r)
unfolding clear_at
clear_at-Cleared h bs fs n panicked a = absurd a
clear_at-Cleared h bs fs n hung a = absurd a
clear_at-Cleared h bs fs n (ok (q, g)) (inl a) =
    let there : (q == null) ≡ false = ==_ne q null (λ e. omega (arith, e, a.address)) in
    rw there (inl (set_bytes-Zeroed h bs fs n q g a))
clear_at-Cleared h bs fs n (ok (q, g)) (inr r) = rw (r.address) (inr (refl, r.same))

abbrev pub CallocAnswer : (h : Heap) (bs fs : List ℕ) (total : ℕ) → ℕ × Heap → Type 0
CallocAnswer h bs fs total r = Cleared h bs fs total r × (2 ^ 64 ≤ total → r.0 ≡ null)

-- While the invariant holds, heap_calloc of n elements of size bytes returns, where the product
-- is below 2^64 - 15 or at least 2^64. Its result is a new block of the product's size, as
-- heap_alloc gives one, whose bytes are 0, or NULL with the heap as before; and it is NULL where
-- the product is at least 2^64.
pub heap_calloc_lem :
    (h : Heap) (bs fs : List ℕ) (n size : ℕ)
    → Inv h bs fs
    → (n * size + 15 < 2 ^ 64) ⊎ (2 ^ 64 ≤ n * size)
    → Returns
        (λ r. Cleared h bs fs (n * size) r × ((2 ^ 64 ≤ n * size) → r.0 ≡ null))
        (heap_calloc n size h)
unfolding heap_calloc
heap_calloc_lem h bs fs n size v fits =
    if-both (Returns (CallocAnswer h bs fs (n * size))) (n == 0 || (size == 0)) (ok (null, h))
      (if ltb ((2 ^ 64 - 1) / size) n
        then ok (null, h)
        else clear_at (u64 (n * size)) (heap_alloc (u64 (n * size)) h))
      (λ e. (inr (refl, refl), (λ b. refl)))
      (λ e.
        let some_size : 0 < size = ground (arith, e) in
        let overflow = div-lt_iff_lt-mul {k = size} {x = 2 ^ 64 - 1} {y = n} some_size in
        if-both (Returns (CallocAnswer h bs fs (n * size))) (ltb ((2 ^ 64 - 1) / size) n)
          (ok (null, h)) (clear_at (u64 (n * size)) (heap_alloc (u64 (n * size)) h))
          (λ q. (inr (refl, refl), (λ b. refl)))
          (λ q.
            let small : n * size < 2 ^ 64 = elim (Bool-cases (ltb (2 ^ 64 - 1) (n * size))) [
              | inl t ↦ absurd (ground (arith, q, overflow.1 (ltb→lt (2 ^ 64 - 1) (n * size) t)))
              | inr t ↦ ground (arith, t)
            ] in
            let fits' : n * size + 15 < 2 ^ 64 = omega (arith, fits, small) in
            let total_is : u64 (n * size) ≡ n * size = omega (arith, small) in
            rw total_is (
              Returns-map (Cleared h bs fs (n * size)) (CallocAnswer h bs fs (n * size))
                (clear_at (n * size) (heap_alloc (n * size) h))
                (λ a c. (c, (λ b. absurd (omega (arith, b, small)))))
                (clear_at-Cleared h bs fs (n * size) (heap_alloc (n * size) h)
                  (heap_alloc_lem h bs fs (n * size) v fits')))))
