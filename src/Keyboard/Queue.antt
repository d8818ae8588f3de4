-- ===== src/Keyboard/Queue.antt =====
-- The character queue of keyboard.c behaves as a first-in-first-out queue of at most 255 items.
use apsyde.Common.{
  ℕ, ◌+◌, ◌-◌, ◌%◌, ◌≤◌, ◌<◌, ◌≡◌, refl, inl, inr, Option, none, some, List, [], ◌∷◌, ◌++◌, arith,
  ltb, ◌==◌, if◌then◌else◌, lt→ltb, le→ltb, Bool-cases, length, u32, suc, ap, false, ==_refl,
}
use apsyde.Keyboard.{buf_push, Keyboard, buf_size, buf_pop, sc_log_size}
use apsyde.Common.Ring.{items, length-items, put, items-snoc, items-put_ne, items-next}

-- What the handler and keyboard_init keep true of the indices.
pub record IsValid (k : Keyboard) : Type 0 where
  pub head_in : k.head < buf_size
  pub tail_in : k.tail < buf_size
  pub log_in : k.sc_head < sc_log_size
  pub log_count : k.sc_count ≤ sc_log_size

abbrev pub queue_length : Keyboard → ℕ
queue_length k = (k.head + buf_size - k.tail) % buf_size

abbrev pub contents : Keyboard → List ℕ
contents k = items buf_size k.buf k.tail 0 (queue_length k)

-- The abstract queue.
unfoldable pub enqueue : ℕ → List ℕ → List ℕ
enqueue c q = if ltb (length q) (buf_size - 1) then q ++ (c ∷ []) else q

unfoldable pub dequeue : List ℕ → Option ℕ × List ℕ
dequeue [] = (none, [])
dequeue (x ∷ q) = (some x, q)

-- After a push that is not lost the window is one longer, and its end holds the character.
contents_grow :
    (c : ℕ) (k : Keyboard)
    → IsValid k
    → (u32 (k.head + 1) % buf_size == k.tail) ≡ false
    → items buf_size
        (put k.buf k.head c)
        k.tail
        0
        ((u32 (k.head + 1) % buf_size + buf_size - k.tail) % buf_size)
      ≡ contents k ++ (c ∷ [])
contents_grow c k v room =
    let n = queue_length k in
    let longer : (u32 (k.head + 1) % buf_size + buf_size - k.tail) % buf_size ≡ suc n =
      ground (arith, v) in
    let at_head : (k.tail + (0 + n)) % buf_size ≡ k.head = omega (arith, v.head_in, v.tail_in) in
    rw
      (
        longer,
        items-snoc buf_size (put k.buf k.head c) k.tail 0 n,
        at_head,
        ==_refl k.head,
        items-put_ne buf_size k.buf k.tail 0 n k.head c
            (λ t p q e. omega (arith, e, at_head, v.head_in, v.tail_in)),
      )
      refl

-- While the indices are in range, buf_push appends the character to the queue, or loses it when
-- 255 wait.
pub contents-buf_push :
    (c : ℕ) (k : Keyboard) → IsValid k → contents (buf_push c k) ≡ enqueue c (contents k)
unfolding buf_push enqueue
contents-buf_push c k v =
    rw (length-items buf_size k.buf k.tail 0 (queue_length k))
      (elim (Bool-cases (u32 (k.head + 1) % buf_size == k.tail)) [
        | inl full ↦ rw full (rw (le→ltb (queue_length k) 255 (ground (arith, v))) refl)
        | inr room ↦
            rw room
              (rw (lt→ltb (queue_length k) 255 (ground (arith, v))) (contents_grow c k v room))
      ])

-- While the indices are in range, buf_pop takes the oldest character of the queue, or reports
-- that there is none.
pub buf_pop-dequeue :
    (k : Keyboard) → IsValid k → ((buf_pop k).0, contents (buf_pop k).1) ≡ dequeue (contents k)
unfolding buf_pop dequeue
buf_pop-dequeue k v = elim (Bool-cases (k.tail == k.head)) [
  | inl empty ↦
      let none_left : queue_length k ≡ 0 = ground (arith, v) in rw empty (rw none_left refl)
  | inr some_left ↦
      let n = (k.head + buf_size - u32 (k.tail + 1) % buf_size) % buf_size in
      let longer : queue_length k ≡ suc n = ground (arith, v) in
      let here : (k.tail + 0) % buf_size ≡ k.tail = omega (arith, v.tail_in) in
      let wrap : u32 (k.tail + 1) % buf_size ≡ (k.tail + 1) % buf_size = omega (arith, v.tail_in) in
      rw some_left (
        rw (longer, here, wrap)
          (ap (λ l. (some (k.buf k.tail), l)) (items-next buf_size k.buf k.tail 0 _)))
]

pub buf_push-IsValid : (c : ℕ) (k : Keyboard) → IsValid k → IsValid (buf_push c k)
unfolding buf_push
buf_push-IsValid c k v = ground arith

pub buf_pop-IsValid : (k : Keyboard) → IsValid k → IsValid (buf_pop k).1
unfolding buf_pop
buf_pop-IsValid k v = ground arith
