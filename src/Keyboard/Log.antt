-- ===== src/Keyboard/Log.antt =====
-- The log of scan codes of keyboard.c holds the last 16 codes, oldest first.
use apsyde.Common.{
  ℕ, suc, ◌+◌, ◌-◌, ◌%◌, ◌<◌, ◌≡◌, refl, List, [], ◌∷◌, ◌++◌, arith, ltb, if◌then◌else◌, length,
  rest, zero, sym, ap, ap₂, ◌∙◌, inl, inr, Bool-cases, take, take-nil,
}
use apsyde.Keyboard.{log_scancode, sc_log_size, Keyboard, take_from, take_scancodes}
use apsyde.Keyboard.Queue.{IsValid}
use apsyde.Common.Ring.{items, put, length-items, items-append, items-slide}

abbrev pub recent : Keyboard → List ℕ
recent k =
    items sc_log_size k.sc_log ((k.sc_head + sc_log_size - k.sc_count) % sc_log_size) 0 k.sc_count

-- The abstract log: at most 16 codes, the oldest goes first.
unfoldable pub remember : ℕ → List ℕ → List ℕ
remember sc l = (if ltb (length l) sc_log_size then l else rest l) ++ (sc ∷ [])

-- The log's window, from its length and its start.
abbrev log_window : (ℕ → ℕ) → ℕ → ℕ → List ℕ
log_window log count start = items sc_log_size log start 0 count

log_room :
    (sc : ℕ) (k : Keyboard)
    → IsValid k
    → k.sc_count < sc_log_size
    → recent (log_scancode sc k) ≡ recent k ++ (sc ∷ [])
unfolding log_scancode
log_room sc k v h =
    ap₂ (log_window (put k.sc_log k.sc_head sc)) longer same
    ∙ items-append sc_log_size k.sc_log ((k.sc_head + sc_log_size - k.sc_count) % sc_log_size)
        k.sc_count (k.sc_count + 1) k.sc_head sc (omega arith) h (omega arith)
        (omega (arith, v.log_in))
  where
    longer : (if ltb k.sc_count sc_log_size then k.sc_count + 1 else k.sc_count) ≡ k.sc_count + 1
    longer = ground (arith, h)

    same :
        ((k.sc_head + 1) % sc_log_size
            + sc_log_size
            - (if ltb k.sc_count sc_log_size then k.sc_count + 1 else k.sc_count))
          % sc_log_size
        ≡ (k.sc_head + sc_log_size - k.sc_count) % sc_log_size
    same = rw longer (omega (arith, v.log_in))

log_full :
    (sc : ℕ) (k : Keyboard)
    → IsValid k
    → k.sc_count ≡ sc_log_size
    → recent (log_scancode sc k) ≡ rest (recent k) ++ (sc ∷ [])
unfolding log_scancode
log_full sc k v h =
    ap₂ (log_window (put k.sc_log k.sc_head sc)) full begins
    ∙ items-slide sc_log_size k.sc_log k.sc_head 15 sc v.log_in refl
    ∙ ap (λ (l : List ℕ). rest l ++ (sc ∷ []))
        (sym (ap₂ (log_window k.sc_log) h (ground (arith, h, v.log_in))))
  where
    full : (if ltb k.sc_count sc_log_size then k.sc_count + 1 else k.sc_count) ≡ 16
    full = ground (arith, h)

    begins :
        ((k.sc_head + 1) % sc_log_size
            + sc_log_size
            - (if ltb k.sc_count sc_log_size then k.sc_count + 1 else k.sc_count))
          % sc_log_size
        ≡ (k.sc_head + 1) % sc_log_size
    begins = rw full (omega (arith, v.log_in))

-- log_scancode appends the code, and drops the oldest of 16.
pub recent-log_scancode :
    (sc : ℕ) (k : Keyboard) → IsValid k → recent (log_scancode sc k) ≡ remember sc (recent k)
unfolding remember
recent-log_scancode sc k v =
    rw
      (length-items sc_log_size k.sc_log ((k.sc_head + sc_log_size - k.sc_count) % sc_log_size) 0
        k.sc_count)
      (elim (Bool-cases (ltb k.sc_count sc_log_size)) [
        | inl room ↦ rw room (log_room sc k v (ground arith))
        | inr full ↦ rw full (log_full sc k v (ground (arith, v.log_count)))
      ])

take_from-items :
    (log : ℕ → ℕ) (start max left i : ℕ)
    → take_from log start max left i ≡ take (max - i) (items sc_log_size log start i left)
unfolding take_from
take_from-items log start max zero i = sym (take-nil ℕ (max - i))
take_from-items log start max (suc left) i = elim (Bool-cases (ltb i max)) [
  | inl more ↦
      let step : max - i ≡ suc (max - (i + 1)) = ground arith in
      rw more (rw (step, take_from-items log start max left (i + 1)) refl)
  | inr enough ↦ let none_left : max - i ≡ 0 = ground arith in rw enough (rw none_left refl)
]

-- keyboard_take_scancodes returns the oldest codes of the log, at most as many as asked for,
-- and empties it.
pub take_scancodes_lem :
    (max : ℕ) (k : Keyboard)
    → ((take_scancodes max k).0 ≡ take max (recent k)) × (recent (take_scancodes max k).1 ≡ [])
unfolding take_scancodes
take_scancodes_lem max k =
    (take_from-items k.sc_log _ max k.sc_count 0 ∙ ap (λ m. take m (recent k)) (omega arith), refl)
