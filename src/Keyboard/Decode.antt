-- ===== src/Keyboard/Decode.antt =====
-- The interrupt handler of keyboard.c: what one scan code does to the queue and the log.
use apsyde.Common.{
  ℕ, ◌≤◌, ◌≡◌, ◌⊎◌, Bool, arith, ◌<◌, ◌+◌, ◌-◌, refl, true, not, ◌&&◌, xor, leb, ◌==◌,
  if◌then◌else◌, u8, ◌%◌, bit_and, ap, ◌∙◌, inl, inr, false, ◌||◌, u32,
}
use apsyde.Common.{if-both}
use apsyde.Keyboard.{
  plain_key, key_char, Keyboard, extended_key, log_scancode, key_right, keymap_upper, keymap_lower,
  buf_push, key_up, key_down, key_left, keyboard_handler, buf_size,
}
use apsyde.Keyboard.Queue.{IsValid, contents, enqueue, buf_push-IsValid, contents-buf_push}
use apsyde.Keyboard.Log.{recent, remember, recent-log_scancode}
use apsyde.Common.Bits.{all_below, get_or-below}

-- The queue is unchanged, or one item between 1 and 0x103 was enqueued.
abbrev pub Delivers : Keyboard → Keyboard → Type 0
Delivers k k' =
    (contents k' ≡ contents k)
    ⊎ ((c : ℕ) × (1 ≤ c) × (c ≤ key_right) × (contents k' ≡ enqueue c (contents k)))

-- The property of a new state that the switch over extended keys and the end of the handler have
-- when the same state and each push have it.
extended_key-keeps {ℓ} :
    (P : Keyboard → Type ℓ) (code : ℕ) (k : Keyboard)
    → P k
    → ((c : ℕ) → (1 ≤ c) → (c ≤ key_right) → P (buf_push c k))
    → P (extended_key code k)
unfolding extended_key
extended_key-keeps P code k same push =
    if-both P (code == 0x48) _ _ (λ _. push key_up (omega arith) (omega arith))
      (λ _.
        if-both P (code == 0x50) _ _ (λ _. push key_down (omega arith) (omega arith))
          (λ _.
            if-both P (code == 0x4b) _ _ (λ _. push key_left (omega arith) (omega arith))
              (λ _.
                if-both P (code == 0x4d) _ _ (λ _. push key_right (omega arith) (omega arith))
                  (λ _. same))))

upper-below : all_below 128 keymap_upper ≡ true
unfolding all_below
upper-below = refl

lower-below : all_below 128 keymap_lower ≡ true
unfolding all_below
lower-below = refl

key_char-small : (k : Keyboard) (code : ℕ) → key_char k code < 128
unfolding key_char
key_char-small k code =
    if-both (λ c. c < 128) (xor k.shift k.caps) _ _
      (λ _. get_or-below 128 keymap_upper code (omega arith) upper-below)
      (λ _. get_or-below 128 keymap_lower code (omega arith) lower-below)

pushed : (c : ℕ) → c < 128 → not (c == 0) ≡ true → (1 ≤ u8 c) × (u8 c ≤ key_right)
pushed c small h = ground (arith, h, small)

plain_key-keeps {ℓ} :
    (P : Keyboard → Type ℓ) (released : Bool) (code : ℕ) (k : Keyboard)
    → P k
    → ((c : ℕ) → (1 ≤ c) → (c ≤ key_right) → P (buf_push c k))
    → P (plain_key released code k)
unfolding plain_key
plain_key-keeps P released code k same push =
    let c = key_char k code in
    let c' = if k.ctrl && leb b'a' c && leb c b'z' then u8 (c - b'a' + 1) else c in
    let small : c' < 128 =
      if-both (λ d. d < 128) (k.ctrl && leb b'a' c && leb c b'z') (u8 (c - b'a' + 1)) c
        (λ h. ground (arith, h)) (λ _. key_char-small k code) in
    if-both P released _ _ (λ _. same)
      (λ _.
        if-both P (not (c' == 0)) _ _
          (λ h.
            let at : (1 ≤ u8 c') × (u8 c' ≤ key_right) = pushed c' small h in
            push (u8 c') at.0 at.1)
          (λ _. same))

-- What holds after the log of the code and does not look at the flags, and holds after a push too,
-- holds after the handler.
handler_keeps {ℓ κ} :
    (Q : Keyboard → Type ℓ) (P : Keyboard → Type κ)
    → ((k : Keyboard) (shift ctrl alt caps extended : Bool)
        → Q k
        → Q (record k { shift = shift; ctrl = ctrl; alt = alt; caps = caps; extended = extended }))
    → ((k : Keyboard) → Q k → P k)
    → ((k : Keyboard) (c : ℕ) → Q k → 1 ≤ c → c ≤ key_right → P (buf_push c k))
    → (sc : ℕ) (k : Keyboard) → Q (log_scancode sc k)
    → P (keyboard_handler sc k)
unfolding keyboard_handler
handler_keeps Q P flags same push sc k0 q =
    let k = log_scancode sc k0 in
    let released = not (bit_and sc 0x80 == 0) in
    let code = bit_and sc 0x7f in
    let k' = record k { extended = false } in
    let q' : Q k' = flags k k.shift k.ctrl k.alt k.caps false q in
    if-both P (sc == 0xe0) _ _ (λ _. same _ (flags k k.shift k.ctrl k.alt k.caps true q))
      (λ _.
        if-both P k.extended _ _
          (λ _.
            if-both P released _ _ (λ _. same k' q')
              (λ _. extended_key-keeps P code k' (same k' q') (λ c. push k' c q')))
          (λ _.
            if-both P (code == 0x2a || code == 0x36) _ _
              (λ _. same _ (flags k (not released) k.ctrl k.alt k.caps k.extended q))
              (λ _.
                if-both P (code == 0x1d) _ _
                  (λ _. same _ (flags k k.shift (not released) k.alt k.caps k.extended q))
                  (λ _.
                    if-both P (code == 0x38) _ _
                      (λ _. same _ (flags k k.shift k.ctrl (not released) k.caps k.extended q))
                      (λ _.
                        if-both P (code == 0x3a) _ _
                          (λ _.
                            if-both P released _ _ (λ _. same k q)
                              (λ _.
                                same _ (flags k k.shift k.ctrl k.alt (not k.caps) k.extended q)))
                          (λ _. plain_key-keeps P released code k (same k q) (λ c. push k c q)))))))

logged-IsValid : (sc : ℕ) (k : Keyboard) → IsValid k → IsValid (log_scancode sc k)
unfolding log_scancode
logged-IsValid sc k v = ground arith

contents-log_scancode : (sc : ℕ) (k : Keyboard) → contents (log_scancode sc k) ≡ contents k
unfolding log_scancode
contents-log_scancode sc k = refl

recent-buf_push : (c : ℕ) (k : Keyboard) → recent (buf_push c k) ≡ recent k
unfolding buf_push
recent-buf_push c k =
    if-both (λ k'. recent k' ≡ recent k) (u32 (k.head + 1) % buf_size == k.tail) _ _ (λ _. refl)
      (λ _. refl)

-- Every scan code keeps the indices of the queue and of the log in range.
pub keyboard_handler-IsValid : (sc : ℕ) (k : Keyboard) → IsValid k → IsValid (keyboard_handler sc k)
keyboard_handler-IsValid sc k v =
    handler_keeps IsValid IsValid
      (λ k' s c a p e w. record {
        head_in = w.head_in;
        tail_in = w.tail_in;
        log_in = w.log_in;
        log_count = w.log_count;
      })
      (λ k' w. w) (λ k' c w low high. buf_push-IsValid c k' w) sc k (logged-IsValid sc k v)

-- While the indices are in range, every scan code goes into the log, whatever the handler
-- makes of it.
pub recent-keyboard_handler :
    (sc : ℕ) (k : Keyboard) → IsValid k → recent (keyboard_handler sc k) ≡ remember sc (recent k)
recent-keyboard_handler sc k v =
    handler_keeps (λ k'. recent k' ≡ remember sc (recent k))
      (λ k'. recent k' ≡ remember sc (recent k)) (λ k' s c a p e h. h) (λ k' h. h)
      (λ k' c h low high. recent-buf_push c k' ∙ h) sc k (recent-log_scancode sc k v)

-- While the indices are in range, a scan code leaves the queue as it is, or enqueues one item
-- between 1 and the code of the right arrow.
pub keyboard_handler_lem : (sc : ℕ) (k : Keyboard) → IsValid k → Delivers k (keyboard_handler sc k)
keyboard_handler_lem sc k v =
    handler_keeps (λ k'. IsValid k' × (contents k' ≡ contents k)) (λ k'. Delivers k k')
      (λ k' s c a p e h. (
        record {
          head_in = h.0.head_in;
          tail_in = h.0.tail_in;
          log_in = h.0.log_in;
          log_count = h.0.log_count;
        },
        h.1,
      ))
      (λ k' h. inl h.1)
      (λ k' c h low high. inr (c, low, high, contents-buf_push c k' h.0 ∙ ap (enqueue c) h.1)) sc k
      (logged-IsValid sc k v, contents-log_scancode sc k)

-- The release of a key never adds to the queue.
pub keyboard_handler-release :
    (sc : ℕ) (k : Keyboard)
    → (not (bit_and sc 0x80 == 0)) ≡ true
    → contents (keyboard_handler sc k) ≡ contents k
unfolding keyboard_handler log_scancode plain_key
keyboard_handler-release sc k up = rw up (
    let P : Keyboard → Type 0 = λ k'. contents k' ≡ contents k in
    let code = bit_and sc 0x7f in
    if-both P (sc == 0xe0) _ _ (λ _. refl)
      (λ _.
        if-both P k.extended _ _ (λ _. refl)
          (λ _.
            if-both P (code == 0x2a || code == 0x36) _ _ (λ _. refl)
              (λ _.
                if-both P (code == 0x1d) _ _ (λ _. refl)
                  (λ _.
                    if-both P (code == 0x38) _ _ (λ _. refl)
                      (λ _. if-both P (code == 0x3a) _ _ (λ _. refl) (λ _. refl)))))))
