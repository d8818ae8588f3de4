-- ===== src/Input/Select.antt =====
-- Which source input_getchar takes a character from.
use apsyde.Common.{
  ℕ, ◌+◌, ◌^◌, ◌≤◌, ◌<◌, ◌≡◌, refl, ap, ◌∙◌, true, false, none, some, List, [], ◌∷◌, sym,
  none-ne-some, Option, arith, leb, ◌==◌, if-both, length, sub64, not, ◌&&◌, if◌then◌else◌,
}
use apsyde.Keyboard.Queue.{contents, dequeue, IsValid, queue_length, buf_pop-dequeue}
use apsyde.Input.{
  input_getchar, auto_getchar, auto_ps2, input_reset_demo_timeout, auto_usb, Input, demo_stop,
  auto_demo, forced_getchar, usb_get_char, demo_timeout_ticks, demo_start, demo_get_char,
}
use apsyde.Keyboard.{keyboard_getchar, buf_pop, Keyboard, buf_size}
use apsyde.Common.Ring.{length-items}

-- What keyboard_getchar does to a queue that holds a character, and to an empty one.
dequeue-cons : (c : ℕ) (q l : List ℕ) → l ≡ c ∷ q → dequeue l ≡ (some c, q)
unfolding dequeue
dequeue-cons c q l e = rw e refl

getchar_some :
    (k : Keyboard) (c : ℕ) (q : List ℕ)
    → IsValid k
    → contents k ≡ c ∷ q
    → ((keyboard_getchar k).0 ≡ some c) × (contents (keyboard_getchar k).1 ≡ q)
unfolding keyboard_getchar
getchar_some k c q v h =
    let e : ((buf_pop k).0, contents (buf_pop k).1) ≡ (some c, q) =
      buf_pop-dequeue k v ∙ dequeue-cons c q (contents k) h in
    (ap (λ r. r.0) e, ap (λ r. r.1) e)

getchar_none : (k : Keyboard) → IsValid k → contents k ≡ [] → keyboard_getchar k ≡ (none, k)
unfolding keyboard_getchar buf_pop
getchar_none k v h =
    let short : queue_length k ≡ 0 =
      sym (length-items buf_size k.buf k.tail 0 (queue_length k)) ∙ ap length h in
    let e : (k.tail == k.head) ≡ true = ground (arith, v, short) in rw e refl

input_getchar-auto :
    (t0 t1 t2 : ℕ) (s : Input) (k : Keyboard)
    → s.source ≡ none
    → input_getchar t0 t1 t2 s k ≡ auto_getchar t0 t1 t2 s k
unfolding input_getchar
input_getchar-auto t0 t1 t2 s k auto =
    ap
      (λ (o : Option ℕ). elim o [
        | some src ↦ forced_getchar src t0 t1 t2 s k
        | none ↦ auto_getchar t0 t1 t2 s k
      ])
      auto

auto_ps2-key :
    (t0 t1 t2 c : ℕ) (s : Input) (r : Option ℕ × Keyboard)
    → r.0 ≡ some c
    → auto_ps2 t0 t1 t2 s r ≡ (some c, (input_reset_demo_timeout t0 s, r.1))
unfolding auto_ps2
auto_ps2-key t0 t1 t2 c s (none, k) h = absurd (none-ne-some c h)
auto_ps2-key t0 t1 t2 c s (some d, k) h = ap (λ o. (o, (input_reset_demo_timeout t0 s, k))) h

-- A key turns the script off, and its timeout starts again.
reset_off :
    (t0 : ℕ) (s : Input)
    → ((input_reset_demo_timeout t0 s).demo_active ≡ false)
      × ((input_reset_demo_timeout t0 s).last_real_input ≡ t0)
unfolding input_reset_demo_timeout demo_stop
reset_off t0 s =
    let P : Input → Type 0 = λ r. (r.demo_active ≡ false) × (r.last_real_input ≡ t0) in
    if-both P s.demo_active _ _
      (λ on.
        if-both P (not s.demo_active) _ _ (λ no. absurd (ground (arith, on, no)))
          (λ _. (refl, refl)))
      (λ off. (off, refl))

auto_demo-quiet :
    (t0 t1 t2 : ℕ) (s : Input)
    → s.demo_active ≡ false
    → leb demo_timeout_ticks (sub64 t0 s.last_real_input) ≡ false
    → auto_demo t0 t1 t2 s ≡ (none, s)
unfolding auto_demo
auto_demo-quiet t0 t1 t2 s off early =
    let c = not s.demo_active && leb demo_timeout_ticks (sub64 t0 s.last_real_input) in
    let same : (if c then demo_start t1 s else s) ≡ s =
      if-both (λ x. x ≡ s) c _ _ (λ h. absurd (ground (arith, h, early))) (λ _. refl) in
    ap (λ x. if x.demo_active then demo_get_char t2 x else (none, x)) same
    ∙ if-both (λ r. r ≡ (none, s)) s.demo_active _ _ (λ on. absurd (ground (arith, on, off)))
        (λ _. refl)

-- In automatic mode, with the PS/2 keyboard available and its indices in range, a key that waits
-- is taken first: it is what the call returns, it leaves the queue, the DEMO script is off
-- afterwards, and its timeout starts again.
pub input_getchar-key :
    (t0 t1 t2 c : ℕ) (q : List ℕ) (s : Input) (k : Keyboard)
    → IsValid k
    → s.source ≡ none
    → s.ps2_available ≡ true
    → contents k ≡ c ∷ q
    → ((input_getchar t0 t1 t2 s k).0 ≡ some c)
      × (contents (input_getchar t0 t1 t2 s k).1.1 ≡ q)
      × ((input_getchar t0 t1 t2 s k).1.0.demo_active ≡ false)
      × ((input_getchar t0 t1 t2 s k).1.0.last_real_input ≡ t0)
unfolding auto_getchar
input_getchar-key t0 t1 t2 c q s k v auto ps2 h =
    let P : Option ℕ × (Input × Keyboard) → Type 0 = λ r.
      (r.0 ≡ some c)
      × (contents r.1.1 ≡ q)
      × (r.1.0.demo_active ≡ false)
      × (r.1.0.last_real_input ≡ t0) in
    let got = getchar_some k c q v h in
    let e = auto_ps2-key t0 t1 t2 c s (keyboard_getchar k) got.0 in
    rw (input_getchar-auto t0 t1 t2 s k auto) (
      if-both P s.ps2_available _ _
        (λ _. rw e (refl, got.1, (reset_off t0 s).0, (reset_off t0 s).1))
        (λ no_ps2. absurd (ground (arith, ps2, no_ps2))))

-- In automatic mode, with the keyboard's indices in range, no key waiting, the script off and
-- less than 300 ticks since the last key, a call returns no character and changes nothing.
pub input_getchar-quiet :
    (t0 t1 t2 : ℕ) (s : Input) (k : Keyboard)
    → IsValid k
    → s.source ≡ none
    → s.demo_active ≡ false
    → contents k ≡ []
    → s.last_real_input ≤ t0
    → t0 < s.last_real_input + demo_timeout_ticks
    → t0 < 2 ^ 64
    → input_getchar t0 t1 t2 s k ≡ (none, (s, k))
unfolding auto_getchar auto_ps2 auto_usb usb_get_char
input_getchar-quiet t0 t1 t2 s k v auto off empty after before word =
    let early : leb demo_timeout_ticks (sub64 t0 s.last_real_input) ≡ false =
      ground (arith, after, before, word) in
    rw
      (
        input_getchar-auto t0 t1 t2 s k auto,
        getchar_none k v empty,
        auto_demo-quiet t0 t1 t2 s off early,
      )
      (if-both (λ r. r ≡ (none, (s, k))) s.ps2_available _ _ (λ _. refl) (λ _. refl))
