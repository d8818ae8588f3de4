-- ===== src/Keyboard/Tests.antt =====
-- Runs of the keyboard's theorems at concrete states.
use apsyde.Common.{◌+◌, ◌≡◌, refl, true, false, [], ◌∷◌, arith, ◌==◌, if◌then◌else◌, take}
use apsyde.Keyboard.Decode.{Delivers, keyboard_handler-IsValid, keyboard_handler_lem}
use apsyde.Keyboard.{
  buf_pop, Keyboard, keyboard_handler, log_scancode, buf_push, plain_key, key_char,
}
use apsyde.Keyboard.Queue.{IsValid, contents, dequeue, enqueue, buf_pop-dequeue, contents-buf_push}

-- Three characters wait, the buffer wraps, and the log is full.
abbrev busy : Keyboard
busy = record {
  buf = λ i. if i == 254 then b'a' else if i == 255 then b'b' else b'c';
  head = 1;
  tail = 254;
  shift = false;
  ctrl = false;
  alt = false;
  caps = true;
  extended = false;
  sc_log = λ i. i + 1;
  sc_head = 5;
  sc_count = 16;
  sc_total = 21;
}

busy-IsValid : IsValid busy
busy-IsValid = record {
  head_in = omega arith;
  tail_in = omega arith;
  log_in = omega arith;
  log_count = omega arith;
}

contents-buf_push_example : contents (buf_push b'd' busy) ≡ enqueue b'd' (contents busy)
contents-buf_push_example = contents-buf_push b'd' busy busy-IsValid

buf_pop-dequeue_example : ((buf_pop busy).0, contents (buf_pop busy).1) ≡ dequeue (contents busy)
buf_pop-dequeue_example = buf_pop-dequeue busy busy-IsValid

keyboard_handler-IsValid_example : IsValid (keyboard_handler 0x1e busy)
keyboard_handler-IsValid_example = keyboard_handler-IsValid 0x1e busy busy-IsValid

keyboard_handler_lem_example : Delivers busy (keyboard_handler 0x1e busy)
keyboard_handler_lem_example = keyboard_handler_lem 0x1e busy busy-IsValid

-- With CapsLock on, the key of scan code 0x1e is a capital A.
capital : contents (keyboard_handler 0x1e busy) ≡ b'a' ∷ b'b' ∷ b'c' ∷ b'A' ∷ []
unfolding keyboard_handler log_scancode plain_key key_char buf_push apsyde.Common.xor
capital = refl
