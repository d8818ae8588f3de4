-- ===== src/Input/Tests.antt =====
-- Runs of the input layer's theorems at concrete states.
use apsyde.Common.{◌≡◌, refl, true, false, none, some, [], arith}
use apsyde.Input.{Input, input_getchar, demo_get_char, demo_step, demo_line_step}
use apsyde.Keyboard.Queue.{IsValid, contents}
use apsyde.Keyboard.{Keyboard}
use apsyde.Input.Select.{input_getchar-key}

-- The script has typed `he` and its next character is due at tick 400; one key waits.
abbrev typing : Input
typing = record {
  source = none;
  ps2_available = true;
  usb_available = false;
  demo_active = true;
  demo_line = 0;
  demo_char = 2;
  demo_next_tick = 400;
  last_real_input = 10;
}

abbrev one_key : Keyboard
one_key = record {
  buf = λ i. b'x';
  head = 4;
  tail = 3;
  shift = false;
  ctrl = false;
  alt = false;
  caps = false;
  extended = false;
  sc_log = λ i. 0;
  sc_head = 0;
  sc_count = 0;
  sc_total = 0;
}

one_key-IsValid : IsValid one_key
one_key-IsValid = record {
  head_in = omega arith;
  tail_in = omega arith;
  log_in = omega arith;
  log_count = omega arith;
}

-- The next character is `l`.
types_l : (demo_get_char 405 typing).0 ≡ some b'l'
unfolding demo_get_char demo_step demo_line_step
types_l = refl

input_getchar-key_example :
    ((input_getchar 405 406 407 typing one_key).0 ≡ some b'x')
    × (contents (input_getchar 405 406 407 typing one_key).1.1 ≡ [])
    × ((input_getchar 405 406 407 typing one_key).1.0.demo_active ≡ false)
    × ((input_getchar 405 406 407 typing one_key).1.0.last_real_input ≡ 405)
input_getchar-key_example =
    input_getchar-key 405 406 407 b'x' [] typing one_key one_key-IsValid refl refl refl

abbrev no_key : Keyboard
no_key = record one_key { head = 3 }

no_key-IsValid : IsValid no_key
no_key-IsValid = record {
  head_in = omega arith;
  tail_in = omega arith;
  log_in = omega arith;
  log_count = omega arith;
}

abbrev idle : Input
idle = record typing { demo_active = false }
