-- ===== src/Input.antt =====
-- kernel/input/input.c: the choice between the PS/2 keyboard and the DEMO script, and the script's
-- timing. A call may read the tick counter more than once: the ticks it reads are arguments, in the
-- order of the reads.
pub mod Script
pub mod Select
mod Tests
use apsyde.Common.{
  ℕ, ◌+◌, Bool, true, false, not, ◌&&◌, Option, none, some, List, [], ◌∷◌, ltb, leb, ◌==◌,
  if◌then◌else◌, get_elem?, u8, u64, sub64, suc,
}
use apsyde.Keyboard.{Keyboard, keyboard_getchar}

abbrev pub input_src_demo : ℕ
input_src_demo = 0

abbrev pub input_src_ps2 : ℕ
input_src_ps2 = 1

abbrev pub input_src_usb : ℕ
input_src_usb = 2

-- The lines without the zero that ends each.
abbrev pub demo_script : List (List ℕ)
demo_script =
    (104 ∷ 101 ∷ 108 ∷ 112 ∷ 13 ∷ [])
    ∷ (112 ∷ 99 ∷ 105 ∷ 95 ∷ 105 ∷ 110 ∷ 102 ∷ 111 ∷ 13 ∷ [])
    ∷ (101 ∷ 104 ∷ 99 ∷ 105 ∷ 95 ∷ 105 ∷ 110 ∷ 102 ∷ 111 ∷ 13 ∷ [])
    ∷ (101 ∷ 104 ∷ 99 ∷ 105 ∷ 95 ∷ 112 ∷ 111 ∷ 114 ∷ 116 ∷ 115 ∷ 13 ∷ [])
    ∷ (101 ∷ 104 ∷ 99 ∷ 105 ∷ 95 ∷ 114 ∷ 101 ∷ 115 ∷ 101 ∷ 116 ∷ 32 ∷ 48 ∷ 13 ∷ [])
    ∷ (101 ∷ 104 ∷ 99 ∷ 105 ∷ 95 ∷ 100 ∷ 101 ∷ 118 ∷ 105 ∷ 99 ∷ 101 ∷ 13 ∷ [])
    ∷ (118 ∷ 109 ∷ 109 ∷ 95 ∷ 105 ∷ 110 ∷ 102 ∷ 111 ∷ 13 ∷ [])
    ∷ (104 ∷ 101 ∷ 97 ∷ 112 ∷ 95 ∷ 105 ∷ 110 ∷ 102 ∷ 111 ∷ 13 ∷ [])
    ∷ (112 ∷ 109 ∷ 109 ∷ 95 ∷ 105 ∷ 110 ∷ 102 ∷ 111 ∷ 13 ∷ [])
    ∷ (102 ∷ 98 ∷ 95 ∷ 105 ∷ 110 ∷ 102 ∷ 111 ∷ 13 ∷ [])
    ∷ []

abbrev pub demo_char_delay_ticks : ℕ
demo_char_delay_ticks = 5

abbrev pub demo_line_delay_ticks : ℕ
demo_line_delay_ticks = 50

abbrev pub demo_restart_delay_ticks : ℕ
demo_restart_delay_ticks = 500

abbrev pub demo_timeout_ticks : ℕ
demo_timeout_ticks = 300

-- `source` is none where g_source is negative.
pub record Input : Type 0 where
  pub source : Option ℕ
  pub ps2_available : Bool
  pub usb_available : Bool
  pub demo_active : Bool
  pub demo_line : ℕ
  pub demo_char : ℕ
  pub demo_next_tick : ℕ
  pub last_real_input : ℕ

-- The stub of the USB keyboard. `none` is -1 here and below.
unfoldable pub usb_get_char : Option ℕ
usb_get_char = none

unfoldable pub demo_start : ℕ → Input → Input
demo_start now s = record s {
  demo_active = true;
  demo_line = 0;
  demo_char = 0;
  demo_next_tick = u64 (now + demo_line_delay_ticks);
}

unfoldable pub demo_stop : Input → Input
demo_stop s =
    if not s.demo_active then s else record s { demo_active = false; demo_line = 0; demo_char = 0 }

-- The step on a line of the script: a character, or none at the line's end.
unfoldable pub demo_line_step : ℕ → Input → Option ℕ → Option ℕ × Input
demo_line_step now s none = (
  none,
  record s {
    demo_line = suc s.demo_line;
    demo_char = 0;
    demo_next_tick = u64 (now + demo_line_delay_ticks);
  },
)
demo_line_step now s (some c) = (
  some (u8 c),
  record s { demo_char = suc s.demo_char; demo_next_tick = u64 (now + demo_char_delay_ticks) },
)

-- The step at a line of the script, or at its end.
unfoldable pub demo_step : ℕ → Input → Option (List ℕ) → Option ℕ × Input
demo_step now s none = (
  none,
  record s { demo_line = 0; demo_char = 0; demo_next_tick = u64 (now + demo_restart_delay_ticks) },
)
demo_step now s (some line) = demo_line_step now s (get_elem? line s.demo_char)

unfoldable pub demo_get_char : ℕ → Input → Option ℕ × Input
demo_get_char now s =
    if not s.demo_active
    then (none, s)
    else if ltb now s.demo_next_tick
    then (none, s)
    else demo_step now s (get_elem? demo_script s.demo_line)

unfoldable pub input_init : ℕ → Input → Input
input_init now s = record s {
  source = none;
  ps2_available = true;
  usb_available = false;
  last_real_input = now;
  demo_active = false;
}

unfoldable pub input_set_source : Option ℕ → Input → Input
input_set_source src s = record s {
  source = src;
  demo_active = s.demo_active && (elim src [ some n ↦ n == input_src_demo | none ↦ false ]);
}

unfoldable pub auto_source : Input → ℕ
auto_source s =
    if s.demo_active
    then input_src_demo
    else if s.usb_available
    then input_src_usb
    else if s.ps2_available
    then input_src_ps2
    else input_src_demo

unfoldable pub input_get_source : Input → ℕ
input_get_source s = elim s.source [ some src ↦ src | none ↦ auto_source s ]

unfoldable pub input_reset_demo_timeout : ℕ → Input → Input
input_reset_demo_timeout now s =
    let s' = record s { last_real_input = now } in if s.demo_active then demo_stop s' else s'

-- Steps 3 and 4 of the automatic mode.
unfoldable pub auto_demo : ℕ → ℕ → ℕ → Input → Option ℕ × Input
auto_demo t0 t1 t2 s =
    let s' =
      if not s.demo_active && leb demo_timeout_ticks (sub64 t0 s.last_real_input)
      then demo_start t1 s
      else s in
    if s'.demo_active then demo_get_char t2 s' else (none, s')

-- Step 2: the USB keyboard.
unfoldable pub auto_usb : ℕ → ℕ → ℕ → Input → Option ℕ → Option ℕ × Input
auto_usb t0 t1 t2 s (some c) =
    if s.usb_available then (some c, input_reset_demo_timeout t0 s) else auto_demo t0 t1 t2 s
auto_usb t0 t1 t2 s none = auto_demo t0 t1 t2 s

-- Step 1: what keyboard_getchar returned, and then the others.
unfoldable pub auto_ps2 : ℕ → ℕ → ℕ → Input → Option ℕ × Keyboard → Option ℕ × (Input × Keyboard)
auto_ps2 t0 t1 t2 s (some c, k) = (some c, (input_reset_demo_timeout t0 s, k))
auto_ps2 t0 t1 t2 s (none, k) = let r = auto_usb t0 t1 t2 s usb_get_char in (r.0, (r.1, k))

unfoldable pub auto_getchar : ℕ → ℕ → ℕ → Input → Keyboard → Option ℕ × (Input × Keyboard)
auto_getchar t0 t1 t2 s k =
    if s.ps2_available
    then auto_ps2 t0 t1 t2 s (keyboard_getchar k)
    else (let r = auto_usb t0 t1 t2 s usb_get_char in (r.0, (r.1, k)))

-- A forced source: the switch over g_source, whose other values fall through.
unfoldable pub forced_getchar : ℕ → ℕ → ℕ → ℕ → Input → Keyboard → Option ℕ × (Input × Keyboard)
forced_getchar src t0 t1 t2 s k =
    if src == input_src_ps2
    then (let r = keyboard_getchar k in (r.0, (s, r.1)))
    else if src == input_src_usb
    then (usb_get_char, (s, k))
    else if src == input_src_demo
    then (let r = demo_get_char t2 (if not s.demo_active then demo_start t1 s else s) in
        (r.0, (r.1, k)))
    else auto_getchar t0 t1 t2 s k

unfoldable pub input_getchar : ℕ → ℕ → ℕ → Input → Keyboard → Option ℕ × (Input × Keyboard)
input_getchar t0 t1 t2 s k = elim s.source [
  | some src ↦ forced_getchar src t0 t1 t2 s k
  | none ↦ auto_getchar t0 t1 t2 s k
]
