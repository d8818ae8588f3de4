-- ===== src/Keyboard.antt =====
-- kernel/drivers/keyboard.c: the queue of characters, the log of scan codes, and the handler of IRQ1.
-- The interrupt's byte from port 0x60 is the handler's argument.
pub mod Queue
pub mod Log
pub mod Decode
mod Tests
use apsyde.Common.{
  ℕ, zero, suc, ◌+◌, ◌-◌, ◌%◌, bit_and, Bool, true, false, not, ◌&&◌, ◌||◌, Option, none, some,
  List, [], ◌∷◌, ltb, leb, ◌==◌, if◌then◌else◌, get_or, u8, u32, u64, xor, rest,
}
use apsyde.Common.Ring.{put}

abbrev pub buf_size : ℕ
buf_size = 256

abbrev pub sc_log_size : ℕ
sc_log_size = 16

abbrev pub key_up : ℕ
key_up = 0x100

abbrev pub key_down : ℕ
key_down = 0x101

abbrev pub key_left : ℕ
key_left = 0x102

abbrev pub key_right : ℕ
key_right = 0x103

-- The arrays are functions of the index.
pub record Keyboard : Type 0 where
  pub buf : ℕ → ℕ
  pub head : ℕ
  pub tail : ℕ
  pub shift : Bool
  pub ctrl : Bool
  pub alt : Bool
  pub caps : Bool
  pub extended : Bool
  pub sc_log : ℕ → ℕ
  pub sc_head : ℕ
  pub sc_count : ℕ
  pub sc_total : ℕ

unfoldable pub log_scancode : ℕ → Keyboard → Keyboard
log_scancode sc k = record k {
  sc_log = put k.sc_log k.sc_head sc;
  sc_head = (k.sc_head + 1) % sc_log_size;
  sc_count = if ltb k.sc_count sc_log_size then k.sc_count + 1 else k.sc_count;
  sc_total = u64 (k.sc_total + 1);
}

-- The loop of keyboard_take_scancodes; `i` and `n` are equal in every round.
unfoldable pub take_from : (ℕ → ℕ) → ℕ → ℕ → ℕ → ℕ → List ℕ
take_from log start max zero i = []
take_from log start max (suc left) i =
    let rest = take_from log start max left (i + 1) in
    if ltb i max then log ((start + i) % sc_log_size) ∷ rest else []

-- The bytes that go to `out`, whose number is returned, and the new state.
unfoldable pub take_scancodes : ℕ → Keyboard → List ℕ × Keyboard
take_scancodes max k = (
  take_from k.sc_log ((k.sc_head + sc_log_size - k.sc_count) % sc_log_size) max k.sc_count 0,
  record k { sc_count = 0 },
)

unfoldable pub total_scancodes : Keyboard → ℕ
total_scancodes k = k.sc_total

unfoldable pub buf_push : ℕ → Keyboard → Keyboard
buf_push c k =
    let next = u32 (k.head + 1) % buf_size in
    if next == k.tail then k else record k { buf = put k.buf k.head c; head = next }

-- `none` is -1.
unfoldable pub buf_pop : Keyboard → Option ℕ × Keyboard
buf_pop k =
    if k.tail == k.head
    then (none, k)
    else (some (k.buf k.tail), record k { tail = u32 (k.tail + 1) % buf_size })

abbrev pub keymap_lower : List ℕ
keymap_lower =
    0 ∷ 27 ∷ 49 ∷ 50 ∷ 51 ∷ 52 ∷ 53 ∷ 54 ∷ 55 ∷ 56 ∷ 57 ∷ 48 ∷ 45 ∷ 61 ∷ 8 ∷ 9 ∷ 113 ∷ 119 ∷ 101
    ∷ 114 ∷ 116 ∷ 121 ∷ 117 ∷ 105 ∷ 111 ∷ 112 ∷ 91 ∷ 93 ∷ 10 ∷ 0 ∷ 97 ∷ 115 ∷ 100 ∷ 102 ∷ 103 ∷ 104
    ∷ 106 ∷ 107 ∷ 108 ∷ 59 ∷ 39 ∷ 96 ∷ 0 ∷ 92 ∷ 122 ∷ 120 ∷ 99 ∷ 118 ∷ 98 ∷ 110 ∷ 109 ∷ 44 ∷ 46 ∷ 47
    ∷ 0 ∷ 42 ∷ 0 ∷ 32 ∷ 0 ∷ 0 ∷ 0 ∷ 0 ∷ 0 ∷ 0 ∷ 0 ∷ 0 ∷ 0 ∷ 0 ∷ 0 ∷ 0 ∷ 0 ∷ 55 ∷ 56 ∷ 57 ∷ 45 ∷ 52
    ∷ 53 ∷ 54 ∷ 43 ∷ 49 ∷ 50 ∷ 51 ∷ 48 ∷ 46 ∷ 0 ∷ 0 ∷ 0 ∷ 0 ∷ 0 ∷ 0 ∷ 0 ∷ 0 ∷ 0 ∷ 0 ∷ 0 ∷ 0 ∷ 0 ∷ 0
    ∷ 0 ∷ 0 ∷ 0 ∷ 0 ∷ 0 ∷ 0 ∷ 0 ∷ 0 ∷ 0 ∷ 0 ∷ 0 ∷ 0 ∷ 0 ∷ 0 ∷ 0 ∷ 0 ∷ 0 ∷ 0 ∷ 0 ∷ 0 ∷ 0 ∷ 0 ∷ 0 ∷ 0
    ∷ 0 ∷ 0 ∷ 0 ∷ 0 ∷ 0 ∷ 0 ∷ []

abbrev pub keymap_upper : List ℕ
keymap_upper =
    0 ∷ 27 ∷ 33 ∷ 64 ∷ 35 ∷ 36 ∷ 37 ∷ 94 ∷ 38 ∷ 42 ∷ 40 ∷ 41 ∷ 95 ∷ 43 ∷ 8 ∷ 9 ∷ 81 ∷ 87 ∷ 69 ∷ 82
    ∷ 84 ∷ 89 ∷ 85 ∷ 73 ∷ 79 ∷ 80 ∷ 123 ∷ 125 ∷ 10 ∷ 0 ∷ 65 ∷ 83 ∷ 68 ∷ 70 ∷ 71 ∷ 72 ∷ 74 ∷ 75 ∷ 76
    ∷ 58 ∷ 34 ∷ 126 ∷ 0 ∷ 124 ∷ 90 ∷ 88 ∷ 67 ∷ 86 ∷ 66 ∷ 78 ∷ 77 ∷ 60 ∷ 62 ∷ 63 ∷ 0 ∷ 42 ∷ 0 ∷ 32
    ∷ 0 ∷ 0 ∷ 0 ∷ 0 ∷ 0 ∷ 0 ∷ 0 ∷ 0 ∷ 0 ∷ 0 ∷ 0 ∷ 0 ∷ 0 ∷ 55 ∷ 56 ∷ 57 ∷ 45 ∷ 52 ∷ 53 ∷ 54 ∷ 43 ∷ 49
    ∷ 50 ∷ 51 ∷ 48 ∷ 46 ∷ 0 ∷ 0 ∷ 0 ∷ 0 ∷ 0 ∷ 0 ∷ 0 ∷ 0 ∷ 0 ∷ 0 ∷ 0 ∷ 0 ∷ 0 ∷ 0 ∷ 0 ∷ 0 ∷ 0 ∷ 0 ∷ 0
    ∷ 0 ∷ 0 ∷ 0 ∷ 0 ∷ 0 ∷ 0 ∷ 0 ∷ 0 ∷ 0 ∷ 0 ∷ 0 ∷ 0 ∷ 0 ∷ 0 ∷ 0 ∷ 0 ∷ 0 ∷ 0 ∷ 0 ∷ 0 ∷ 0 ∷ 0 ∷ 0 ∷ 0
    ∷ 0 ∷ []

-- The switch over extended keys.
unfoldable pub extended_key : ℕ → Keyboard → Keyboard
extended_key code k =
    if code == 0x48
    then buf_push key_up k
    else if code == 0x50
    then buf_push key_down k
    else if code == 0x4b
    then buf_push key_left k
    else if code == 0x4d
    then buf_push key_right k
    else k

-- The character of a key, before the control key is seen to.
unfoldable pub key_char : Keyboard → ℕ → ℕ
key_char k code =
    if xor k.shift k.caps then get_or keymap_upper code 0 else get_or keymap_lower code 0

-- What follows the switch over the modifiers.
unfoldable pub plain_key : Bool → ℕ → Keyboard → Keyboard
plain_key released code k =
    let c = key_char k code in
    let c' = if k.ctrl && leb b'a' c && leb c b'z' then u8 (c - b'a' + 1) else c in
    if released then k else if not (c' == 0) then buf_push (u8 c') k else k

unfoldable pub keyboard_handler : ℕ → Keyboard → Keyboard
keyboard_handler sc k0 =
    let k = log_scancode sc k0 in
    let released = not (bit_and sc 0x80 == 0) in
    let code = bit_and sc 0x7f in
    let k' = record k { extended = false } in
    if sc == 0xe0
    then record k { extended = true }
    else if k.extended
    then (if released then k' else extended_key code k')
    else if code == 0x2a || code == 0x36
    then record k { shift = not released }
    else if code == 0x1d
    then record k { ctrl = not released }
    else if code == 0x38
    then record k { alt = not released }
    else if code == 0x3a
    then (if released then k else record k { caps = not k.caps })
    else plain_key released code k

-- Without the registration of the handler with the interrupt controller.
unfoldable pub keyboard_init : Keyboard → Keyboard
keyboard_init k = record k {
  head = 0;
  tail = 0;
  shift = false;
  ctrl = false;
  alt = false;
  caps = false;
  extended = false;
  sc_head = 0;
  sc_count = 0;
  sc_total = 0;
}

unfoldable pub keyboard_getchar : Keyboard → Option ℕ × Keyboard
keyboard_getchar k = buf_pop k
