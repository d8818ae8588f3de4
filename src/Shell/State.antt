-- ===== src/Shell/State.antt =====
-- The history and the line editor of shell.c.
use apsyde.Text.{strcmp, Sign, equal}
use apsyde.Common.{
  ℕ, zero, suc, ◌+◌, ◌-◌, ◌*◌, ◌%◌, Bool, true, false, ◌&&◌, ◌||◌, Option, none, some, List, [],
  ◌∷◌, ◌++◌, ltb, leb, ◌==◌, if◌then◌else◌, length, take,
}
use apsyde.Common.Ring.{put, items}

abbrev pub line_max : ℕ
line_max = 128

abbrev pub history_size : ℕ
history_size = 8

abbrev pub kbd_key_up : ℕ
kbd_key_up = 0x100

abbrev pub kbd_key_down : ℕ
kbd_key_down = 0x101

-- `history` has the strings of `g_history`, `line` the first `pos` characters of the line, and
-- `hist_pos` is `none` for -1.
pub record Shell : Type 0 where
  pub history : ℕ → List ℕ
  pub hist_count : ℕ
  pub hist_head : ℕ
  pub line : List ℕ
  pub hist_pos : Option ℕ

abbrev pub is_equal : Sign → Bool
is_equal equal = true
is_equal other = false

unfoldable pub is_empty : List ℕ → Bool
is_empty [] = true
is_empty (c ∷ s) = false

-- The copy of the line to the slot at the head, and the step of the head.
unfoldable pub put_line : List ℕ → Shell → Shell
put_line line s = record s {
  history = put s.history s.hist_head (take (line_max - 1) line);
  hist_head = (s.hist_head + 1) % history_size;
  hist_count = (if ltb s.hist_count history_size then s.hist_count + 1 else s.hist_count);
}

unfoldable pub history_add : List ℕ → Shell → Shell
history_add line s =
    let last = (s.hist_head + history_size - 1) % history_size in
    if is_empty line
    then s
    else if ltb 0 s.hist_count && is_equal (strcmp (s.history last) line)
    then s
    else put_line line s

unfoldable pub history_get : ℕ → Shell → Option (List ℕ)
history_get back s =
    if leb s.hist_count back
    then none
    else some (s.history ((s.hist_head + history_size * 2 - 1 - back) % history_size))

-- The lines that cmd_history prints, from its loop: the oldest first.
unfoldable pub history_lines : Shell → List (List ℕ)
history_lines s =
    items history_size s.history ((s.hist_head + history_size * 2 - s.hist_count) % history_size) 0
      s.hist_count

-- The line becomes the `next`-th last command of the history, if there is one.
unfoldable pub recall : ℕ → Option (List ℕ) → Shell → Shell
recall next none s = s
recall next (some h) s = record s { line = take (line_max - 1) h; hist_pos = some next }

-- `hist_pos + 1`
unfoldable pub next_back : Option ℕ → ℕ
next_back none = 0
next_back (some k) = k + 1

unfoldable pub line_up : Shell → Shell
line_up s = let next = next_back s.hist_pos in recall next (history_get next s) s

unfoldable pub line_down_at : Option ℕ → Shell → Shell
line_down_at none s = s
line_down_at (some zero) s = record s { line = []; hist_pos = none }
line_down_at (some (suc k)) s = recall k (history_get k s) s

unfoldable pub line_down : Shell → Shell
line_down s = line_down_at s.hist_pos s

-- The state at the start of a line.
unfoldable pub fresh_line : Shell → Shell
fresh_line s = record s { line = []; hist_pos = none }

unfoldable pub drop_last : List ℕ → List ℕ
drop_last [] = []
drop_last (c ∷ []) = []
drop_last (c ∷ d ∷ s) = c ∷ drop_last (d ∷ s)

unfoldable pub type_char : ℕ → Shell → Shell
type_char c s =
    if ltb (length s.line) (line_max - 1) then record s { line = s.line ++ (c ∷ []) } else s

-- One character of the inner loop: the state, and the line that execute gets.
unfoldable pub shell_key : ℕ → Shell → Option (List ℕ) × Shell
shell_key c s =
    if c == b'\r' || (c == b'\n')
    then (some s.line, fresh_line (if is_empty s.line then s else history_add s.line s))
    else if c == 8 || (c == 0x7f)
    then (none, record s { line = drop_last s.line })
    else if c == 3
    then (none, fresh_line s)
    else if c == kbd_key_up
    then (none, line_up s)
    else if c == kbd_key_down
    then (none, line_down s)
    else if ltb c 32 || ltb 126 c
    then (none, s)
    else (none, type_char c s)

unfoldable pub executed : Option (List ℕ) → List (List ℕ) → List (List ℕ)
executed none ls = ls
executed (some l) ls = l ∷ ls

-- The loops of shell_run over the characters that input_getchar_blocking gives: the lines that are
-- executed, and the state when the shell waits for more.
unfoldable pub shell_run : List ℕ → Shell → List (List ℕ) × Shell
shell_run [] s = ([], s)
shell_run (c ∷ cs) s =
    let after = shell_key c s in
    let rest = shell_run cs (after.1) in (executed (after.0) (rest.0), rest.1)
