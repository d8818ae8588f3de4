-- ===== src/Shell/Session.antt =====
-- Whole inputs of shell.c: a line that is typed and sent, and the last command sent again.
use apsyde.Shell.State.{
  Shell, line_max, history_add, history_lines, is_empty, fresh_line, type_char, shell_key, executed,
  shell_run, kbd_key_up, recall, history_get, line_up, next_back, kbd_key_down, history_size,
}
use apsyde.Shell.History.{InRange, remember, from_end, history_add_lem, history_get_lem}
use apsyde.Shell.Typing.{Valid, IsLine, Printable}
use mathlib.Core.List.{append-nil, append_assoc}
use apsyde.Text.Strings.{strcmp-equal_iff}
use apsyde.Common.{
  ℕ, ◌+◌, ◌-◌, ◌≤◌, ◌<◌, ◌≡◌, refl, sym, ap, ◌∙◌, none, List, [], ◌∷◌, ◌++◌, arith, if◌then◌else◌,
  lt→ltb, le→ltb, ==_ne, length, All, length-append, inl, inr, true, some, Bool-cases, take, ◌*◌,
  ◌%◌, subst, Bool, false, ◌||◌, none-ne-some, some-injective, leb, take-all,
}

abbrev with_chars : List ℕ → Shell → Shell
with_chars l s = record s { line = l }

Printable-key :
    (c : ℕ) (s : Shell)
    → Printable c
    → length s.line < line_max - 1
    → shell_key c s ≡ (none, with_chars (s.line ++ (c ∷ [])) s)
unfolding shell_key type_char
Printable-key c s p l =
    rw
      (
        ==_ne c b'\r' (λ e. omega (arith, e, p)),
        ==_ne c b'\n' (λ e. omega (arith, e, p)),
        ==_ne c 8 (λ e. omega (arith, e, p)),
        ==_ne c 0x7f (λ e. omega (arith, e, p)),
        ==_ne c 3 (λ e. omega (arith, e, p)),
        ==_ne c kbd_key_up (λ e. omega (arith, e, p)),
        ==_ne c kbd_key_down (λ e. omega (arith, e, p)),
        le→ltb c 32 (p.0),
        le→ltb 126 c (p.1),
        lt→ltb (length s.line) (line_max - 1) l,
      )
      refl

-- Printable characters go to the end of the line.
types :
    (l cs : List ℕ) (s : Shell)
    → All Printable l
    → length s.line + length l ≤ line_max - 1
    → shell_run (l ++ cs) s ≡ shell_run cs (with_chars (s.line ++ l) s)
unfolding shell_run executed
types [] cs s p n = ap (λ t. shell_run cs (with_chars t s)) (sym (append-nil s.line))
types (c ∷ l) cs s p n = rw (Printable-key c s (p.0) (omega (arith, n))) (
    types l cs (with_chars (s.line ++ (c ∷ [])) s) (p.1)
      (omega (arith, n, length-append s.line (c ∷ [])))
    ∙ ap (λ t. shell_run cs (with_chars t s)) (append_assoc s.line (c ∷ []) l))

-- Enter at the end of a line.
enter :
    (s : Shell)
    → shell_run (b'\r' ∷ []) s
      ≡ (s.line ∷ [], fresh_line (if is_empty s.line then s else history_add s.line s))
unfolding shell_run shell_key executed
enter s = refl

fresh_lines : (s : Shell) → history_lines (fresh_line s) ≡ history_lines s
unfolding fresh_line history_lines
fresh_lines s = refl

empty_forgotten : (l : List ℕ) (ls : List (List ℕ)) → is_empty l ≡ true → remember l ls ≡ ls
unfolding remember
empty_forgotten l ls e = rw e refl

lines_kept :
    (s : Shell)
    → InRange s
    → history_lines (fresh_line (if is_empty s.line then s else history_add s.line s))
      ≡ remember s.line (history_lines s)
lines_kept s v = elim (Bool-cases (is_empty s.line)) [
  | inl e ↦ rw e (fresh_lines s ∙ sym (empty_forgotten s.line (history_lines s) e))
  | inr e ↦ rw e (fresh_lines (history_add s.line s) ∙ history_add_lem s.line s v)
]

same_lines : (l : List ℕ) (s : Shell) → history_lines (with_chars l s) ≡ history_lines s
unfolding history_lines
same_lines l s = refl

-- While the indices of the history are in range, at most 127 printable characters that are typed
-- on an empty line, and then Enter, execute just the line of these characters, and the history
-- remembers it as history_add does.
pub shell_run-line :
    (l : List ℕ) (s : Shell)
    → InRange s
    → IsLine l
    → s.line ≡ []
    → ((shell_run (l ++ (b'\r' ∷ [])) s).0 ≡ l ∷ [])
      × (history_lines (shell_run (l ++ (b'\r' ∷ [])) s).1 ≡ remember l (history_lines s))
shell_run-line l s v h e =
    let typed : shell_run (l ++ (b'\r' ∷ [])) s ≡ shell_run (b'\r' ∷ []) (with_chars l s) =
      types l (b'\r' ∷ []) s (h.1) (omega (arith, h.0, ap (λ t. length t) e))
      ∙ ap (λ t. shell_run (b'\r' ∷ []) (with_chars (t ++ l) s)) e in
    let w : InRange (with_chars l s) = record { head_in = v.head_in; count_in = v.count_in } in
    (
      ap (λ r. r.0) (typed ∙ enter (with_chars l s)),
      ap (λ r. history_lines (r.1)) (typed ∙ enter (with_chars l s))
          ∙ lines_kept (with_chars l s) w
          ∙ ap (remember l) (same_lines l s),
    )

up_key : (s : Shell) → shell_key kbd_key_up s ≡ (none, line_up s)
unfolding shell_key
up_key s = refl

recalls :
    (x : List ℕ) (s : Shell)
    → s.hist_pos ≡ none
    → history_get 0 s ≡ some x
    → line_up s ≡ record s { line = take (line_max - 1) x; hist_pos = some 0 }
unfolding line_up recall next_back
recalls x s p e =
    ap (λ t. recall (next_back t) (history_get (next_back t) s) s) p ∙ ap (λ o. recall 0 o s) e

or_true : (b : Bool) → (b || true) ≡ true
or_true true = refl
or_true false = refl

repeats : (x : List ℕ) (ls : List (List ℕ)) → from_end ls 0 ≡ some x → remember x ls ≡ ls
unfolding remember
repeats x ls e = rw (e, (strcmp-equal_iff x x).1 refl, or_true (is_empty x)) refl

got-IsLine : (x : List ℕ) (s : Shell) → Valid s → history_get 0 s ≡ some x → IsLine x
unfolding history_get
got-IsLine x s v e = elim (Bool-cases (leb s.hist_count 0)) [
  | inl q ↦ absurd (none-ne-some x (sym (rw q refl) ∙ e))
  | inr q ↦
      subst IsLine (some-injective _ x (sym (rw q refl) ∙ e))
        (v.history_ok ((s.hist_head + history_size * 2 - 1 - 0) % history_size))
]

recalled_lines :
    (x : List ℕ) (s : Shell)
    → history_lines (record s { line = x; hist_pos = some 0 }) ≡ history_lines s
unfolding history_lines
recalled_lines x s = refl

up_enter :
    (s g : Shell)
    → line_up s ≡ g
    → shell_run (kbd_key_up ∷ b'\r' ∷ []) s
      ≡ (g.line ∷ [], fresh_line (if is_empty g.line then g else history_add g.line g))
unfolding shell_run executed
up_enter s g e = rw (up_key s) (ap (λ t. shell_run (b'\r' ∷ []) t) e ∙ enter g)

-- At the start of a line of a valid editor, the key Up and then Enter execute the last line of the
-- history again, and the history stays as it is.
pub shell_run-repeat :
    (x : List ℕ) (s : Shell)
    → Valid s
    → s.hist_pos ≡ none
    → from_end (history_lines s) 0 ≡ some x
    → ((shell_run (kbd_key_up ∷ b'\r' ∷ []) s).0 ≡ x ∷ [])
      × (history_lines (shell_run (kbd_key_up ∷ b'\r' ∷ []) s).1 ≡ history_lines s)
shell_run-repeat x s v p e =
    let got : history_get 0 s ≡ some x = history_get_lem 0 s v.range ∙ e in
    let x_line : IsLine x = got-IsLine x s v got in
    let whole : take (line_max - 1) x ≡ x = take-all (line_max - 1) x (x_line.0) in
    let recalled : line_up s ≡ record s { line = x; hist_pos = some 0 } =
      recalls x s p got ∙ ap (λ l. record s { line = l; hist_pos = some 0 }) whole in
    let g = record s { line = x; hist_pos = some 0 } in
    let w : InRange g = record { head_in = v.range.head_in; count_in = v.range.count_in } in
    let both = up_enter s g recalled in
    (
      ap (λ r. r.0) both,
      ap (λ r. history_lines (r.1)) both
          ∙ lines_kept g w
          ∙ ap (remember x) (recalled_lines x s)
          ∙ repeats x (history_lines s) e,
    )
