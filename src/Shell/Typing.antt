-- ===== src/Shell/Typing.antt =====
-- The line editor of shell.c: what it keeps, and what typing a line and Enter do.
use apsyde.Shell.State.{
  Shell, history_size, line_max, history_add, put_line, history_get, is_empty, is_equal, recall,
  line_up, line_down, line_down_at, next_back, fresh_line, drop_last, type_char, shell_key,
  kbd_key_up, kbd_key_down,
}
use apsyde.Shell.History.{InRange}
use apsyde.Text.{strcmp}
use apsyde.Common.{
  ℕ, zero, suc, ◌+◌, ◌-◌, ◌*◌, ◌%◌, ◌≤◌, ◌≡◌, inl, inr, ◌&&◌, Option, none, some, List, [], ◌∷◌,
  arith, ltb, leb, ◌==◌, Bool-cases, if-both, length, All, take, length-take-le, take-All, subst,
  ◌||◌, none-ne-some, some-injective, ◌++◌, if◌then◌else◌, length-append, All-snoc,
}

-- The characters that a line can have, and a line that fits.
abbrev pub Printable : ℕ → Type 0
Printable c = (32 ≤ c) × (c ≤ 126)

abbrev pub IsLine : List ℕ → Type 0
IsLine l = (length l ≤ line_max - 1) × All Printable l

pub record Valid (s : Shell) : Type 0 where
  pub range : InRange s
  pub line_ok : IsLine s.line
  pub history_ok : (i : ℕ) → IsLine (s.history i)

take-IsLine : (n : ℕ) (l : List ℕ) → IsLine l → IsLine (take n l)
take-IsLine zero l h = (omega arith, tt)
take-IsLine (suc n) [] h = h
take-IsLine (suc n) (c ∷ l) h =
    let r = take-All Printable n l (h.1.1) in (omega (arith, h.0, length-take-le n l), (h.1.0, r))

drop_last-length : (l : List ℕ) → length (drop_last l) ≤ length l
unfolding drop_last
drop_last-length [] = omega arith
drop_last-length (c ∷ []) = omega arith
drop_last-length (c ∷ d ∷ l) = omega (arith, drop_last-length (d ∷ l))

drop_last-All : (l : List ℕ) → All Printable l → All Printable (drop_last l)
unfolding drop_last
drop_last-All [] h = tt
drop_last-All (c ∷ []) h = tt
drop_last-All (c ∷ d ∷ l) h = (h.0, drop_last-All (d ∷ l) (h.1))

put_line-Valid : (line : List ℕ) (s : Shell) → IsLine line → Valid s → Valid (put_line line s)
unfolding put_line
put_line-Valid line s l v =
    let range = v.range in
    record {
      range = record { head_in = omega arith; count_in = ground (arith, range.count_in) };
      line_ok = v.line_ok;
      history_ok = λ i.
          if-both IsLine (s.hist_head == i) (take (line_max - 1) line) (s.history i)
            (λ e. take-IsLine (line_max - 1) line l) (λ e. v.history_ok i);
    }

history_add-Valid : (line : List ℕ) (s : Shell) → IsLine line → Valid s → Valid (history_add line s)
unfolding history_add
history_add-Valid line s l v =
    if-both Valid (is_empty line) _ _ (λ e. v)
      (λ e.
        if-both Valid
          (ltb 0 s.hist_count
            && is_equal (strcmp (s.history ((s.hist_head + history_size - 1) % history_size)) line))
          _ _ (λ q. v) (λ q. put_line-Valid line s l v))

recall-Valid : (next back : ℕ) (s : Shell) → Valid s → Valid (recall next (history_get back s) s)
unfolding recall history_get
recall-Valid next back s v = elim (Bool-cases (leb s.hist_count back)) [
  | inl e ↦ rw e v
  | inr e ↦ rw e record {
    range = record { head_in = v.range.head_in; count_in = v.range.count_in };
    line_ok =
        take-IsLine (line_max - 1)
          (s.history ((s.hist_head + history_size * 2 - 1 - back) % history_size))
          (v.history_ok ((s.hist_head + history_size * 2 - 1 - back) % history_size));
    history_ok = v.history_ok;
  }
]

with_line :
    (l : List ℕ) (p : Option ℕ) (s : Shell)
    → IsLine l
    → Valid s
    → Valid (record s { line = l; hist_pos = p })
with_line l p s h v = record {
  range = record { head_in = v.range.head_in; count_in = v.range.count_in };
  line_ok = h;
  history_ok = v.history_ok;
}

line_down-Valid : (p : Option ℕ) (s : Shell) → Valid s → Valid (line_down_at p s)
unfolding line_down_at
line_down-Valid none s v = v
line_down-Valid (some zero) s v = with_line [] none s (omega arith, tt) v
line_down-Valid (some (suc k)) s v = recall-Valid k k s v

type_char-Valid : (c : ℕ) (s : Shell) → Printable c → Valid s → Valid (type_char c s)
unfolding type_char
type_char-Valid c s p v =
    if-both Valid (ltb (length s.line) (line_max - 1)) _ _
      (λ e.
        with_line (s.line ++ (c ∷ [])) s.hist_pos s
          (
            ground (arith, e, length-append s.line (c ∷ [])),
            All-snoc Printable s.line c (v.line_ok.1) p,
          )
          v)
      (λ e. v)

abbrev pub Kept : Option (List ℕ) × Shell → Type 0
Kept r = Valid (r.1) × ((l : List ℕ) → (r.0 ≡ some l) → IsLine l)

-- Every character keeps the indices of the history in range and the line and the lines of the
-- history within 127 printable characters; and a line that is executed is such a line.
pub shell_key-Valid : (c : ℕ) (s : Shell) → Valid s → Kept (shell_key c s)
unfolding shell_key fresh_line line_up line_down type_char
shell_key-Valid c s v =
    let stays : (l : List ℕ) → ◌≡◌ {A = Option (List ℕ)} none (some l) → IsLine l =
      λ l e. absurd (none-ne-some l e) in
    let line_is : (l : List ℕ) → some s.line ≡ some l → IsLine l =
      λ l e. subst IsLine (some-injective s.line l e) v.line_ok in
    if-both Kept (c == b'\r' || (c == b'\n')) _ _
      (λ e. (
        with_line [] none (if is_empty s.line then s else history_add s.line s) (omega arith, tt)
            (if-both Valid (is_empty s.line) s (history_add s.line s) (λ q. v)
              (λ q. history_add-Valid s.line s v.line_ok v)),
        line_is,
      ))
      (λ e.
        if-both Kept (c == 8 || (c == 0x7f)) _ _
          (λ q. (
            with_line (drop_last s.line) s.hist_pos s
                (
                  omega (arith, drop_last-length s.line, v.line_ok.0),
                  drop_last-All s.line (v.line_ok.1),
                )
                v,
            stays,
          ))
          (λ q.
            if-both Kept (c == 3) _ _ (λ t. (with_line [] none s (omega arith, tt) v, stays))
              (λ t.
                if-both Kept (c == kbd_key_up) _ _
                  (λ u. (recall-Valid (next_back s.hist_pos) (next_back s.hist_pos) s v, stays))
                  (λ u.
                    if-both Kept (c == kbd_key_down) _ _
                      (λ w. (line_down-Valid s.hist_pos s v, stays))
                      (λ w.
                        if-both Kept (ltb c 32 || ltb 126 c) _ _ (λ x. (v, stays))
                          (λ x. (type_char-Valid c s (ground (arith, x)) v, stays)))))))
