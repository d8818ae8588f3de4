-- ===== src/Shell/History.antt =====
-- The history of shell.c is a list of at most 8 lines.
use apsyde.Common.Ring.{items, put, length-items, items-append, items-slide}
use apsyde.Shell.State.{
  Shell, history_size, line_max, history_add, put_line, history_get, history_lines, is_empty,
  is_equal,
}
use apsyde.Text.{strcmp}
use apsyde.Common.{
  ℕ, zero, suc, ◌+◌, ◌-◌, ◌*◌, ◌%◌, ◌≤◌, ◌<◌, ◌≡◌, refl, sym, ap, ap₂, ◌∙◌, Bool, false, ◌||◌,
  Option, none, some, List, [], ◌∷◌, ◌++◌, arith, ltb, if◌then◌else◌, length, get_elem?, take, rest,
  inl, inr, true, ◌&&◌, leb, ltb→lt, Bool-cases,
}

pub record InRange (s : Shell) : Type 0 where
  pub head_in : s.hist_head < history_size
  pub count_in : s.hist_count ≤ history_size

-- The `back`-th last element.
abbrev pub from_end : List (List ℕ) → ℕ → Option (List ℕ)
from_end ls back = if ltb back (length ls) then get_elem? ls (length ls - 1 - back) else none

-- The abstract history: a line that is not empty and not the last one again goes to the end, cut
-- to 127 characters, and the oldest of 8 goes out.
abbrev pub append_line : List ℕ → List (List ℕ) → List (List ℕ)
append_line line ls =
    (if ltb (length ls) history_size then ls else rest ls) ++ (take (line_max - 1) line ∷ [])

abbrev pub is_last : Option (List ℕ) → List ℕ → Bool
is_last none line = false
is_last (some l) line = is_equal (strcmp l line)

unfoldable pub remember : List ℕ → List (List ℕ) → List (List ℕ)
remember line ls = if is_empty line || is_last (from_end ls 0) line then ls else append_line line ls

abbrev window : (ℕ → List ℕ) → ℕ → ℕ → List (List ℕ)
window history count start = items history_size history start 0 count

put_room :
    (line : List ℕ) (s : Shell)
    → InRange s
    → s.hist_count < history_size
    → history_lines (put_line line s) ≡ history_lines s ++ (take (line_max - 1) line ∷ [])
unfolding put_line history_lines
put_room line s v h =
    ap₂ (window (put s.history s.hist_head (take (line_max - 1) line))) longer same
    ∙ items-append history_size s.history
        ((s.hist_head + history_size * 2 - s.hist_count) % history_size) s.hist_count
        (s.hist_count + 1) s.hist_head (take (line_max - 1) line) (omega arith) h (omega arith)
        (omega (arith, v.head_in))
  where
    longer :
        (if ltb s.hist_count history_size then s.hist_count + 1 else s.hist_count)
        ≡ s.hist_count + 1
    longer = ground (arith, h)

    same :
        ((s.hist_head + 1) % history_size
            + history_size * 2
            - (if ltb s.hist_count history_size then s.hist_count + 1 else s.hist_count))
          % history_size
        ≡ (s.hist_head + history_size * 2 - s.hist_count) % history_size
    same = rw longer (omega (arith, v.head_in, h))

put_full :
    (line : List ℕ) (s : Shell)
    → InRange s
    → s.hist_count ≡ history_size
    → history_lines (put_line line s) ≡ rest (history_lines s) ++ (take (line_max - 1) line ∷ [])
unfolding put_line history_lines
put_full line s v h =
    ap₂ (window (put s.history s.hist_head (take (line_max - 1) line))) full begins
    ∙ items-slide history_size s.history s.hist_head 7 (take (line_max - 1) line) v.head_in refl
    ∙ ap (λ (l : List (List ℕ)). rest l ++ (take (line_max - 1) line ∷ []))
        (sym (ap₂ (window s.history) h (ground (arith, h, v.head_in))))
  where
    full : (if ltb s.hist_count history_size then s.hist_count + 1 else s.hist_count) ≡ 8
    full = ground (arith, h)

    begins :
        ((s.hist_head + 1) % history_size
            + history_size * 2
            - (if ltb s.hist_count history_size then s.hist_count + 1 else s.hist_count))
          % history_size
        ≡ (s.hist_head + 1) % history_size
    begins = rw full (omega (arith, v.head_in))

length-history_lines : (s : Shell) → length (history_lines s) ≡ s.hist_count
unfolding history_lines
length-history_lines s =
    length-items history_size s.history
      ((s.hist_head + history_size * 2 - s.hist_count) % history_size) 0 s.hist_count

get-items :
    (buf : ℕ → List ℕ) (h k n i : ℕ)
    → i < n
    → get_elem? (items history_size buf h k n) i ≡ some (buf ((h + (k + i)) % history_size))
get-items buf h k zero i l = absurd (omega (arith, l))
get-items buf h k (suc n) zero l = ap (λ t. some (buf ((h + t) % history_size))) (omega arith)
get-items buf h k (suc n) (suc i) l =
    get-items buf h (k + 1) n i (omega (arith, l))
    ∙ ap (λ t. some (buf ((h + t) % history_size))) (omega arith)

line_at :
    (back : ℕ) (s : Shell)
    → InRange s
    → back < s.hist_count
    → get_elem? (history_lines s) (s.hist_count - 1 - back)
      ≡ some (s.history ((s.hist_head + history_size * 2 - 1 - back) % history_size))
unfolding history_lines
line_at back s v l =
    get-items s.history ((s.hist_head + history_size * 2 - s.hist_count) % history_size) 0
      s.hist_count (s.hist_count - 1 - back) (omega (arith, l))
    ∙ ap (λ t. some (s.history t)) (omega (arith, l, v.head_in, v.count_in))

-- While the indices are in range, history_get finds the line that is that far from the end of the
-- history, or nothing where the history is shorter.
pub history_get_lem :
    (back : ℕ) (s : Shell) → InRange s → history_get back s ≡ from_end (history_lines s) back
unfolding history_get
history_get_lem back s v = rw (length-history_lines s) (elim (Bool-cases (ltb back s.hist_count)) [
  | inl e ↦
      let short : leb s.hist_count back ≡ false = ground (arith, e) in
      rw (e, short) (sym (line_at back s v (ltb→lt back s.hist_count e)))
  | inr e ↦ let long : leb s.hist_count back ≡ true = ground (arith, e) in rw (e, long) refl
])

append_line_lem :
    (line : List ℕ) (s : Shell)
    → InRange s
    → history_lines (put_line line s) ≡ append_line line (history_lines s)
append_line_lem line s v =
    rw (length-history_lines s) (elim (Bool-cases (ltb s.hist_count history_size)) [
      | inl room ↦ rw room (put_room line s v (ground (arith, room)))
      | inr full ↦ rw full (put_full line s v (ground (arith, full, v.count_in)))
    ])

-- The last line, which history_add compares with.
last_lem :
    (line : List ℕ) (s : Shell)
    → InRange s
    → (ltb 0 s.hist_count
        && is_equal (strcmp (s.history ((s.hist_head + history_size - 1) % history_size)) line))
      ≡ is_last (from_end (history_lines s) 0) line
last_lem line s v = rw (length-history_lines s) (elim (Bool-cases (ltb 0 s.hist_count)) [
  | inl e ↦
      let index_is : (s.hist_head + history_size - 1) % history_size
          ≡ (s.hist_head + history_size * 2 - 1 - 0) % history_size =
        omega (arith, v.head_in) in
      rw (e, line_at 0 s v (ltb→lt 0 s.hist_count e), index_is) refl
  | inr e ↦ rw e refl
])

-- While the indices are in range, history_add appends the line to the history, cut to 127
-- characters, and the oldest of 8 goes out; an empty line, and one that equals the last, change
-- nothing.
pub history_add_lem :
    (line : List ℕ) (s : Shell)
    → InRange s
    → history_lines (history_add line s) ≡ remember line (history_lines s)
unfolding history_add remember
history_add_lem line s v = rw (last_lem line s v) (elim (Bool-cases (is_empty line)) [
  | inl e ↦ rw e refl
  | inr e ↦ rw e (elim (Bool-cases (is_last (from_end (history_lines s) 0) line)) [
    | inl q ↦ rw q refl
    | inr q ↦ rw q (append_line_lem line s v)
  ])
])
