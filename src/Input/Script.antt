-- ===== src/Input/Script.antt =====
-- The DEMO script of input.c is typed out character by character, in order, and never read outside
-- its arrays.
use apsyde.Common.{
  ℕ, zero, suc, ◌≡◌, refl, ◌⊎◌, Option, none, some, List, [], ◌∷◌, ◌++◌, drop, ◌<◌, inl, inr, Bool,
  true, false, ◌&&◌, lt→ltb, ap, not, if-both, ◌+◌, map, u64,
}
use apsyde.Input.{
  Input, demo_script, demo_get_char, demo_char_delay_ticks, demo_restart_delay_ticks,
  demo_line_delay_ticks,
}
use apsyde.Common.Bits.{all_below}

-- What the script is to do, one call at a due tick each: a character, or `none` at a line's end.
unfoldable pub plan_of : List (List ℕ) → List (Option ℕ)
plan_of [] = []
plan_of (line ∷ lines) = map some line ++ (none ∷ plan_of lines)

-- The rest of a plan from a line and a place in it.
unfoldable pub plan_from : List (List ℕ) → ℕ → ℕ → List (Option ℕ)
plan_from [] l c = []
plan_from (line ∷ lines) zero c = map some (drop c line) ++ (none ∷ plan_of lines)
plan_from (line ∷ lines) (suc l) c = plan_from lines l c

abbrev pub planned : Input → List (Option ℕ)
planned s = plan_from demo_script s.demo_line s.demo_char

-- The ticks until the call after this one is due.
abbrev pub pause : Option ℕ → ℕ
pause (some c) = demo_char_delay_ticks
pause none = demo_line_delay_ticks

-- A call at a due tick returns what the plan begins with and leaves the rest of it; with nothing
-- left it returns nothing, and the whole script is planned again.
abbrev pub Types : ℕ → Input → Option ℕ × Input → Type 0
Types now s (o, s') =
    ((planned s ≡ o ∷ planned s') × (s'.demo_next_tick ≡ u64 (now + pause o)))
    ⊎ ((planned s ≡ [])
        × (o ≡ none)
        × (planned s' ≡ plan_of demo_script)
        × (s'.demo_next_tick ≡ u64 (now + demo_restart_delay_ticks)))

-- Every character of the script is a byte.
bytes_of : List (List ℕ) → Bool
bytes_of [] = true
bytes_of (m ∷ ms) = all_below 256 m && bytes_of ms

-- Before the next tick, or while the script is off, a call changes nothing.
pub demo_get_char-early :
    (now : ℕ) (s : Input)
    → (s.demo_active ≡ false) ⊎ (now < s.demo_next_tick)
    → demo_get_char now s ≡ (none, s)
unfolding demo_get_char
demo_get_char-early now s (inl off) = rw (ap not off) refl
demo_get_char-early now s (inr early) =
    rw (lt→ltb now s.demo_next_tick early)
      (if-both (λ r. r ≡ (none, s)) (not s.demo_active) (none, s) (none, s) (λ _. refl) (λ _. refl))
