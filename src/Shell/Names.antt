-- ===== src/Shell/Names.antt =====
-- The commands of shell.c by their names: no name is hidden by an earlier one.
use apsyde.Common.Bits.{every_below, every_below-at}
use apsyde.Shell.Command.{
  Command, call, call_at, commands, choose, execute, str_starts_with, Action, perform,
}
use apsyde.Common.{
  ℕ, zero, suc, ◌≡◌, refl, sym, subst, inl, inr, Bool, true, false, not, ◌&&◌, ◌||◌, none-ne-some,
  some-injective, some, List, [], ◌∷◌, ◌++◌, arith, ◌==◌, if◌then◌else◌, ==_refl, Bool-cases,
  length, get_elem?, drop, drop-zero, none, ◌<◌, ◌≢◌, Option, ==_ne, ◌∙◌,
}

-- Two texts differ at a place that both have.
unfoldable pub clash : List ℕ → List ℕ → Bool
clash [] t = false
clash (c ∷ s) [] = false
clash (c ∷ s) (d ∷ t) = not (c == d) || clash s t

starts : (name args : List ℕ) → str_starts_with (name ++ args) name ≡ true
unfolding str_starts_with
starts [] args = refl
starts (c ∷ name) args = rw (==_refl c) (starts name args)

misses : (name p args : List ℕ) → clash name p ≡ true → str_starts_with (name ++ args) p ≡ false
unfolding str_starts_with clash
misses [] p args h = absurd (ground (arith, h))
misses (c ∷ name) [] args h = absurd (ground (arith, h))
misses (c ∷ name) (d ∷ p) args h = elim (Bool-cases (c == d)) [
  | inl e ↦ rw e (misses name p args (ground (arith, h, e)))
  | inr e ↦ rw e refl
]

drop-append : (name args : List ℕ) → drop (length name) (name ++ args) ≡ args
drop-append [] args = drop-zero args
drop-append (c ∷ name) args = drop-append name args

abbrev Entry : Type 0
Entry = List ℕ × Action

-- The name of the entry at place `k` clashes with all before it.
unfoldable pub reachable : List Entry → List ℕ → ℕ → Bool
reachable [] name k = false
reachable (entry ∷ entries) name zero = true
reachable (entry ∷ entries) name (suc k) = clash name (entry.0) && reachable entries name k

-- The offset of an action is the length of the name before it.
unfoldable pub offset_fits : List ℕ → Action → Bool
offset_fits name (call command) = true
offset_fits name (call_at offset command) = offset == length name

-- An action on the text that follows the name.
unfoldable pub on_rest : Action → List ℕ → Command
on_rest (call command) args = command
on_rest (call_at offset command) args = command args

perform-on_rest :
    (name args : List ℕ) (action : Action)
    → offset_fits name action ≡ true
    → perform action (name ++ args) ≡ on_rest action args
unfolding perform on_rest offset_fits
perform-on_rest name args (call command) h = refl
perform-on_rest name args (call_at offset command) h =
    let here : offset ≡ length name = ground (arith, h) in rw (here, drop-append name args) refl

both_true : (a b : Bool) → (a && b) ≡ true → (a ≡ true) × (b ≡ true)
both_true true b h = (refl, h)
both_true false b h = absurd (ground (arith, h))

chosen :
    (entries : List Entry) (k : ℕ) (entry : Entry) (args : List ℕ)
    → get_elem? entries k ≡ some entry
    → reachable entries (entry.0) k ≡ true
    → choose entries (entry.0 ++ args) ≡ perform (entry.1) (entry.0 ++ args)
unfolding choose reachable
chosen [] k entry args g r = absurd (none-ne-some entry g)
chosen (e ∷ entries) zero entry args g r =
    subst
      (λ (t : Entry).
        (if str_starts_with (entry.0 ++ args) (t.0)
          then perform (t.1) (entry.0 ++ args)
          else choose entries (entry.0 ++ args))
        ≡ perform (entry.1) (entry.0 ++ args))
      (sym (some-injective e entry g)) (rw (starts (entry.0) args) refl)
chosen (e ∷ entries) (suc k) entry args g r =
    let parts = both_true (clash (entry.0) (e.0)) (reachable entries (entry.0) k) r in
    rw (misses (entry.0) (e.0) args (parts.0)) (chosen entries k entry args g (parts.1))

executes :
    (k c : ℕ) (name args : List ℕ) (action : Action)
    → get_elem? commands k ≡ some (c ∷ name, action)
    → (reachable commands (c ∷ name) k && offset_fits (c ∷ name) action) ≡ true
    → execute ((c ∷ name) ++ args) ≡ on_rest action args
unfolding execute
executes k c name args action g f =
    let parts = both_true (reachable commands (c ∷ name) k) (offset_fits (c ∷ name) action) f in
    chosen commands k (c ∷ name, action) args g (parts.0)
    ∙ perform-on_rest (c ∷ name) args action (parts.1)

-- The entries for the bare names vmm_walk and echo, which come after the same name with a space.
abbrev is_bare : ℕ → Bool
is_bare k = (k == 21) || (k == 34)

-- The name of the entry is not empty and not hidden, and its offset fits.
unfoldable fair : ℕ → Option Entry → Bool
fair k none = false
fair k (some ([], command)) = false
fair k (some (c ∷ name, action)) = reachable commands (c ∷ name) k && offset_fits (c ∷ name) action

fair_table : every_below (λ k. is_bare k || fair k (get_elem? commands k)) 35 ≡ true
unfolding every_below fair reachable clash offset_fits
fair_table = refl

from_fair :
    (k : ℕ) (o : Option Entry) (entry : Entry) (args : List ℕ)
    → get_elem? commands k ≡ o
    → o ≡ some entry
    → fair k o ≡ true
    → execute (entry.0 ++ args) ≡ on_rest (entry.1) args
unfolding fair
from_fair k none entry args g e f = absurd (none-ne-some entry e)
from_fair k (some ([], command)) entry args g e f = absurd (ground (arith, f))
from_fair k (some (c ∷ name, command)) entry args g e f =
    subst (λ (t : Entry). execute (t.0 ++ args) ≡ on_rest (t.1) args)
      (some-injective (c ∷ name, command) entry e) (executes k c name args command g f)

-- Of the 35 tests of execute, all but those for the bare names vmm_walk and echo are such that a
-- line that begins with the text of the test runs its command, and where the command takes an
-- argument this is the rest of the line.
pub execute_lem :
    (k : ℕ) (entry : List ℕ × Action) (args : List ℕ)
    → get_elem? commands k ≡ some entry
    → k < 35
    → k ≢ 21
    → k ≢ 34
    → execute (entry.0 ++ args) ≡ on_rest (entry.1) args
execute_lem k entry args g l n21 n34 =
    let row = every_below-at (λ k. is_bare k || fair k (get_elem? commands k)) 35 k l fair_table in
    let is_fair : fair k (get_elem? commands k) ≡ true =
      rw (==_ne k 21 n21, ==_ne k 34 n34) at row in
    from_fair k (get_elem? commands k) entry args refl g is_fair
