-- ===== src/Shell/Tests.antt =====
-- Runs of shell.c.
use apsyde.Shell.State.{Shell, history_add, history_lines, shell_key, shell_run}
use apsyde.Shell.Command.{
  execute, choose, codes, str_starts_with, parse_hex, port_argument, cmd_ehci_reset, cmd_time,
  port_of, skip_spaces, perform, call_at, cmd_echo,
}
use apsyde.Shell.History.{InRange, remember, from_end, history_add_lem}
use apsyde.Shell.Typing.{Valid, IsLine, Kept, shell_key-Valid}
use apsyde.Shell.Session.{shell_run-line}
use apsyde.Shell.Hex.{parse_hex-emit_hex}
use apsyde.Shell.Names.{execute_lem, on_rest}
use apsyde.Text.{emit_hex}
use apsyde.Common.{◌≡◌, refl, none, some, [], ◌∷◌, ◌++◌, arith, ◌==◌, if◌then◌else◌, if-both}

-- One command, `mem`, was given before.
abbrev sample : Shell
sample = record {
  history = λ i. if i == 0 then codes "mem" else [];
  hist_count = 1;
  hist_head = 1;
  line = [];
  hist_pos = none;
}

sample_range : InRange sample
sample_range = record { head_in = omega arith; count_in = omega arith }

mem-IsLine : IsLine (codes "mem")
mem-IsLine = omega arith

sample-Valid : Valid sample
sample-Valid = record {
  range = sample_range;
  line_ok = (omega arith, tt);
  history_ok =
      λ i. if-both IsLine (i == 0) (codes "mem") [] (λ e. mem-IsLine) (λ e. (omega arith, tt));
}

history_add_lem_example :
    history_lines (history_add (codes "regs") sample)
    ≡ remember (codes "regs") (history_lines sample)
history_add_lem_example = history_add_lem (codes "regs") sample sample_range

shell_key-Valid_example : Kept (shell_key b'\r' (record sample { line = codes "mem" }))
shell_key-Valid_example =
    shell_key-Valid b'\r' (record sample { line = codes "mem" })
      record {
        range = record { head_in = omega arith; count_in = omega arith };
        line_ok = mem-IsLine;
        history_ok = sample-Valid.history_ok;
      }

shell_run-line_example :
    ((shell_run (codes "mem" ++ (b'\r' ∷ [])) sample).0 ≡ codes "mem" ∷ [])
    × (history_lines (shell_run (codes "mem" ++ (b'\r' ∷ [])) sample).1
        ≡ remember (codes "mem") (history_lines sample))
shell_run-line_example = shell_run-line (codes "mem") sample sample_range mem-IsLine refl

last_is_mem : from_end (history_lines sample) 0 ≡ some (codes "mem")
unfolding history_lines
last_is_mem = refl

parse_hex-emit_hex_example : parse_hex (emit_hex 0xdead_beef) ≡ 0xdead_beef
parse_hex-emit_hex_example = parse_hex-emit_hex 0xdead_beef (omega arith)

execute_lem_example :
    execute (codes "echo " ++ codes "hello") ≡ on_rest (call_at 5 (λ s. cmd_echo s)) (codes "hello")
execute_lem_example =
    execute_lem 33 (codes "echo ", call_at 5 (λ s. cmd_echo s)) (codes "hello") refl (omega arith)
      (λ e. omega (arith, e)) (λ e. omega (arith, e))

-- A longer word runs the command that it begins with, and a port has one digit.
longer_word : execute (codes "timeout") ≡ cmd_time
unfolding execute choose perform str_starts_with
longer_word = refl

two_digits : execute (codes "ehci_reset 12") ≡ cmd_ehci_reset 1
unfolding execute choose perform str_starts_with port_argument port_of skip_spaces
two_digits = refl
