-- ===== src/Shell/Command.antt =====
-- The commands of shell.c: which one a line stands for, with its argument.
use Prim.Native.Char.{code}
use Prim.Native.String.{String}
use apsyde.Common.{
  ℕ, ◌+◌, ◌-◌, bit_or, Bool, true, false, ◌&&◌, ◌||◌, Option, none, some, List, [], ◌∷◌, leb, ◌==◌,
  if◌then◌else◌, drop, u64, ◌<<<◌,
}

abbrev pub codes : String → List ℕ
codes String.[] = []
codes (String.◌∷◌ c s) = code c ∷ codes s

-- The functions that execute calls, with the address, the port or the text they work on.
pub data Command : Type 0 where
  cmd_help cmd_ticks cmd_uptime cmd_time cmd_mem cmd_regs cmd_kbd_test : Command
  cmd_kbd_dump cmd_fb_test cmd_fb_info cmd_pmm_info cmd_pmm_regions : Command
  cmd_pmm_alloc cmd_pmm_test cmd_heap_info cmd_heap_dump cmd_heap_check : Command
  cmd_heap_alloc cmd_heap_test cmd_vmm_info cmd_vmm_test cmd_pci_info : Command
  cmd_pci_ehci cmd_ehci_info cmd_ehci_init cmd_ehci_ports cmd_ehci_device : Command
  cmd_history cmd_clear cmd_panic : Command
  cmd_vmm_walk : (addr : ℕ) → Command
  cmd_ehci_reset : (port : ℕ) → Command
  cmd_echo : (args : List ℕ) → Command
  nothing : Command
  unknown_command : (line : List ℕ) → Command

unfoldable pub str_starts_with : List ℕ → List ℕ → Bool
str_starts_with s [] = true
str_starts_with [] (p ∷ ps) = false
str_starts_with (c ∷ s) (p ∷ ps) = (c == p) && str_starts_with s ps

unfoldable pub hex_digit : ℕ → Option ℕ
hex_digit c =
    if leb b'0' c && leb c b'9'
    then some (c - b'0')
    else if leb b'a' c && leb c b'f'
    then some (c - b'a' + 10)
    else if leb b'A' c && leb c b'F'
    then some (c - b'A' + 10)
    else none

-- The loop of parse_hex.
unfoldable pub parse_hex_from : ℕ → List ℕ → ℕ
parse_hex_from v [] = v
parse_hex_from v (c ∷ s) = elim (hex_digit c) [
  | none ↦ v
  | some d ↦ parse_hex_from (bit_or (u64 (v <<< 4)) d) s
]

unfoldable pub skip_spaces : List ℕ → List ℕ
skip_spaces [] = []
skip_spaces (c ∷ s) = let rest = skip_spaces s in if c == b' ' then rest else c ∷ s

unfoldable pub skip_prefix : List ℕ → List ℕ
skip_prefix [] = []
skip_prefix (c ∷ []) = c ∷ []
skip_prefix (c ∷ d ∷ s) = if (c == b'0') && ((d == b'x') || (d == b'X')) then s else c ∷ d ∷ s

unfoldable pub parse_hex : List ℕ → ℕ
parse_hex s = parse_hex_from 0 (skip_prefix (skip_spaces s))

-- The argument of cmd_ehci_reset.
unfoldable pub port_of : List ℕ → ℕ
port_of [] = 0
port_of (c ∷ s) = if leb b'0' c && leb c b'9' then c - b'0' else 0

unfoldable pub port_argument : List ℕ → ℕ
port_argument s = port_of (skip_spaces s)

-- What a test of execute does with the line: a command alone, or one on the line from an offset on.
pub data Action : Type 0 where
  call : (command : Command) → Action
  call_at : (offset : ℕ) (command : List ℕ → Command) → Action

unfoldable pub perform : Action → List ℕ → Command
perform (call command) line = command
perform (call_at offset command) line = command (drop offset line)

-- The tests of execute in their order: the text a line starts with, and what is done then.
abbrev pub commands : List (List ℕ × Action)
commands =
    (codes "help", call cmd_help)
    ∷ (codes "ticks", call cmd_ticks)
    ∷ (codes "uptime", call cmd_uptime)
    ∷ (codes "time", call cmd_time)
    ∷ (codes "mem", call cmd_mem)
    ∷ (codes "regs", call cmd_regs)
    ∷ (codes "kbd_test", call cmd_kbd_test)
    ∷ (codes "kbd_dump", call cmd_kbd_dump)
    ∷ (codes "fb_test", call cmd_fb_test)
    ∷ (codes "fb_info", call cmd_fb_info)
    ∷ (codes "pmm_info", call cmd_pmm_info)
    ∷ (codes "pmm_regions", call cmd_pmm_regions)
    ∷ (codes "pmm_alloc", call cmd_pmm_alloc)
    ∷ (codes "pmm_test", call cmd_pmm_test)
    ∷ (codes "heap_info", call cmd_heap_info)
    ∷ (codes "heap_dump", call cmd_heap_dump)
    ∷ (codes "heap_check", call cmd_heap_check)
    ∷ (codes "heap_alloc", call cmd_heap_alloc)
    ∷ (codes "heap_test", call cmd_heap_test)
    ∷ (codes "vmm_info", call cmd_vmm_info)
    ∷ (codes "vmm_walk ", call_at 9 (λ s. cmd_vmm_walk (parse_hex s)))
    ∷ (codes "vmm_walk", call (cmd_vmm_walk (parse_hex (codes "0"))))
    ∷ (codes "vmm_test", call cmd_vmm_test)
    ∷ (codes "pci_info", call cmd_pci_info)
    ∷ (codes "pci_ehci", call cmd_pci_ehci)
    ∷ (codes "ehci_info", call cmd_ehci_info)
    ∷ (codes "ehci_init", call cmd_ehci_init)
    ∷ (codes "ehci_ports", call cmd_ehci_ports)
    ∷ (codes "ehci_reset", call_at 10 (λ s. cmd_ehci_reset (port_argument s)))
    ∷ (codes "ehci_device", call cmd_ehci_device)
    ∷ (codes "history", call cmd_history)
    ∷ (codes "clear", call cmd_clear)
    ∷ (codes "panic", call cmd_panic)
    ∷ (codes "echo ", call_at 5 (λ s. cmd_echo s))
    ∷ (codes "echo", call (cmd_echo []))
    ∷ []

unfoldable pub choose : List (List ℕ × Action) → List ℕ → Command
choose [] line = unknown_command line
choose (entry ∷ entries) line =
    let rest = choose entries line in
    if str_starts_with line (entry.0) then perform (entry.1) line else rest

unfoldable pub execute : List ℕ → Command
execute [] = nothing
execute (c ∷ s) = choose commands (c ∷ s)
