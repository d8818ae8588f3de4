-- ===== src/Ehci/Tests.antt =====
-- Runs of ehci.c with a controller of one port, whose state is the reset bit of the port.
use apsyde.Ehci.State.{
  Ehci, Controller, Addresses, ehci_read_op, ehci_write_op, has_bit, without, zero_qh, zero_qtd,
}
use apsyde.Ehci.Schedule.{poll, ehci_wait_halted}
use apsyde.Ehci.Ports.{
  success, failed, ehci_reset_port_checked, signal_reset, finish_reset, power_port,
  ehci_clear_port_changes, read_until,
}
use apsyde.Ehci.Transfer.{ehci_control_transfer}
use apsyde.Ehci.Leak.{Accounts, ehci_control_transfer-Accounts, ehci_control_transfer-exhausted}
use apsyde.Ehci.Polling.{ehci_wait_halted_lem, halted_at, ehci_reset_port_checked-Enabled, Enabled}
use apsyde.Common.{
  ℕ, ◌+◌, ◌*◌, ◌<◌, ◌≡◌, refl, ◌⊎◌, true, false, some, [], ◌∷◌, arith, ◌==◌, if◌then◌else◌,
}

-- The port has power, a device, and is enabled.
abbrev one_port : Controller ℕ
one_port = record {
  read32 = λ off d. (if off == 0x1064 then 0x1005 + d else 0x1000, d);
  write32 = λ off val d. if off == 0x1064 then (if has_bit val 8 then 0x100 else 0) else d;
  read_token = λ i d. (0, d);
  received = λ d i. 0;
}

abbrev addresses : Addresses
addresses = record {
  of_qh = λ i. 0x20_0000 + i * 64;
  of_qtd = λ i. 0x20_1000 + i * 64;
  of_head = 0x20_3000;
  of_setup = 0x20_3040;
  of_data = 0x20_3080;
}

abbrev sample : ℕ → Ehci ℕ
sample used = record {
  found = true;
  mmio = 0x1000;
  caplength = 0x20;
  num_ports = 1;
  qh_used = used;
  qtd_used = used * 3;
  qh_pool = λ i. zero_qh;
  qtd_pool = λ i. zero_qtd;
  async_head = zero_qh;
  setup_buf = [];
  dev = 0;
}

ehci_control_transfer-Accounts_example :
    Accounts one_port 2 6
      (ehci_control_transfer one_port addresses 0 0 (some (0x80 ∷ [])) true 18 (sample 2))
ehci_control_transfer-Accounts_example =
    ehci_control_transfer-Accounts one_port addresses 0 0 (some (0x80 ∷ [])) true 18 (sample 2)
      (omega arith) (omega arith)

ehci_control_transfer-exhausted_example :
    (ehci_control_transfer one_port addresses 0 0 (some (0x80 ∷ [])) true 18 (sample 8)).0.0
    ≡ failed
ehci_control_transfer-exhausted_example =
    ehci_control_transfer-exhausted one_port addresses 0 0 (some (0x80 ∷ [])) true 18 (sample 8)
      refl

ehci_wait_halted_lem_example :
    (((ehci_wait_halted one_port true (sample 0)).0 ≡ true)
      × ((i : ℕ) × (i < 200000) × (halted_at one_port i (sample 0) ≡ true)))
    ⊎ (((ehci_wait_halted one_port true (sample 0)).0 ≡ false)
        × ((i : ℕ) → i < 200000 → halted_at one_port i (sample 0) ≡ false))
ehci_wait_halted_lem_example = ehci_wait_halted_lem one_port (sample 0)

is_reset : (ehci_reset_port_checked one_port 0 (sample 0)).0 ≡ success
unfolding ehci_reset_port_checked signal_reset finish_reset power_port ehci_clear_port_changes
    read_until poll ehci_read_op ehci_write_op has_bit without
is_reset = refl

ehci_reset_port_checked-Enabled_example :
    ((sample 0).found ≡ true)
    × (0 < (sample 0).num_ports)
    × Enabled one_port 0 (ehci_reset_port_checked one_port 0 (sample 0)).1
ehci_reset_port_checked-Enabled_example =
    ehci_reset_port_checked-Enabled one_port 0 (sample 0) is_reset
