-- ===== src/Ehci/Ports.antt =====
-- The ports of ehci.c: which is connected, and how one is reset.
use apsyde.Ehci.State.{Ehci, Controller, ehci_read_op, ehci_write_op, ehci_portsc, has_bit, without}
use apsyde.Ehci.Schedule.{poll, ehci_reset_timeout}
use apsyde.Common.{
  ℕ, zero, suc, ◌+◌, ◌^◌, bit_or, Bool, false, not, Option, none, some, leb, ◌==◌, if◌then◌else◌,
}

-- What the functions return: 0, -1 and -2.
pub data Code : Type 0 where
  success failed not_high_speed : Code

module _ {D : Type 0} (hw : Controller D) where
  -- `port < 0` is not modelled: a port is a natural number.
  unfoldable pub ehci_port_connected : ℕ → Ehci D → Bool × Ehci D
  ehci_port_connected port s =
      let r = ehci_read_op hw (ehci_portsc port) s in
      if not s.found
      then (false, s)
      else if leb s.num_ports port
      then (false, s)
      else (has_bit (r.0) 0, r.1)

  -- The loop of ehci_find_device_port from port `p` on; `none` is -1.
  unfoldable pub find_port_from : ℕ → ℕ → Ehci D → Option ℕ × Ehci D
  find_port_from zero p s = (none, s)
  find_port_from (suc left) p s =
      let r = ehci_read_op hw (ehci_portsc p) s in
      let rest = find_port_from left (p + 1) (r.1) in
      if has_bit (r.0) 0 then (some p, r.1) else rest

  unfoldable pub ehci_find_device_port : Ehci D → Option ℕ × Ehci D
  ehci_find_device_port s = find_port_from s.num_ports 0 s

  -- The write goes only to the change bits that are set: CSC is bit 1 and PEDC bit 3.
  unfoldable pub ehci_clear_port_changes : ℕ → ℕ → Ehci D → Ehci D
  ehci_clear_port_changes port portsc s =
      let clear =
        bit_or (if has_bit portsc 1 then 2 ^ 1 else 0) (if has_bit portsc 3 then 2 ^ 3 else 0) in
      if not (clear == 0) then ehci_write_op hw (ehci_portsc port) clear s else s

  -- A polling loop that keeps the last value read; `last` is the value before.
  unfoldable pub read_until : ℕ → ℕ → (ℕ → Bool) → ℕ → Ehci D → ℕ × Ehci D
  read_until off zero test last s = (last, s)
  read_until off (suc left) test last s =
      let r = ehci_read_op hw off s in
      let rest = read_until off left test (r.0) (r.1) in if test (r.0) then r else rest

  -- The power of the port is switched on.
  unfoldable pub power_port : ℕ → ℕ → Ehci D → Ehci D
  power_port port portsc s =
      if has_bit portsc 12
      then s
      else ehci_write_op hw (ehci_portsc port) (bit_or (without portsc (2 ^ 1 + 2 ^ 3)) (2 ^ 12)) s

  -- ehci_reset_port_checked from the end of the reset signal on.
  unfoldable pub finish_reset : ℕ → Ehci D → Code × Ehci D
  finish_reset port s =
      let off = ehci_portsc port in
      let r = ehci_read_op hw off s in
      let off_signal =
        ehci_write_op hw off (without (without (r.0) (2 ^ 8)) (2 ^ 1 + 2 ^ 3)) (r.1) in
      let ended = read_until off ehci_reset_timeout (λ v. not (has_bit v 8)) (r.0) off_signal in
      let enabled = read_until off ehci_reset_timeout (λ v. has_bit v 2) (ended.0) (ended.1) in
      if has_bit (ended.0) 8
      then (failed, ended.1)
      else if not (has_bit (enabled.0) 0)
      then (failed, enabled.1)
      else if not (has_bit (enabled.0) 2)
      then (not_high_speed, enabled.1)
      else (success, enabled.1)

  -- ehci_reset_port_checked from the start of the reset signal on; the pause changes nothing.
  unfoldable pub signal_reset : ℕ → ℕ → Ehci D → Code × Ehci D
  signal_reset port portsc s =
      let off = ehci_portsc port in
      let r = ehci_read_op hw off (ehci_clear_port_changes port portsc s) in
      let signalled = ehci_write_op hw off (bit_or (without (r.0) (2 ^ 1 + 2 ^ 3)) (2 ^ 8)) (r.1) in
      let seen = poll hw off ehci_reset_timeout (λ v. has_bit v 8) signalled in
      if not (seen.0) then (failed, seen.1) else finish_reset port (seen.1)

  unfoldable pub ehci_reset_port_checked : ℕ → Ehci D → Code × Ehci D
  ehci_reset_port_checked port s =
      let off = ehci_portsc port in
      let r = ehci_read_op hw off s in
      let again = ehci_read_op hw off (power_port port (r.0) (r.1)) in
      if not s.found
      then (failed, s)
      else if leb s.num_ports port
      then (failed, s)
      else if not (has_bit (r.0) 0)
      then (failed, r.1)
      else if not (has_bit (again.0) 0)
      then (failed, again.1)
      else signal_reset port (again.0) (again.1)

  unfoldable pub ehci_reset_port : ℕ → Ehci D → Ehci D
  ehci_reset_port port s = (ehci_reset_port_checked port s).1
