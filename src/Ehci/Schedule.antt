-- ===== src/Ehci/Schedule.antt =====
-- The bounded polling loops of ehci.c, the switch of the asynchronous schedule, and the start of the
-- controller.
use apsyde.Ehci.State.{
  Ehci, Controller, Addresses, Qh, ehci_read_op, ehci_write_op, ehci_pool_reset, has_bit, without,
  ehci_usbcmd, ehci_usbsts, ehci_usbintr, ehci_ctrldssegment, ehci_periodiclist, ehci_asynclistaddr,
  ehci_configflag, ehci_terminate, ehci_qh_type,
}
use apsyde.Common.{ℕ, zero, suc, ◌+◌, ◌^◌, bit_or, Bool, true, false, not, if◌then◌else◌, u32}

abbrev pub ehci_stop_timeout : ℕ
ehci_stop_timeout = 200000

abbrev pub ehci_reset_timeout : ℕ
ehci_reset_timeout = 200000

-- The exclusive or of two flags, as `==` of two `int` flags denies it.
abbrev pub differ : Bool → Bool → Bool
differ true b = not b
differ false b = b

module _ {D : Type 0} (hw : Controller D) where
  -- At most `left` reads of a register, until the test holds; `true` is 0 and `false` -1.
  unfoldable pub poll : ℕ → ℕ → (ℕ → Bool) → Ehci D → Bool × Ehci D
  poll off zero test s = (false, s)
  poll off (suc left) test s =
      let r = ehci_read_op hw off s in
      let rest = poll off left test (r.1) in if test (r.0) then (true, r.1) else rest

  unfoldable pub ehci_wait_halted : Bool → Ehci D → Bool × Ehci D
  ehci_wait_halted want_halted s =
      poll ehci_usbsts ehci_stop_timeout (λ sts. not (differ (has_bit sts 12) want_halted)) s

  unfoldable pub ehci_wait_reset_clear : Ehci D → Bool × Ehci D
  ehci_wait_reset_clear s = poll ehci_usbcmd ehci_reset_timeout (λ cmd. not (has_bit cmd 1)) s

  unfoldable pub ehci_wait_async : Bool → Ehci D → Bool × Ehci D
  ehci_wait_async enabled s =
      poll ehci_usbsts ehci_stop_timeout (λ sts. not (differ (has_bit sts 15) enabled)) s

  unfoldable pub ehci_async_stop : Ehci D → Bool × Ehci D
  ehci_async_stop s =
      let r = ehci_read_op hw ehci_usbcmd s in
      if not (has_bit (r.0) 5)
      then (true, r.1)
      else ehci_wait_async false (ehci_write_op hw ehci_usbcmd (without (r.0) (2 ^ 5)) (r.1))

  unfoldable pub ehci_async_start : Ehci D → Bool × Ehci D
  ehci_async_start s =
      let r = ehci_read_op hw ehci_usbcmd s in
      let h =
        ehci_wait_halted false
          (ehci_write_op hw ehci_usbcmd (bit_or (r.0) (2 ^ 5 + 2 ^ 0)) (r.1)) in
      if not (h.0) then h else ehci_wait_async true (h.1)

  -- The anchor of the list: H = 1, and it links to itself.
  unfoldable pub anchor : ℕ → Qh
  anchor head_phys = record {
    horiz_link = bit_or head_phys ehci_qh_type;
    ep_char = 2 ^ 15;
    ep_caps = 0;
    current_qtd = ehci_terminate;
    next_qtd = ehci_terminate;
    alt_next_qtd = ehci_terminate;
    token = 0;
    buf = 0;
  }

  -- ehci_init_controller after the reset.
  unfoldable pub set_up : Addresses → Ehci D → Ehci D
  set_up at s =
      let head_phys = u32 at.of_head in
      let a = ehci_pool_reset (ehci_write_op hw ehci_ctrldssegment 0 s) in
      let b = record a { async_head = anchor head_phys } in
      let c =
        ehci_write_op hw ehci_usbintr 0 (
          ehci_write_op hw ehci_periodiclist 0 (ehci_write_op hw ehci_asynclistaddr head_phys b)) in
      let cfg = ehci_read_op hw ehci_configflag c in
      let started = ehci_wait_halted false (
        ehci_write_op hw ehci_usbcmd 1
          (ehci_write_op hw ehci_configflag (bit_or (cfg.0) 1) (cfg.1))) in
      if not (started.0) then started.1 else (ehci_async_start (started.1)).1

  -- The last three reads, for the message, change no variable of the driver and are left out.
  unfoldable pub ehci_init_controller : Addresses → Ehci D → Ehci D
  ehci_init_controller at s =
      let r = ehci_read_op hw ehci_usbcmd s in
      let halted =
        ehci_wait_halted true
          (ehci_write_op hw ehci_usbcmd (without (r.0) (2 ^ 0 + 2 ^ 5)) (r.1)) in
      let q = ehci_read_op hw ehci_usbcmd (halted.1) in
      let cleared =
        ehci_wait_reset_clear (ehci_write_op hw ehci_usbcmd (bit_or (q.0) (2 ^ 1)) (q.1)) in
      if not s.found
      then s
      else if not (halted.0)
      then halted.1
      else if not (cleared.0)
      then cleared.1
      else set_up at (cleared.1)
