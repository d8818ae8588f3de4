-- ===== src/Ehci/Pool.antt =====
-- The pools of ehci.c over a control transfer: only a transfer that succeeds gives its descriptors
-- back.
use apsyde.Ehci.State.{
  Ehci, Controller, Addresses, ehci_read_op, ehci_write_op, ehci_pool_reset, ehci_usbcmd, has_bit,
  without, ehci_portsc,
}
use apsyde.Ehci.Schedule.{
  poll, ehci_wait_halted, ehci_wait_async, ehci_async_stop, ehci_async_start,
}
use apsyde.Ehci.Ports.{success, failed, find_port_from}
use apsyde.Ehci.Transfer.{
  Descriptors, Transferred, link_qh, unlink_qh, read_tokens, wait_transfer, any_active, any_error,
  give_up, complete, run_transfer, submit, ehci_xfer_timeout,
}
use apsyde.Common.{
  ℕ, zero, suc, ◌+◌, ◌^◌, bit_or, ◌≡◌, refl, ◌⊎◌, inl, inr, Bool, true, false, not, Option, ◌==◌,
  if-both,
}

module _ {D : Type 0} where
  -- The counters of both pools.
  abbrev pub Used : Ehci D → ℕ → ℕ → Type 0
  Used s a b = (s.qh_used ≡ a) × (s.qtd_used ≡ b)

module _ {D : Type 0} (hw : Controller D) (a b : ℕ) where
  pub read_op-Used : (off : ℕ) (s : Ehci D) → Used s a b → Used (ehci_read_op hw off s).1 a b
  unfolding ehci_read_op
  read_op-Used off s u =
      if-both (λ (r : ℕ × Ehci D). Used (r.1) a b) (s.mmio == 0) _ _ (λ e. u) (λ e. u)

  write_op-Used : (off val : ℕ) (s : Ehci D) → Used s a b → Used (ehci_write_op hw off val s) a b
  unfolding ehci_write_op
  write_op-Used off val s u =
      if-both (λ (r : Ehci D). Used r a b) (s.mmio == 0) _ _ (λ e. u) (λ e. u)

  poll-Used :
      (off n : ℕ) (test : ℕ → Bool) (s : Ehci D) → Used s a b → Used (poll hw off n test s).1 a b
  unfolding poll
  poll-Used off zero test s u = u
  poll-Used off (suc n) test s u =
      let r = ehci_read_op hw off s in
      let w = read_op-Used off s u in
      if-both (λ (r : Bool × Ehci D). Used (r.1) a b) (test (r.0)) _ _ (λ e. w)
        (λ e. poll-Used off n test (r.1) w)

  wait_halted-Used :
      (want : Bool) (s : Ehci D) → Used s a b → Used (ehci_wait_halted hw want s).1 a b
  unfolding ehci_wait_halted
  wait_halted-Used want s u = poll-Used _ _ _ s u

  wait_async-Used : (want : Bool) (s : Ehci D) → Used s a b → Used (ehci_wait_async hw want s).1 a b
  unfolding ehci_wait_async
  wait_async-Used want s u = poll-Used _ _ _ s u

  async_stop-Used : (s : Ehci D) → Used s a b → Used (ehci_async_stop hw s).1 a b
  unfolding ehci_async_stop
  async_stop-Used s u =
      let r = ehci_read_op hw ehci_usbcmd s in
      let w = read_op-Used ehci_usbcmd s u in
      if-both (λ (r : Bool × Ehci D). Used (r.1) a b) (not (has_bit (r.0) 5)) _ _ (λ e. w)
        (λ e.
          wait_async-Used false (ehci_write_op hw ehci_usbcmd (without (r.0) (2 ^ 5)) (r.1))
            (write_op-Used ehci_usbcmd (without (r.0) (2 ^ 5)) (r.1) w))

  async_start-Used : (s : Ehci D) → Used s a b → Used (ehci_async_start hw s).1 a b
  unfolding ehci_async_start
  async_start-Used s u =
      let r = ehci_read_op hw ehci_usbcmd s in
      let started = ehci_write_op hw ehci_usbcmd (bit_or (r.0) (2 ^ 5 + 2 ^ 0)) (r.1) in
      let w = wait_halted-Used false started (
        write_op-Used ehci_usbcmd (bit_or (r.0) (2 ^ 5 + 2 ^ 0)) (r.1)
          (read_op-Used ehci_usbcmd s u)) in
      let h = ehci_wait_halted hw false started in
      if-both (λ (r : Bool × Ehci D). Used (r.1) a b) (not (h.0)) _ _ (λ e. w)
        (λ e. wait_async-Used true (h.1) w)

  pub find_port-Used : (n p : ℕ) (s : Ehci D) → Used s a b → Used (find_port_from hw n p s).1 a b
  unfolding find_port_from
  find_port-Used zero p s u = u
  find_port-Used (suc n) p s u =
      let r = ehci_read_op hw (ehci_portsc p) s in
      let w = read_op-Used (ehci_portsc p) s u in
      if-both (λ (r : Option ℕ × Ehci D). Used (r.1) a b) (has_bit (r.0) 0) _ _ (λ e. w)
        (λ e. find_port-Used n (p + 1) (r.1) w)

  wait_transfer-Used :
      (n : ℕ) (k : Descriptors) (s : Ehci D) → Used s a b → Used (wait_transfer hw n k s) a b
  unfolding wait_transfer read_tokens
  wait_transfer-Used zero k s u = u
  wait_transfer-Used (suc n) k s u =
      let t = read_tokens hw k s in
      let w = read_op-Used 0x04 (t.1) u in
      let sts = ehci_read_op hw 0x04 (t.1) in
      if-both (λ (r : Ehci D). Used r a b) (not (any_active hw (t.0))) _ _ (λ e. u)
        (λ e.
          if-both (λ (r : Ehci D). Used r a b) (has_bit (sts.0) 4) _ _ (λ q. w)
            (λ q. wait_transfer-Used n k (sts.1) w))

  -- A failure leaves the counters, and a success resets them.
  abbrev pub Ends : Transferred hw → Type 0
  Ends o = ((o.0.0 ≡ success) × Used (o.1) 0 0) ⊎ ((o.0.0 ≡ failed) × Used (o.1) a b)

  give_up-Ends : (old_next : ℕ) (s : Ehci D) → Used s a b → Ends (give_up hw old_next s)
  unfolding give_up unlink_qh
  give_up-Ends old_next s u = inr (refl, async_start-Used (unlink_qh old_next s) u)

  complete-Ends :
      (old_next in_len : ℕ) (s : Ehci D) → Used s a b → Ends (complete hw old_next in_len s)
  unfolding complete unlink_qh ehci_pool_reset
  complete-Ends old_next in_len s u =
      let restarted = ehci_async_start hw (unlink_qh old_next s) in
      if-both Ends (not (restarted.0)) _ _
        (λ e. inr (refl, async_start-Used (unlink_qh old_next s) u)) (λ e. inl (refl, (refl, refl)))

  run_transfer-Ends :
      (old_next in_len : ℕ) (k : Descriptors) (s : Ehci D)
      → Used s a b
      → Ends (run_transfer hw old_next in_len k s)
  unfolding run_transfer read_tokens
  run_transfer-Ends old_next in_len k s u =
      let waited = wait_transfer hw ehci_xfer_timeout k s in
      let stopped = ehci_async_stop hw waited in
      let t = read_tokens hw k (stopped.1) in
      let w = async_stop-Used waited (wait_transfer-Used ehci_xfer_timeout k s u) in
      if-both Ends (not (stopped.0)) _ _ (λ e. inr (refl, w))
        (λ e.
          if-both Ends (any_active hw (t.0)) _ _ (λ q. give_up-Ends old_next (t.1) w)
            (λ q.
              if-both Ends (any_error hw (t.0)) _ _ (λ z. give_up-Ends old_next (t.1) w)
                (λ z. complete-Ends old_next in_len (t.1) w)))

  pub submit-Ends :
      (at : Addresses) (in_len : ℕ) (k : Descriptors) (s : Ehci D)
      → Used s a b
      → Ends (submit hw at in_len k s)
  unfolding submit link_qh unlink_qh
  submit-Ends at in_len k s u =
      let stopped = ehci_async_stop hw s in
      let head = (stopped.1).async_head in
      let w = async_stop-Used s u in
      let linked = link_qh at k (stopped.1) in
      let started = ehci_async_start hw linked in
      let v = async_start-Used linked w in
      let stopped_again = ehci_async_stop hw (started.1) in
      if-both Ends (not (stopped.0)) _ _ (λ e. inr (refl, w))
        (λ e.
          if-both Ends (not (started.0)) _ _
            (λ q. inr (
              refl,
              async_start-Used (unlink_qh head.horiz_link (stopped_again.1))
                  (async_stop-Used (started.1) v),
            ))
            (λ q. run_transfer-Ends head.horiz_link in_len k (started.1) v))
