-- ===== src/Ehci/Polling.antt =====
-- The polling loops of ehci.c: they end, and find what one of their reads shows.
use apsyde.Ehci.State.{
  Ehci, Controller, ehci_read_op, ehci_usbsts, has_bit, ehci_portsc, ehci_write_op, without,
}
use apsyde.Ehci.Schedule.{poll, ehci_wait_halted, ehci_stop_timeout, differ, ehci_reset_timeout}
use apsyde.Ehci.Ports.{
  Code, success, read_until, finish_reset, signal_reset, ehci_reset_port_checked,
  ehci_clear_port_changes, power_port,
}
use apsyde.Common.{
  ℕ, zero, suc, ◌<◌, ◌≡◌, refl, ◌⊎◌, inl, inr, Bool, true, false, not, arith, Bool-cases, ◌+◌, ◌^◌,
  sym, ap, ◌∙◌, if-both, bit_or, leb,
}

module _ {D : Type 0} (hw : Controller D) where
  -- The value of the `i`-th read of a register, when it is read again and again.
  unfoldable pub nth_read : ℕ → ℕ → Ehci D → ℕ
  nth_read off zero s = (ehci_read_op hw off s).0
  nth_read off (suc i) s = nth_read off i (ehci_read_op hw off s).1

  as_is : (b c : Bool) → not (differ b true) ≡ c → b ≡ c
  as_is true c h = h
  as_is false c h = h

  later :
      (off n : ℕ) (test : ℕ → Bool) (s : Ehci D)
      → test (ehci_read_op hw off s).0 ≡ false
      → ((i : ℕ) → i < n → test (nth_read off i (ehci_read_op hw off s).1) ≡ false)
      → (i : ℕ) → i < suc n
      → test (nth_read off i s) ≡ false
  unfolding nth_read
  later off n test s e f zero l = e
  later off n test s e f (suc i) l = f i (omega (arith, l))

  pub poll_lem :
      (off n : ℕ) (test : ℕ → Bool) (s : Ehci D)
      → (((poll hw off n test s).0 ≡ true) × ((i : ℕ) × (i < n) × (test (nth_read off i s) ≡ true)))
        ⊎ (((poll hw off n test s).0 ≡ false) × ((i : ℕ) → i < n → test (nth_read off i s) ≡ false))
  unfolding poll nth_read
  poll_lem off zero test s = inr (refl, (λ i l. absurd (omega (arith, l))))
  poll_lem off (suc n) test s =
      let r = ehci_read_op hw off s in
      elim (Bool-cases (test (r.0))) [
        | inl e ↦ rw e (inl (refl, (0, omega arith, e)))
        | inr e ↦ rw e (elim (poll_lem off n test (r.1)) [
          | inl (b, (i, l, q)) ↦ inl (b, (suc i, omega (arith, l), q))
          | inr (b, f) ↦ inr (b, later off n test s e f)
        ])
      ]

  -- Whether the controller shows at the `i`-th read of USBSTS that it is halted.
  abbrev pub halted_at : ℕ → Ehci D → Bool
  halted_at i s = has_bit (nth_read ehci_usbsts i s) 12

  -- The wait for a halt reports 0 exactly when one of the first 200,000 reads of USBSTS shows
  -- the halt bit, and -1 exactly when none does.
  pub ehci_wait_halted_lem :
      (s : Ehci D)
      → (((ehci_wait_halted hw true s).0 ≡ true)
          × ((i : ℕ) × (i < 200000) × (halted_at i s ≡ true)))
        ⊎ (((ehci_wait_halted hw true s).0 ≡ false)
            × ((i : ℕ) → i < 200000 → halted_at i s ≡ false))
  unfolding ehci_wait_halted
  ehci_wait_halted_lem s =
      elim (poll_lem ehci_usbsts ehci_stop_timeout (λ sts. not (differ (has_bit sts 12) true)) s) [
        | inl (b, (i, l, q)) ↦ inl (b, (i, l, as_is (halted_at i s) true q))
        | inr (b, f) ↦ inr (b, (λ i l. as_is (halted_at i s) false (f i l)))
      ]

  -- A loop that keeps the last value read ends with what some read gave.
  read_until_last :
      (off n : ℕ) (test : ℕ → Bool) (last : ℕ) (s : Ehci D)
      → (t : Ehci D) × (read_until hw off (suc n) test last s ≡ ehci_read_op hw off t)
  unfolding read_until
  read_until_last off zero test last s = (
    s,
    (elim (Bool-cases (test (ehci_read_op hw off s).0)) [ inl e ↦ rw e refl | inr e ↦ rw e refl ]),
  )
  read_until_last off (suc n) test last s =
      let r = ehci_read_op hw off s in
      let ih = read_until_last off n test (r.0) (r.1) in
      elim (Bool-cases (test (r.0))) [ inl e ↦ (s, rw e refl) | inr e ↦ (ih.0, rw e (ih.1)) ]

  -- The last thing that happened was a read of PORTSC that shows a device and the port enabled.
  abbrev pub Enabled : ℕ → Ehci D → Type 0
  Enabled port s =
      (t : Ehci D) × (s ≡ (ehci_read_op hw (ehci_portsc port) t).1)
      × (has_bit (ehci_read_op hw (ehci_portsc port) t).0 0 ≡ true)
      × (has_bit (ehci_read_op hw (ehci_portsc port) t).0 2 ≡ true)

  abbrev WhenSuccess : ℕ → Code × Ehci D → Type 0
  WhenSuccess port o = o.0 ≡ success → Enabled port (o.1)

  Enabled-by :
      (port : ℕ) (e : ℕ × Ehci D)
      → ((t : Ehci D) × (e ≡ ehci_read_op hw (ehci_portsc port) t))
      → has_bit (e.0) 0 ≡ true
      → has_bit (e.0) 2 ≡ true
      → Enabled port (e.1)
  Enabled-by port e (t, q) c p = (
    t,
    ap (λ r. r.1) q,
    sym (ap (λ r. has_bit (r.0) 0) q) ∙ c,
    sym (ap (λ r. has_bit (r.0) 2) q) ∙ p,
  )

  finish_reset-Enabled : (port : ℕ) (s : Ehci D) → WhenSuccess port (finish_reset hw port s)
  unfolding finish_reset
  finish_reset-Enabled port s =
      let off = ehci_portsc port in
      let r = ehci_read_op hw off s in
      let off_signal =
        ehci_write_op hw off (without (without (r.0) (2 ^ 8)) (2 ^ 1 + 2 ^ 3)) (r.1) in
      let ended = read_until hw off ehci_reset_timeout (λ v. not (has_bit v 8)) (r.0) off_signal in
      let enabled = read_until hw off ehci_reset_timeout (λ v. has_bit v 2) (ended.0) (ended.1) in
      let read = read_until_last off 199999 (λ v. has_bit v 2) (ended.0) (ended.1) in
      if-both (WhenSuccess port) (has_bit (ended.0) 8) _ _ (λ e q. cc)
        (λ e.
          if-both (WhenSuccess port) (not (has_bit (enabled.0) 0)) _ _ (λ x q. cc)
            (λ x.
              if-both (WhenSuccess port) (not (has_bit (enabled.0) 2)) _ _ (λ y q. cc)
                (λ y q. Enabled-by port enabled read (ground (arith, x)) (ground (arith, y)))))

  abbrev Checked : ℕ → Ehci D → Code × Ehci D → Type 0
  Checked port s o = o.0 ≡ success → (s.found ≡ true) × (port < s.num_ports) × Enabled port (o.1)

  -- Where the reset of a port reports 0, the controller was found, the port is one of its
  -- ports, and the last access to the controller was a read of the port's register that showed
  -- a device and the port enabled, whatever the controller does.
  pub ehci_reset_port_checked-Enabled :
      (port : ℕ) (s : Ehci D)
      → (ehci_reset_port_checked hw port s).0 ≡ success
      → (s.found ≡ true) × (port < s.num_ports) × Enabled port (ehci_reset_port_checked hw port s).1
  unfolding ehci_reset_port_checked signal_reset
  ehci_reset_port_checked-Enabled port s =
      let off = ehci_portsc port in
      let r = ehci_read_op hw off s in
      let again = ehci_read_op hw off (power_port hw port (r.0) (r.1)) in
      let q = ehci_read_op hw off (ehci_clear_port_changes hw port (again.0) (again.1)) in
      let signalled = ehci_write_op hw off (bit_or (without (q.0) (2 ^ 1 + 2 ^ 3)) (2 ^ 8)) (q.1) in
      let seen = poll hw off ehci_reset_timeout (λ v. has_bit v 8) signalled in
      if-both (Checked port s) (not s.found) _ _ (λ e x. cc)
        (λ e.
          if-both (Checked port s) (leb s.num_ports port) _ _ (λ e1 x. cc)
            (λ e1.
              if-both (Checked port s) (not (has_bit (r.0) 0)) _ _ (λ e2 x. cc)
                (λ e2.
                  if-both (Checked port s) (not (has_bit (again.0) 0)) _ _ (λ e3 x. cc)
                    (λ e3.
                      if-both (Checked port s) (not (seen.0)) _ _ (λ e4 x. cc)
                        (λ e4 x. (
                          ground (arith, e),
                          ground (arith, e1),
                          finish_reset-Enabled port (seen.1) x,
                        ))))))
