-- ===== src/Ehci/Transfer.antt =====
-- The control transfer of ehci.c, and the request for the device descriptor.
use apsyde.Common.Ring.{put}
use apsyde.Ehci.State.{
  Ehci, Controller, Addresses, ehci_read_op, ehci_portsc, has_bit, qh_alloc, qtd_alloc,
  qtd_make_token, qtd_prepare, qtd_status, ehci_terminate, ehci_qh_type, ehci_pool_reset,
}
use apsyde.Ehci.Schedule.{ehci_async_stop, ehci_async_start}
use apsyde.Ehci.Ports.{Code, success, failed, ehci_find_device_port}
use apsyde.Common.{
  ℕ, zero, suc, ◌+◌, ◌^◌, bit_and, bit_or, Bool, true, false, not, ◌&&◌, ◌||◌, Option, none, some,
  List, [], ◌∷◌, ltb, ◌==◌, if◌then◌else◌, ◌<<<◌,
}

abbrev pub ehci_xfer_timeout : ℕ
ehci_xfer_timeout = 2000000

-- The four descriptors of a transfer, by their index in the pools.
pub record Descriptors : Type 0 where
  pub qh : ℕ
  pub q0 : ℕ
  pub q1 : ℕ
  pub q2 : ℕ

-- `!qh || !q0 || !q1 || !q2`
unfoldable pub all_four : Option ℕ → Option ℕ → Option ℕ → Option ℕ → Option Descriptors
all_four (some a) (some b) (some c) (some d) = some record { qh = a; q0 = b; q1 = c; q2 = d }
all_four none b c d = none
all_four (some a) none c d = none
all_four (some a) (some b) none d = none
all_four (some a) (some b) (some c) none = none

-- The four allocations, each of which is made whatever the others gave.
unfoldable pub alloc_chain : {D : Type 0} → Ehci D → Option Descriptors × Ehci D
alloc_chain s =
    let a = qh_alloc s in
    let b = qtd_alloc (a.1) in
    let c = qtd_alloc (b.1) in let d = qtd_alloc (c.1) in (all_four (a.0) (b.0) (c.0) (d.0), d.1)

unfoldable pub above_4g : Addresses → Descriptors → Bool
above_4g at k =
    ltb 0xffff_ffff (at.of_qh k.qh)
    || ltb 0xffff_ffff (at.of_qtd k.q0)
    || ltb 0xffff_ffff (at.of_qtd k.q1)
    || ltb 0xffff_ffff (at.of_qtd k.q2)
    || ltb 0xffff_ffff at.of_setup
    || ltb 0xffff_ffff at.of_data

-- The endpoint characteristics: high speed, packets of 8 bytes, DTC.
unfoldable pub make_ep_char : ℕ → ℕ → ℕ
make_ep_char dev_addr ep =
    bit_or
      (bit_or (bit_or (bit_or (bit_and dev_addr 0x7f) (bit_and ep 0xf <<< 8)) (2 <<< 12))
        (8 <<< 16))
      (2 ^ 14)

-- The queue head and the three qTDs, for SETUP, IN and OUT.
unfoldable pub fill_chain : {D : Type 0} → Addresses → ℕ → ℕ → ℕ → Descriptors → Ehci D → Ehci D
fill_chain at dev_addr ep in_len k s = record s {
  qh_pool = put s.qh_pool k.qh record {
    horiz_link = ehci_terminate;
    ep_char = make_ep_char dev_addr ep;
    ep_caps = 0;
    current_qtd = ehci_terminate;
    next_qtd = at.of_qtd k.q0;
    alt_next_qtd = ehci_terminate;
    token = 0;
    buf = 0;
  };
  qtd_pool =
      put
        (put
          (put s.qtd_pool k.q0
            (qtd_prepare (at.of_qtd k.q1) (qtd_make_token 2 8 false) true at.of_setup))
          k.q1
          (qtd_prepare (at.of_qtd k.q2) (qtd_make_token 1 in_len false) true
            (if in_len == 0 then 0 else at.of_data)))
        k.q2 (qtd_prepare ehci_terminate (qtd_make_token 0 0 true) false 0);
}

-- The queue head goes into the list behind the anchor.
unfoldable pub link_qh : {D : Type 0} → Addresses → Descriptors → Ehci D → Ehci D
link_qh at k s =
    let qh = s.qh_pool k.qh in
    let head = s.async_head in
    record s {
      qh_pool = put s.qh_pool k.qh record qh { horiz_link = head.horiz_link };
      async_head = record head { horiz_link = bit_or (at.of_qh k.qh) ehci_qh_type };
    }

unfoldable pub unlink_qh : {D : Type 0} → ℕ → Ehci D → Ehci D
unlink_qh old_next s =
    let head = s.async_head in record s { async_head = record head { horiz_link = old_next } }

module _ {D : Type 0} (hw : Controller D) where
  -- The three tokens, in the order the driver reads them.
  unfoldable pub read_tokens : Descriptors → Ehci D → (ℕ × ℕ × ℕ) × Ehci D
  read_tokens k s =
      let a = hw.read_token k.q0 s.dev in
      let b = hw.read_token k.q1 (a.1) in
      let c = hw.read_token k.q2 (b.1) in ((a.0, b.0, c.0), record s { dev = c.1 })

  unfoldable pub any_active : ℕ × ℕ × ℕ → Bool
  any_active (t0, t1, t2) = has_bit t0 7 || has_bit t1 7 || has_bit t2 7

  unfoldable pub any_error : ℕ × ℕ × ℕ → Bool
  any_error (t0, t1, t2) =
      not (qtd_status t0 == 0) || not (qtd_status t1 == 0) || not (qtd_status t2 == 0)

  -- The loop that waits until no qTD is active, or the controller reports a system error.
  unfoldable pub wait_transfer : ℕ → Descriptors → Ehci D → Ehci D
  wait_transfer zero k s = s
  wait_transfer (suc left) k s =
      let t = read_tokens k s in
      let sts = ehci_read_op hw 0x04 (t.1) in
      let rest = wait_transfer left k (sts.1) in
      if not (any_active (t.0)) then t.1 else if has_bit (sts.0) 4 then sts.1 else rest

  -- The result, and the bytes that go to the caller's buffer.
  abbrev pub Transferred : Type 0
  Transferred = (Code × List ℕ) × Ehci D

  unfoldable pub first_bytes : (ℕ → ℕ) → ℕ → ℕ → List ℕ
  first_bytes f i zero = []
  first_bytes f i (suc n) = f i ∷ first_bytes f (i + 1) n

  -- The end of a transfer that did not succeed: the list is as before, and runs again.
  unfoldable pub give_up : ℕ → Ehci D → Transferred
  give_up old_next s = ((failed, []), (ehci_async_start hw (unlink_qh old_next s)).1)

  -- The end of a transfer without an error.
  unfoldable pub complete : ℕ → ℕ → Ehci D → Transferred
  complete old_next in_len s =
      let restarted = ehci_async_start hw (unlink_qh old_next s) in
      if not (restarted.0) then ((failed, []), restarted.1) else (
        (success, first_bytes (hw.received (restarted.1).dev) 0 in_len),
        ehci_pool_reset (restarted.1),
      )

  -- The transfer once the descriptors are in the list and the schedule runs; the message before the
  -- wait is left out.
  unfoldable pub run_transfer : ℕ → ℕ → Descriptors → Ehci D → Transferred
  run_transfer old_next in_len k s =
      let stopped = ehci_async_stop hw (wait_transfer ehci_xfer_timeout k s) in
      let t = read_tokens k (stopped.1) in
      if not (stopped.0)
      then ((failed, []), stopped.1)
      else if any_active (t.0)
      then give_up old_next (t.1)
      else if any_error (t.0)
      then give_up old_next (t.1)
      else complete old_next in_len (t.1)

  -- The schedule stops, takes the queue head, and starts.
  unfoldable pub submit : Addresses → ℕ → Descriptors → Ehci D → Transferred
  submit at in_len k s =
      let stopped = ehci_async_stop hw s in
      let head = (stopped.1).async_head in
      let old_next = head.horiz_link in
      let started = ehci_async_start hw (link_qh at k (stopped.1)) in
      let undone = unlink_qh old_next (ehci_async_stop hw (started.1)).1 in
      if not (stopped.0)
      then ((failed, []), stopped.1)
      else if not (started.0)
      then ((failed, []), (ehci_async_start hw undone).1)
      else run_transfer old_next in_len k (started.1)

  -- The transfer with what alloc_chain gave.
  unfoldable pub with_chain : Addresses → ℕ → ℕ → ℕ → Option Descriptors × Ehci D → Transferred
  with_chain at dev_addr ep in_len (none, s) = ((failed, []), s)
  with_chain at dev_addr ep in_len (some k, s) =
      if above_4g at k
      then ((failed, []), s)
      else submit at in_len k (fill_chain at dev_addr ep in_len k s)

  -- The transfer on the port that is connected.
  unfoldable pub on_port : Addresses → ℕ → ℕ → List ℕ → ℕ → Option ℕ × Ehci D → Transferred
  on_port at dev_addr ep setup in_len (none, s) = ((failed, []), s)
  on_port at dev_addr ep setup in_len (some port, s) =
      let r = ehci_read_op hw (ehci_portsc port) s in
      if not (has_bit (r.0) 2)
      then ((failed, []), r.1)
      else if not (ep == 0)
      then ((failed, []), r.1)
      else let g = r.1 in
        with_chain at dev_addr ep in_len (alloc_chain record g { setup_buf = setup })

  -- `setup` and `in_there` say whether the two pointers are there.
  unfoldable pub ehci_control_transfer :
      Addresses → ℕ → ℕ → Option (List ℕ) → Bool → ℕ → Ehci D → Transferred
  ehci_control_transfer at dev_addr ep none in_there in_len s = ((failed, []), s)
  ehci_control_transfer at dev_addr ep (some setup) in_there in_len s =
      if not s.found
      then ((failed, []), s)
      else if ltb 256 in_len
      then ((failed, []), s)
      else if ltb 127 dev_addr
      then ((failed, []), s)
      else if ltb 15 ep
      then ((failed, []), s)
      else if ltb 0 in_len && not in_there
      then ((failed, []), s)
      else on_port at dev_addr ep setup in_len (ehci_find_device_port hw s)

  -- The check of the descriptor that came.
  unfoldable pub check_descriptor : Transferred → Transferred
  check_descriptor ((success, b0 ∷ b1 ∷ bs), s) =
      if not (b0 == 18) || not (b1 == 1)
      then ((failed, b0 ∷ b1 ∷ bs), s)
      else ((success, b0 ∷ b1 ∷ bs), s)
  check_descriptor other = other

  unfoldable pub ehci_get_device_descriptor : Addresses → ℕ → Bool → Ehci D → Transferred
  ehci_get_device_descriptor at dev_addr out_there s =
      if not out_there
      then ((failed, []), s)
      else check_descriptor (
          ehci_control_transfer at dev_addr 0 (some (0x80 ∷ 0x06 ∷ 0 ∷ 0x01 ∷ 0 ∷ 0 ∷ 18 ∷ 0 ∷ []))
            true 18 s)
