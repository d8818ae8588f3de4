-- ===== src/Ehci/Leak.antt =====
-- The descriptors that the control transfers of ehci.c take from the pools and do not give back.
use apsyde.Ehci.State.{
  Ehci, Controller, Addresses, ehci_read_op, qh_alloc, qtd_alloc, has_bit, ehci_portsc, ehci_max_qh,
  ehci_max_qtd,
}
use apsyde.Ehci.Ports.{success, failed, find_port_from, ehci_find_device_port}
use apsyde.Ehci.Transfer.{
  Descriptors, Transferred, all_four, alloc_chain, above_4g, fill_chain, with_chain, on_port,
  ehci_control_transfer,
}
use apsyde.Ehci.Pool.{Used, submit-Ends, find_port-Used, read_op-Used}
use apsyde.Common.{
  ℕ, ◌+◌, ◌≤◌, ◌<◌, ◌≡◌, refl, sym, ◌⊎◌, inl, inr, Bool, true, false, not, ◌&&◌, none-ne-some,
  Option, none, some, List, [], arith, ltb, leb, ◌==◌, if-both,
}

-- How a transfer ends: with both pools empty; before it took a descriptor; or with one queue head and
-- three qTDs more in use.
abbrev pub Accounts : {D : Type 0} → (hw : Controller D) → ℕ → ℕ → Transferred hw → Type 0
Accounts hw a b o =
    ((o.0.0 ≡ success) × Used (o.1) 0 0)
    ⊎ (((o.0.0 ≡ failed) × Used (o.1) a b) ⊎ ((o.0.0 ≡ failed) × Used (o.1) (a + 1) (b + 3)))

alloc_room :
    {D : Type 0} (s : Ehci D) (a b : ℕ)
    → Used s a b
    → a < ehci_max_qh
    → b + 3 ≤ ehci_max_qtd
    → (k : Descriptors) × ((alloc_chain s).0 ≡ some k) × Used (alloc_chain s).1 (a + 1) (b + 3)
unfolding alloc_chain qh_alloc qtd_alloc all_four
alloc_room s a b u ha hb =
    let free_qh : leb ehci_max_qh s.qh_used ≡ false = ground (arith, u.0, ha) in
    let free_0 : leb ehci_max_qtd s.qtd_used ≡ false = ground (arith, u.1, hb) in
    let free_1 : leb ehci_max_qtd (s.qtd_used + 1) ≡ false = ground (arith, u.1, hb) in
    let free_2 : leb ehci_max_qtd (s.qtd_used + 1 + 1) ≡ false = ground (arith, u.1, hb) in
    rw (free_qh, free_0, free_1, free_2)
      (
        record { qh = s.qh_used; q0 = s.qtd_used; q1 = s.qtd_used + 1; q2 = s.qtd_used + 1 + 1 },
        refl
            {a = some record {
              qh = s.qh_used;
              q0 = s.qtd_used;
              q1 = s.qtd_used + 1;
              q2 = s.qtd_used + 1 + 1;
            }},
        (omega (arith, u.0), omega (arith, u.1)),
      )

alloc_none : {D : Type 0} (s : Ehci D) → ehci_max_qh ≤ s.qh_used → (alloc_chain s).0 ≡ none
unfolding alloc_chain qh_alloc all_four
alloc_none s h = let full : leb ehci_max_qh s.qh_used ≡ true = ground (arith, h) in rw full refl

module _ {D : Type 0} (hw : Controller D) (a b : ℕ) where
  early : (s : Ehci D) → Used s a b → Accounts hw a b ((failed, []), s)
  early s u = inr (inl (refl, u))

  with_chain-Accounts :
      (at : Addresses) (dev_addr ep in_len : ℕ) (k : Descriptors) (o : Option Descriptors × Ehci D)
      → o.0 ≡ some k
      → Used (o.1) (a + 1) (b + 3)
      → Accounts hw a b (with_chain hw at dev_addr ep in_len o)
  unfolding with_chain fill_chain
  with_chain-Accounts at dev_addr ep in_len k (none, s) e u = absurd (none-ne-some k e)
  with_chain-Accounts at dev_addr ep in_len k (some c, s) e u =
      if-both (Accounts hw a b) (above_4g at c) _ _ (λ q. inr (inr (refl, u)))
        (λ q.
          elim (submit-Ends hw (a + 1) (b + 3) at in_len c (fill_chain at dev_addr ep in_len c s)
            u) [ inl z ↦ inl z | inr z ↦ inr (inr z) ])

  on_port-Accounts :
      (at : Addresses) (dev_addr ep : ℕ) (setup : List ℕ) (in_len : ℕ) (o : Option ℕ × Ehci D)
      → Used (o.1) a b
      → a < ehci_max_qh
      → b + 3 ≤ ehci_max_qtd
      → Accounts hw a b (on_port hw at dev_addr ep setup in_len o)
  unfolding on_port
  on_port-Accounts at dev_addr ep setup in_len (none, s) u ha hb = early s u
  on_port-Accounts at dev_addr ep setup in_len (some port, s) u ha hb =
      let r = ehci_read_op hw (ehci_portsc port) s in
      let w = read_op-Used hw a b (ehci_portsc port) s u in
      if-both (Accounts hw a b) (not (has_bit (r.0) 2)) _ _ (λ e. early (r.1) w)
        (λ e.
          if-both (Accounts hw a b) (not (ep == 0)) _ _ (λ q. early (r.1) w)
            (λ q.
              let g = r.1 in
              let s' = record g { setup_buf = setup } in
              let c = alloc_room s' a b w ha hb in
              with_chain-Accounts at dev_addr ep in_len (c.0) (alloc_chain s') (c.1) (c.2)))

-- Whatever the controller does: with fewer than 8 queue heads and at most 29 qTDs in use, a
-- control transfer either succeeds and leaves both pools empty, or it fails and leaves them as
-- they were, or it fails and leaves one queue head and three qTDs more in use.
pub ehci_control_transfer-Accounts :
    {D : Type 0} (hw : Controller D) (at : Addresses) (dev_addr ep : ℕ) (setup : Option (List ℕ))
    (in_there : Bool) (in_len : ℕ) (s : Ehci D)
    → s.qh_used < ehci_max_qh
    → s.qtd_used + 3 ≤ ehci_max_qtd
    → Accounts hw s.qh_used s.qtd_used
        (ehci_control_transfer hw at dev_addr ep setup in_there in_len s)
unfolding ehci_control_transfer ehci_find_device_port
ehci_control_transfer-Accounts hw at dev_addr ep none in_there in_len s ha hb =
    early hw s.qh_used s.qtd_used s (refl, refl)
ehci_control_transfer-Accounts hw at dev_addr ep (some setup) in_there in_len s ha hb =
    let a = s.qh_used in
    let b = s.qtd_used in
    let stop = early hw a b s (refl, refl) in
    if-both (Accounts hw a b) (not s.found) _ _ (λ e. stop)
      (λ e.
        if-both (Accounts hw a b) (ltb 256 in_len) _ _ (λ q. stop)
          (λ q.
            if-both (Accounts hw a b) (ltb 127 dev_addr) _ _ (λ t. stop)
              (λ t.
                if-both (Accounts hw a b) (ltb 15 ep) _ _ (λ x. stop)
                  (λ x.
                    if-both (Accounts hw a b) (ltb 0 in_len && not in_there) _ _ (λ y. stop)
                      (λ y.
                        on_port-Accounts hw a b at dev_addr ep setup in_len
                          (find_port_from hw s.num_ports 0 s)
                          (find_port-Used hw a b s.num_ports 0 s (refl, refl)) ha hb)))))

abbrev Fails : {D : Type 0} → (hw : Controller D) → Transferred hw → Type 0
Fails hw o = o.0.0 ≡ failed

with_none :
    {D : Type 0} (hw : Controller D) (at : Addresses) (dev_addr ep in_len : ℕ)
    (o : Option Descriptors × Ehci D)
    → o.0 ≡ none
    → (with_chain hw at dev_addr ep in_len o).0.0 ≡ failed
unfolding with_chain
with_none hw at dev_addr ep in_len (none, s) e = refl
with_none hw at dev_addr ep in_len (some k, s) e = absurd (none-ne-some k (sym e))

on_port-exhausted :
    {D : Type 0} (hw : Controller D) (at : Addresses) (dev_addr ep : ℕ) (setup : List ℕ)
    (in_len : ℕ) (o : Option ℕ × Ehci D)
    → ehci_max_qh ≤ (o.1).qh_used
    → (on_port hw at dev_addr ep setup in_len o).0.0 ≡ failed
unfolding on_port
on_port-exhausted hw at dev_addr ep setup in_len (none, s) full = refl
on_port-exhausted hw at dev_addr ep setup in_len (some port, s) full =
    let r = ehci_read_op hw (ehci_portsc port) s in
    let w = read_op-Used hw s.qh_used s.qtd_used (ehci_portsc port) s (refl, refl) in
    if-both (λ (o : Transferred hw). o.0.0 ≡ failed) (not (has_bit (r.0) 2)) _ _ (λ e. refl)
      (λ e.
        if-both (λ (o : Transferred hw). o.0.0 ≡ failed) (not (ep == 0)) _ _ (λ q. refl)
          (λ q.
            let g = r.1 in
            let s' = record g { setup_buf = setup } in
            with_none hw at dev_addr ep in_len (alloc_chain s')
              (alloc_none s' (omega (arith, full, w.0)))))

-- With 8 queue heads in use every control transfer fails, whatever the controller does.
pub ehci_control_transfer-exhausted :
    {D : Type 0} (hw : Controller D) (at : Addresses) (dev_addr ep : ℕ) (setup : Option (List ℕ))
    (in_there : Bool) (in_len : ℕ) (s : Ehci D)
    → s.qh_used ≡ ehci_max_qh
    → (ehci_control_transfer hw at dev_addr ep setup in_there in_len s).0.0 ≡ failed
unfolding ehci_control_transfer ehci_find_device_port
ehci_control_transfer-exhausted hw at dev_addr ep none in_there in_len s full = refl
ehci_control_transfer-exhausted hw at dev_addr ep (some setup) in_there in_len s full =
    if-both (Fails hw) (not s.found) _ _ (λ e. refl)
      (λ e.
        if-both (Fails hw) (ltb 256 in_len) _ _ (λ q. refl)
          (λ q.
            if-both (Fails hw) (ltb 127 dev_addr) _ _ (λ t. refl)
              (λ t.
                if-both (Fails hw) (ltb 15 ep) _ _ (λ x. refl)
                  (λ x.
                    if-both (Fails hw) (ltb 0 in_len && not in_there) _ _ (λ y. refl)
                      (λ y.
                        on_port-exhausted hw at dev_addr ep setup in_len
                          (find_port_from hw s.num_ports 0 s)
                          (omega (
                            arith,
                            full,
                            (find_port-Used hw s.qh_used s.qtd_used s.num_ports 0 s (refl, refl)).0,
                          )))))))
