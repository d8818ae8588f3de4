-- ===== src/Pci/Scan.antt =====
-- The scan of pci.c ends, and keeps within the table.
use apsyde.Common.{
  ℕ, zero, suc, ◌+◌, ◌≤◌, ◌<◌, bit_and, ◌≡◌, refl, ◌≢◌, inl, inr, not, ◌&&◌, Option, some, [], ◌∷◌,
  arith, leb, ◌==◌, Bool-cases, if-both, length, length-append, ◌++◌,
}
use apsyde.Pci.{
  scan_function, Space, add_device, Table, each_from, pci_read8, pci_max_devices, read_device,
  pci_read16, pci_init, scan_bus, scan_device, scan_further,
}

-- A round returns, with a table that fits in g_devices.
abbrev pub Fits : Option Table → Type 0
Fits o = (t : Table) × (o ≡ some t) × (length t ≤ pci_max_devices)

-- Every bridge on the 256 buses leads to a bus with a higher number than its own.
abbrev pub BridgesAscend : Space → Type 0
BridgesAscend s =
    (bus dev func : ℕ)
    → bus < 256
    → dev < 32
    → func < 8
    → bit_and (pci_read8 s bus dev func 0x0e) 0x7f ≡ 1
    → pci_read8 s bus dev func 0x19 ≢ 0
    → bus < pci_read8 s bus dev func 0x19

each_from-Fits :
    (body : ℕ → Table → Option Table) (stop : ℕ)
    → ((i : ℕ) (t : Table) → i < stop → length t ≤ pci_max_devices → Fits (body i t))
    → (left i : ℕ) (t : Table) → i + left ≤ stop
    → length t ≤ pci_max_devices
    → Fits (each_from body left i t)
unfolding each_from
each_from-Fits body stop round zero i t few h = (t, refl, h)
each_from-Fits body stop round (suc left) i t few h =
    let r = round i t (omega (arith, few)) h in
    rw (each_from, r.1) (each_from-Fits body stop round left (i + 1) r.0 (omega (arith, few)) r.2)

add_device-Fits :
    (s : Space) (bus dev func : ℕ) (t : Table)
    → length t ≤ pci_max_devices
    → length (add_device s bus dev func t) ≤ pci_max_devices
unfolding add_device
add_device-Fits s bus dev func t h =
    if-both (λ x. length x ≤ pci_max_devices) (leb pci_max_devices (length t)) t
      (t ++ (read_device s bus dev func ∷ [])) (λ _. h)
      (λ room. let e = length-append t (read_device s bus dev func ∷ []) in ground (arith, room, e))

next_byte : (s : Space) (bus dev func : ℕ) → pci_read8 s bus dev func 0x19 < 256
unfolding pci_read8
next_byte s bus dev func = omega arith

scan_function-Fits :
    (s : Space)
    → BridgesAscend s
    → (fuel bus dev func : ℕ) (t : Table) → 256 ≤ bus + fuel
    → bus < 256
    → dev < 32
    → func < 8
    → length t ≤ pci_max_devices
    → Fits (scan_function s fuel bus dev func t)
unfolding scan_function
scan_function-Fits s up zero bus dev func t enough in_range in_dev in_func h =
    absurd (omega (arith, enough, in_range))
scan_function-Fits s up (suc fuel) bus dev func t enough in_range in_dev in_func h =
    let t' = add_device s bus dev func t in
    let h' = add_device-Fits s bus dev func t h in
    let next = pci_read8 s bus dev func 0x19 in
    elim (Bool-cases (pci_read16 s bus dev func 0x00 == 0xffff)) [
      | inl absent ↦ rw (scan_function, absent) (t, refl, h)
      | inr present ↦
          elim (Bool-cases
            ((bit_and (pci_read8 s bus dev func 0x0e) 0x7f == 1) && not (next == 0))) [
              | inr plain ↦ rw (scan_function, present, plain) (t', refl, h')
              | inl bridge ↦
                  let above : bus < next =
                    up bus dev func in_range in_dev in_func (ground (arith, bridge))
                      (ground (arith, bridge)) in
                  let byte : next < 256 = next_byte s bus dev func in
                  rw (scan_function, present, bridge)
                    (each_from-Fits _ 32
                      (λ d u hd hu.
                        each_from-Fits _ 8
                          (λ f w hf hw.
                            scan_function-Fits s up fuel next d f w (omega (arith, above, enough))
                              byte hd hf hw)
                          8 0 u (omega arith) hu)
                      32 0 t' (omega arith) h')
            ]
    ]

scan_further-Fits :
    (s : Space)
    → BridgesAscend s
    → (bus dev f : ℕ) (t : Table) → bus < 256
    → dev < 32
    → f < 8
    → length t ≤ pci_max_devices
    → Fits (scan_further s 256 bus dev f t)
unfolding scan_further
scan_further-Fits s up bus dev f t byte hd hf h =
    if-both Fits (not (pci_read16 s bus dev f 0x00 == 0xffff)) _ _
      (λ _. scan_function-Fits s up 256 bus dev f t (omega arith) byte hd hf h) (λ _. (t, refl, h))

scan_device-Fits :
    (s : Space)
    → BridgesAscend s
    → (bus dev : ℕ) (t : Table) → bus < 256
    → dev < 32
    → length t ≤ pci_max_devices
    → Fits (scan_device s 256 bus dev t)
unfolding scan_device
scan_device-Fits s up bus dev t byte hd h =
    let r = scan_function-Fits s up 256 bus dev 0 t (omega arith) byte hd (omega arith) h in
    elim (Bool-cases (pci_read16 s bus dev 0 0x00 == 0xffff)) [
      | inl absent ↦ rw (scan_device, absent) (t, refl, h)
      | inr present ↦
          rw (scan_device, present, r.1)
            (if-both Fits (not (bit_and (pci_read8 s bus dev 0 0x0e) 0x80 == 0)) _ _
              (λ _.
                each_from-Fits _ 8 (λ f w hf hw. scan_further-Fits s up bus dev f w byte hd hf hw) 7
                  1 r.0 (omega arith) r.2)
              (λ _. (r.0, refl, r.2)))
    ]

scan_bus-Fits :
    (s : Space)
    → BridgesAscend s
    → (bus : ℕ) (t : Table) → bus < 256
    → length t ≤ pci_max_devices
    → Fits (scan_bus s 256 bus t)
unfolding scan_bus
scan_bus-Fits s up bus t byte h =
    each_from-Fits _ 32 (λ d w hd hw. scan_device-Fits s up bus d w byte hd hw) 32 0 t (omega arith)
      h

-- If every bridge on the buses below 256 leads to a bus of a higher number, the scan ends within
-- a depth of 256 calls, and the table holds at most 64 devices.
pub pci_init-Fits : (s : Space) → BridgesAscend s → Fits (pci_init s 256)
unfolding pci_init
pci_init-Fits s up =
    let r = scan_bus-Fits s up 0 [] (omega arith) (omega arith) in
    rw (pci_init, r.1)
      (if-both Fits (length r.0 == 0) _ _
        (λ _.
          each_from-Fits _ 256 (λ b w byte hw. scan_bus-Fits s up b w byte hw) 15 1 r.0
            (omega arith) r.2)
        (λ _. (r.0, refl, r.2)))
