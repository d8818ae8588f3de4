-- ===== src/Pci/Tests.antt =====
-- Runs of the theorems on the PCI bus at a small configuration space.
use apsyde.Common.{
  ℕ, ◌+◌, ◌-◌, ◌*◌, ◌/◌, ◌^◌, ◌≡◌, refl, [], ◌∷◌, arith, ◌==◌, if◌then◌else◌, u8, some, ◌≤◌,
  bit_and, sym, ◌≢◌, inl, inr, Option, none, List, Bool-cases, if-both, ◌>>>◌,
}
use apsyde.Pci.{
  Device, Space, pci_bar_size, pci_find, pci_read8, pci_make_addr, pci_init, pci_read32, matches,
  scan_bus, each_from, scan_device, scan_function, add_device, read_device, pci_read16, find_from,
  Table,
}
use apsyde.Pci.Scan.{Fits, BridgesAscend, pci_init-Fits}
use apsyde.Pci.Find.{pci_find_lem, FirstOf, IsWanted}
use apsyde.Pci.Bar.{pci_bar_size_lem}
use apsyde.Pci.Address.{pci_make_addr_lem}

same_addr : pci_make_addr 1 2 3 0x12 ≡ pci_make_addr 1 2 3 0x13
unfolding pci_make_addr
same_addr = refl

-- Device 0:1.0 is an EHCI controller, and nothing else answers.
abbrev one_controller : Space
one_controller a =
    if a == 0x8000_0800
    then 0x1234_8086
    else if a == 0x8000_0808
    then 0x0c03_2001
    else if a == 0x8000_080c
    then 0
    else 0xffff_ffff

abbrev controller : Device
controller = record {
  bus = 0;
  device = 1;
  function = 0;
  vendor_id = 0x8086;
  device_id = 0x1234;
  revision = 1;
  prog_if = 0x20;
  subclass = 3;
  class_code = 12;
  header_type = 0;
  subsys_vendor = 0xffff;
  subsys_id = 0xffff;
}

-- The next two devices differ from it in the interface and in the class.
abbrev host : Device
host = record controller { device = 2; prog_if = 0x30 }

abbrev bridge : Device
bridge = record controller { device = 3; class_code = 6 }

pci_find_lem_example :
    FirstOf
      (IsWanted 12 3 0x30)
      4
      (controller ∷ bridge ∷ host ∷ [])
      (pci_find 12 3 0x30 4 (controller ∷ bridge ∷ host ∷ []))
pci_find_lem_example = pci_find_lem 12 3 0x30 4 (controller ∷ bridge ∷ host ∷ [])

any_interface : pci_find 12 3 0xff 4 (controller ∷ bridge ∷ host ∷ []) ≡ controller ∷ host ∷ []
unfolding pci_find find_from matches
any_interface = refl

-- Device 0:2.0 is a bridge to bus 1, where one device answers.
abbrev with_bridge : Space
with_bridge a =
    if a == 0x8000_1000
    then 0x0001_8086
    else if a == 0x8000_100c
    then 0x0001_0000
    else if a == 0x8000_1018
    then 0x0000_0100
    else if a == 0x8001_0000
    then 0x0002_8086
    else if a == 0x8001_000c
    then 0
    else 0xffff_ffff

on_bus_above :
    (a : ℕ)
    → 0x8001_0000 ≤ a
    → with_bridge a
      ≡ (if a == 0x8001_0000 then 0x0002_8086 else if a == 0x8001_000c then 0 else 0xffff_ffff)
on_bus_above a h = ground (arith, h)

-- No register of a bus other than 0 says that it is a bridge's.
no_bridge_above : (a : ℕ) → 0x8001_0000 ≤ a → bit_and (u8 (with_bridge a >>> 16)) 0x7f ≢ 1
no_bridge_above a h e =
    if-both (λ w. bit_and (u8 (w >>> 16)) 0x7f ≢ 1) (a == 0x8001_0000) 0x0002_8086
      (if a == 0x8001_000c then 0 else 0xffff_ffff) (λ _ f. omega (arith, f))
      (λ _.
        if-both (λ w. bit_and (u8 (w >>> 16)) 0x7f ≢ 1) (a == 0x8001_000c) 0 0xffff_ffff
          (λ _ f. omega (arith, f)) (λ _ f. omega (arith, f)))
      (rw (sym (on_bus_above a h)) e)

with_bridge-BridgesAscend : BridgesAscend with_bridge
unfolding pci_read8 pci_read32
with_bridge-BridgesAscend bus dev func hb hd hf header next = elim (Bool-cases (bus == 0)) [
  | inl first ↦ ground (arith, first, next)
  | inr above ↦
      (let place = pci_make_addr_lem bus dev func 0x0c hb hd hf (omega arith) in
        absurd
          (no_bridge_above (pci_make_addr bus dev func 0x0c) (ground (arith, place, above)) header))
]

pci_init-Fits_example : Fits (pci_init with_bridge 256)
pci_init-Fits_example = pci_init-Fits with_bridge with_bridge-BridgesAscend

-- A BAR of 4096 bytes: the bits below 12 stay zero.
abbrev bar_write : ℕ → ℕ → Space → Space
bar_write addr value s = λ a. if a == addr then value / 4096 * 4096 else s a

bar_probe :
    pci_read32
      (bar_write (pci_make_addr 0 1 0 (u8 (0x10 + 0 * 4))) 0xffffffff one_controller)
      0
      1
      0
      (u8 (0x10 + 0 * 4))
    ≡ 2 ^ 32 - 2 ^ 12 + 0
unfolding pci_read32 pci_make_addr
bar_probe = refl

pci_bar_size_lem_example : pci_bar_size bar_write 0 1 0 0 one_controller ≡ (
  2 ^ 12,
  bar_write
      (pci_make_addr 0 1 0 (u8 (0x10 + 0 * 4)))
      (pci_read32 one_controller 0 1 0 (u8 (0x10 + 0 * 4)))
      (bar_write (pci_make_addr 0 1 0 (u8 (0x10 + 0 * 4))) 0xffffffff one_controller),
)
pci_bar_size_lem_example =
    pci_bar_size_lem bar_write 0 1 0 0 12 0 one_controller (omega arith) (omega arith) (omega arith)
      refl bar_probe

-- The scan finds the controller.
one_found : pci_init one_controller 1 ≡ some (controller ∷ [])
unfolding pci_init scan_bus each_from scan_device scan_function add_device read_device pci_read16
    pci_read8 pci_read32 pci_make_addr
one_found = refl

-- The buses of the functions that a scan found.
abbrev buses : Option Table → List ℕ
buses none = []
buses (some []) = []
buses (some (d ∷ t)) = d.bus ∷ buses (some t)

-- The scan finds the bridge and, behind it, the device of bus 1.
two_found : buses (pci_init with_bridge 2) ≡ 0 ∷ 1 ∷ []
unfolding pci_init scan_bus each_from scan_device scan_function add_device read_device pci_read16
    pci_read8 pci_read32 pci_make_addr
two_found = refl
