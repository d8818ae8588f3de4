-- ===== src/Pci.antt =====
-- kernel/bus/pci.c: configuration reads, the size of a BAR, the scan of the buses and the search in
-- the table. The configuration space answers a read at each address written to port 0xCF8; what a
-- write does to it is the device's, an argument. Nothing is said of what pci_init and pci_dump print.
pub mod Address
pub mod Bar
pub mod Scan
pub mod Find
mod Tests
use apsyde.Common.{
  ℕ, zero, suc, ◌+◌, ◌-◌, ◌*◌, ◌^◌, bit_and, bit_or, Bool, true, false, not, ◌&&◌, ◌||◌, Option,
  none, some, List, [], ◌∷◌, ◌++◌, leb, ◌==◌, if◌then◌else◌, length, u8, u16, u32, ◌<<<◌, ◌>>>◌,
}

-- The dword that port 0xCFC gives for an address.
abbrev pub Space : Type 0
Space = ℕ → ℕ

abbrev pub pci_max_devices : ℕ
pci_max_devices = 64

unfoldable pub pci_make_addr : ℕ → ℕ → ℕ → ℕ → ℕ
pci_make_addr bus dev func off =
    bit_or (bit_or (bit_or (bit_or (1 <<< 31) (bus <<< 16)) (dev <<< 11)) (func <<< 8))
      (bit_and off 0xfc)

unfoldable pub pci_read32 : Space → ℕ → ℕ → ℕ → ℕ → ℕ
pci_read32 s bus dev func off = s (pci_make_addr bus dev func off)

unfoldable pub pci_read16 : Space → ℕ → ℕ → ℕ → ℕ → ℕ
pci_read16 s bus dev func off =
    u16 (pci_read32 s bus dev func (bit_and off 0xfc) >>> (bit_and off 2 * 8))

unfoldable pub pci_read8 : Space → ℕ → ℕ → ℕ → ℕ → ℕ
pci_read8 s bus dev func off =
    u8 (pci_read32 s bus dev func (bit_and off 0xfc) >>> (bit_and off 3 * 8))

-- `~x` of a 32-bit word.
abbrev pub not32 : ℕ → ℕ
not32 x = 2 ^ 32 - 1 - x

-- What pci_bar_size makes of the value read back.
unfoldable pub size_of_mask : ℕ → ℕ
size_of_mask mask =
    let kept = if bit_and mask 1 == 0 then bit_and mask 0xfffffff0 else bit_and mask 0xfffffffc in
    if mask == 0 || (mask == 0xffffffff) then 0 else u32 (not32 kept + 1)

-- `write` is the effect of a configuration write at an address.
unfoldable pub pci_bar_size : (ℕ → ℕ → Space → Space) → ℕ → ℕ → ℕ → ℕ → Space → ℕ × Space
pci_bar_size write bus dev func bar s =
    let off = u8 (0x10 + bar * 4) in
    let addr = pci_make_addr bus dev func off in
    let orig = pci_read32 s bus dev func off in
    let probed = write addr 0xffffffff s in
    let size_mask = pci_read32 probed bus dev func off in
    (size_of_mask size_mask, write addr orig probed)

pub record Device : Type 0 where
  pub bus : ℕ
  pub device : ℕ
  pub function : ℕ
  pub vendor_id : ℕ
  pub device_id : ℕ
  pub revision : ℕ
  pub prog_if : ℕ
  pub subclass : ℕ
  pub class_code : ℕ
  pub header_type : ℕ
  pub subsys_vendor : ℕ
  pub subsys_id : ℕ

unfoldable pub read_device : Space → ℕ → ℕ → ℕ → Device
read_device s bus dev func = record {
  bus = bus;
  device = dev;
  function = func;
  vendor_id = pci_read16 s bus dev func 0x00;
  device_id = pci_read16 s bus dev func 0x02;
  revision = pci_read8 s bus dev func 0x08;
  prog_if = pci_read8 s bus dev func 0x09;
  subclass = pci_read8 s bus dev func 0x0a;
  class_code = pci_read8 s bus dev func 0x0b;
  header_type = bit_and (pci_read8 s bus dev func 0x0e) 0x7f;
  subsys_vendor = pci_read16 s bus dev func 0x2c;
  subsys_id = pci_read16 s bus dev func 0x2e;
}

-- The table: the first g_device_count entries of g_devices.
abbrev pub Table : Type 0
Table = List Device

unfoldable pub add_device : Space → ℕ → ℕ → ℕ → Table → Table
add_device s bus dev func t =
    if leb pci_max_devices (length t) then t else t ++ (read_device s bus dev func ∷ [])

-- A loop over consecutive numbers that stops when a round does not return.
unfoldable pub each_from : (ℕ → Table → Option Table) → ℕ → ℕ → Table → Option Table
each_from body zero i t = some t
each_from body (suc left) i t = elim (body i t) [
  | none ↦ none
  | some t' ↦ each_from body left (i + 1) t'
]

-- `fuel` bounds the depth of the recursion through bridges; `none` is a deeper one.
unfoldable pub scan_function : Space → ℕ → ℕ → ℕ → ℕ → Table → Option Table
scan_function s zero bus dev func t = none
scan_function s (suc fuel) bus dev func t = elim (pci_read16 s bus dev func 0x00 == 0xffff) [
  | true ↦ some t
  | false ↦
      let t' = add_device s bus dev func t in
      let secondary_bus = pci_read8 s bus dev func 0x19 in
      elim ((bit_and (pci_read8 s bus dev func 0x0e) 0x7f == 1) && not (secondary_bus == 0)) [
        | true ↦
            each_from (λ d. each_from (λ f. scan_function s fuel secondary_bus d f) 8 0) 32 0 t'
        | false ↦ some t'
      ]
]

-- A further function of a device with several.
unfoldable pub scan_further : Space → ℕ → ℕ → ℕ → ℕ → Table → Option Table
scan_further s fuel bus dev f t =
    if not (pci_read16 s bus dev f 0x00 == 0xffff) then scan_function s fuel bus dev f t else some t

-- A round of the loop of scan_bus.
unfoldable pub scan_device : Space → ℕ → ℕ → ℕ → Table → Option Table
scan_device s fuel bus dev t = elim (pci_read16 s bus dev 0 0x00 == 0xffff) [
  | true ↦ some t
  | false ↦ elim (scan_function s fuel bus dev 0 t) [
    | none ↦ none
    | some t' ↦
        if not (bit_and (pci_read8 s bus dev 0 0x0e) 0x80 == 0)
        then each_from (scan_further s fuel bus dev) 7 1 t'
        else some t'
  ]
]

unfoldable pub scan_bus : Space → ℕ → ℕ → Table → Option Table
scan_bus s fuel bus t = each_from (scan_device s fuel bus) 32 0 t

unfoldable pub pci_init : Space → ℕ → Option Table
pci_init s fuel = elim (scan_bus s fuel 0 []) [
  | none ↦ none
  | some t ↦ if length t == 0 then each_from (scan_bus s fuel) 15 1 t else some t
]

unfoldable pub pci_device_count : Table → ℕ
pci_device_count t = length t

unfoldable pub matches : ℕ → ℕ → ℕ → Device → Bool
matches class_code subclass prog_if d =
    (d.class_code == class_code)
    && ((subclass == 0xff) || (d.subclass == subclass))
    && ((prog_if == 0xff) || (d.prog_if == prog_if))

-- What goes to `out`; `room` is max - found.
unfoldable pub find_from : (Device → Bool) → ℕ → Table → Table
find_from test zero t = []
find_from test (suc room) [] = []
find_from test (suc room) (d ∷ t) =
    if test d then d ∷ find_from test room t else find_from test (suc room) t

unfoldable pub pci_find : ℕ → ℕ → ℕ → ℕ → Table → Table
pci_find class_code subclass prog_if max t = find_from (matches class_code subclass prog_if) max t

unfoldable pub pci_find_ehci : Table → Table
pci_find_ehci t = pci_find 0x0c 0x03 0x20 1 t

unfoldable pub pci_find_xhci : Table → Table
pci_find_xhci t = pci_find 0x0c 0x03 0x30 1 t

unfoldable pub pci_find_uhci : Table → Table
pci_find_uhci t = pci_find 0x0c 0x03 0x00 1 t

unfoldable pub pci_find_ohci : Table → Table
pci_find_ohci t = pci_find 0x0c 0x03 0x10 1 t
