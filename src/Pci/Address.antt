-- ===== src/Pci/Address.antt =====
-- The address word of pci.c.
use apsyde.Common.{
  ℕ, ◌+◌, ◌*◌, ◌/◌, ◌^◌, ◌<◌, ◌≡◌, bit_and, refl, true, arith, ◌==◌, bit_or, ap, ap₂, ◌∙◌, ◌<<<◌,
}
use apsyde.Pci.{pci_make_addr}
use apsyde.Common.Bits.{every_below, bit_or_shifted, every_below-at}

-- The mask 0xFC clears the two low bits of a byte.
offsets_kept : every_below (λ off. bit_and off 0xfc == off / 4 * 4) 256 ≡ true
unfolding every_below
offsets_kept = refl

offset_kept : (off : ℕ) → off < 256 → bit_and off 0xfc ≡ off / 4 * 4
offset_kept off h =
    ground (arith, every_below-at (λ o. bit_and o 0xfc == o / 4 * 4) 256 off h offsets_kept)

-- The fields of the address word do not overlap: it is their sum, each at its place, whatever the
-- low two bits of the register's offset.
pub pci_make_addr_lem :
    (bus dev func off : ℕ)
    → bus < 256
    → dev < 32
    → func < 8
    → off < 256
    → pci_make_addr bus dev func off
      ≡ 2 ^ 31 + bus * 2 ^ 16 + dev * 2 ^ 11 + func * 2 ^ 8 + off / 4 * 4
unfolding pci_make_addr
pci_make_addr_lem bus dev func off hb hd hf ho =
    let last : bit_and off 0xfc ≡ off / 4 * 4 = offset_kept off ho in
    let e1 = bit_or_shifted 24 (2 ^ 7) (bus * 2 ^ 16) (omega (arith, hb)) in
    let e2 = bit_or_shifted 16 (2 ^ 15 + bus) (dev * 2 ^ 11) (omega (arith, hd)) in
    let e3 = bit_or_shifted 11 (2 ^ 20 + bus * 2 ^ 5 + dev) (func * 2 ^ 8) (omega (arith, hf)) in
    let e4 =
      bit_or_shifted 8 (2 ^ 23 + bus * 2 ^ 8 + dev * 2 ^ 3 + func) (off / 4 * 4)
        (omega (arith, ho)) in
    let s1 : bit_or (1 <<< 31) (bus <<< 16) ≡ (2 ^ 15 + bus) * 2 ^ 16 = e1 ∙ omega arith in
    let s2 : bit_or (bit_or (1 <<< 31) (bus <<< 16)) (dev <<< 11)
        ≡ (2 ^ 20 + bus * 2 ^ 5 + dev) * 2 ^ 11 =
      ap (λ t. bit_or t (dev * 2 ^ 11)) s1 ∙ e2 ∙ omega arith in
    let s3 : bit_or (bit_or (bit_or (1 <<< 31) (bus <<< 16)) (dev <<< 11)) (func <<< 8)
        ≡ (2 ^ 23 + bus * 2 ^ 8 + dev * 2 ^ 3 + func) * 2 ^ 8 =
      ap (λ t. bit_or t (func * 2 ^ 8)) s2 ∙ e3 ∙ omega arith in
    ap₂ bit_or s3 last ∙ e4 ∙ omega arith

-- Within the ranges of bus, device, function and offset, different functions or registers of a
-- word each have different configuration addresses.
pub pci_make_addr-injective :
    (b d f o b' d' f' o' : ℕ)
    → b < 256
    → d < 32
    → f < 8
    → o < 256
    → b' < 256
    → d' < 32
    → f' < 8
    → o' < 256
    → pci_make_addr b d f o ≡ pci_make_addr b' d' f' o'
    → (b ≡ b') × (d ≡ d') × (f ≡ f') × (o / 4 ≡ o' / 4)
pci_make_addr-injective b d f o b' d' f' o' h1 h2 h3 h4 h5 h6 h7 h8 e = omega (
  arith,
  pci_make_addr_lem b d f o h1 h2 h3 h4,
  pci_make_addr_lem b' d' f' o' h5 h6 h7 h8,
  e,
  h1,
  h2,
  h3,
  h4,
  h5,
  h6,
  h7,
  h8,
)
