-- ===== src/Pci/Bar.antt =====
-- The size of a BAR by pci.c.
use apsyde.Common.{
  ℕ, ◌+◌, ◌-◌, ◌%◌, ◌^◌, ◌≤◌, ◌<◌, ◌≡◌, ◌*◌, refl, Bool, true, not, ◌||◌, arith, ltb, ◌==◌, u8,
}
use apsyde.Pci.{size_of_mask, pci_bar_size, Space, pci_read32, pci_make_addr}
use apsyde.Common.Bits.{every_below, every_below-at}

-- The size of every memory BAR, by evaluation.
memory_bars : Bool
memory_bars =
    every_below
      (λ k.
        every_below
          (λ flags.
            ltb k 4 || not (flags % 2 == 0) || (size_of_mask (2 ^ 32 - 2 ^ k + flags) == 2 ^ k))
          16)
      32

memory_bars-hold : memory_bars ≡ true
unfolding memory_bars every_below size_of_mask
memory_bars-hold = refl

-- A memory BAR of `2 ^ k` bytes, whose writable bits are those from `k` up, reads back as
-- `2 ^ 32 - 2 ^ k` with its four flag bits, of which the lowest is 0. The size is then right.
size_of_mask-memory :
    (k flags : ℕ)
    → 4 ≤ k
    → k < 32
    → flags < 16
    → flags % 2 ≡ 0
    → size_of_mask (2 ^ 32 - 2 ^ k + flags) ≡ 2 ^ k
unfolding memory_bars
size_of_mask-memory k flags low high small even =
    let row = every_below-at _ 32 k high memory_bars-hold in
    let here = every_below-at _ 16 flags small row in ground (arith, here, low, even)

-- Where a BAR reads back, after all ones were written, as 2^32 - 2^k with even flags below 16,
-- for k from 4 to 31, pci_bar_size finds the size 2^k, and writes back what the BAR held.
pub pci_bar_size_lem :
    (write : ℕ → ℕ → Space → Space) (bus dev func bar k flags : ℕ) (s : Space)
    → 4 ≤ k
    → k < 32
    → flags < 16
    → flags % 2 ≡ 0
    → pci_read32
        (write (pci_make_addr bus dev func (u8 (0x10 + bar * 4))) 0xffffffff s)
        bus
        dev
        func
        (u8 (0x10 + bar * 4))
      ≡ 2 ^ 32 - 2 ^ k + flags
    → pci_bar_size write bus dev func bar s ≡ (
      2 ^ k,
      write
          (pci_make_addr bus dev func (u8 (0x10 + bar * 4)))
          (pci_read32 s bus dev func (u8 (0x10 + bar * 4)))
          (write (pci_make_addr bus dev func (u8 (0x10 + bar * 4))) 0xffffffff s),
    )
unfolding pci_bar_size
pci_bar_size_lem write bus dev func bar k flags s low high small even probe =
    rw (probe, size_of_mask-memory k flags low high small even) refl
