-- ===== src/Vmm.antt =====
-- kernel/mm/vmm.c: the page tables. Memory is a function from the address of a 64-bit word; the page
-- allocator is an interface, of which the page tables use the allocation of one page. phys_to_virt is
-- the identity that vmm.h defines.
pub mod Walk
mod Tests
use apsyde.Common.{
  ℕ, zero, suc, ◌+◌, ◌*◌, bit_and, bit_or, Bool, true, false, not, ◌||◌, ◌==◌, if◌then◌else◌, rest,
  u64, ◌>>>◌, ◌/◌, sub64,
}
use apsyde.Common.Ring.{put}

abbrev pub kernel_virt_base : ℕ
kernel_virt_base = 0xffff_ffff_8000_0000

abbrev pub vmm_present : ℕ
vmm_present = 1

abbrev pub vmm_write : ℕ
vmm_write = 2

abbrev pub vmm_user : ℕ
vmm_user = 4

abbrev pub vmm_huge : ℕ
vmm_huge = 128

abbrev pub pte_addr_mask : ℕ
pte_addr_mask = 0x000f_ffff_ffff_f000

abbrev pub pml4_index : ℕ → ℕ
pml4_index v = bit_and (v >>> 39) 0x1ff

abbrev pub pdpt_index : ℕ → ℕ
pdpt_index v = bit_and (v >>> 30) 0x1ff

abbrev pub pd_index : ℕ → ℕ
pd_index v = bit_and (v >>> 21) 0x1ff

abbrev pub pt_index : ℕ → ℕ
pt_index v = bit_and (v >>> 12) 0x1ff

-- The allocator's state and pmm_alloc_page, where 0 is NULL.
pub record PageSource : Type 1 where
  pub State : Type 0
  pub alloc : State → ℕ × State

-- The words of physical memory, and the allocator.
pub record Machine (P : PageSource) : Type 0 where
  pub memory : ℕ → ℕ
  pub pages : P.State

unfoldable pub table_ptr : ℕ → ℕ
table_ptr phys = bit_and phys pte_addr_mask

-- The address of an entry of a table.
unfoldable pub entry_at : ℕ → ℕ → ℕ
entry_at table index = table_ptr table + 8 * index

unfoldable pub is_page_aligned : ℕ → Bool
is_page_aligned addr = bit_and addr 0xfff == 0

unfoldable pub is_present : ℕ → Bool
is_present entry = not (bit_and entry vmm_present == 0)

-- memset of a page to 0.
unfoldable pub zero_words : ℕ → ℕ → (ℕ → ℕ) → ℕ → ℕ
zero_words zero addr memory = memory
zero_words (suc left) addr memory = zero_words left (addr + 8) (put memory addr 0)

module _ {P : PageSource} where
  unfoldable pub alloc_table : Machine P → ℕ × Machine P
  alloc_table m =
      let r = P.alloc m.pages in
      if r.0 == 0
      then (0, record m { pages = r.1 })
      else (r.0, record { memory = zero_words 512 r.0 m.memory; pages = r.1 })

  -- `slot` is the address of the entry.
  unfoldable pub get_or_create_table : ℕ → Bool → Machine P → ℕ × Machine P
  get_or_create_table slot create m =
      let r = alloc_table m in
      let entry = bit_or (bit_or (bit_or r.0 vmm_present) vmm_write) vmm_user in
      if is_present (m.memory slot)
      then (bit_and (m.memory slot) pte_addr_mask, m)
      else if not create
      then (0, m)
      else if r.0 == 0
      then (0, r.1)
      else (r.0, record (r.1) { memory = put r.1.memory slot entry })

  -- The last step of vmm_map, in the page table `pt`.
  unfoldable pub map_entry : ℕ → ℕ → ℕ → ℕ → Machine P → Bool × Machine P
  map_entry virt phys flags pt m = (
    true,
    record m {
      memory =
          put m.memory (entry_at pt (pt_index virt))
            (bit_or (bit_or (bit_and phys pte_addr_mask) flags) vmm_present);
    },
  )

  -- `true` is 0 and `false` is -1. `pml4` is as->pml4, where 0 stands for a null `as` too.
  unfoldable pub vmm_map : ℕ → ℕ → ℕ → ℕ → Machine P → Bool × Machine P
  vmm_map pml4 virt phys flags m =
      let r3 = get_or_create_table (entry_at pml4 (pml4_index virt)) true m in
      let r2 = get_or_create_table (entry_at r3.0 (pdpt_index virt)) true r3.1 in
      let r1 = get_or_create_table (entry_at r2.0 (pd_index virt)) true r2.1 in
      if pml4 == 0
      then (false, m)
      else if not (is_page_aligned virt) || not (is_page_aligned phys)
      then (false, m)
      else if r3.0 == 0
      then (false, r3.1)
      else if r2.0 == 0
      then (false, r2.1)
      else if r1.0 == 0
      then (false, r1.1)
      else map_entry virt phys flags r1.0 r1.1

  -- The loop of vmm_map_range at page `i`.
  unfoldable pub map_range_from : ℕ → ℕ → ℕ → ℕ → ℕ → ℕ → Machine P → Bool × Machine P
  map_range_from pml4 virt phys flags zero i m = (true, m)
  map_range_from pml4 virt phys flags (suc left) i m =
      let r = vmm_map pml4 (u64 (virt + i * 4096)) (u64 (phys + i * 4096)) flags m in
      let rest = map_range_from pml4 virt phys flags left (i + 1) r.1 in
      if not r.0 then (false, r.1) else rest

  unfoldable pub vmm_map_range : ℕ → ℕ → ℕ → ℕ → ℕ → Machine P → Bool × Machine P
  vmm_map_range pml4 virt phys pages flags m = map_range_from pml4 virt phys flags pages 0 m

  unfoldable pub vmm_unmap : ℕ → ℕ → Machine P → Bool × Machine P
  vmm_unmap pml4 virt m =
      let e4 = m.memory (entry_at pml4 (pml4_index virt)) in
      let e3 = m.memory (entry_at e4 (pdpt_index virt)) in
      let e2 = m.memory (entry_at e3 (pd_index virt)) in
      if pml4 == 0
      then (false, m)
      else if not (is_page_aligned virt)
      then (false, m)
      else if not (is_present e4)
      then (false, m)
      else if not (is_present e3)
      then (false, m)
      else if not (is_present e2)
      then (false, m)
      else (true, record m { memory = put m.memory (entry_at e2 (pt_index virt)) 0 })

  unfoldable pub vmm_get_phys : ℕ → ℕ → Machine P → ℕ
  vmm_get_phys pml4 virt m =
      let e4 = m.memory (entry_at pml4 (pml4_index virt)) in
      let e3 = m.memory (entry_at e4 (pdpt_index virt)) in
      let e2 = m.memory (entry_at e3 (pd_index virt)) in
      let e1 = m.memory (entry_at e2 (pt_index virt)) in
      if pml4 == 0
      then 0
      else if not (is_present e4)
      then 0
      else if not (is_present e3)
      then 0
      else if not (bit_and e2 vmm_huge == 0)
      then u64 (bit_and e2 0x000f_ffff_ffe0_0000 + bit_and virt 0x1f_ffff)
      else if not (is_present e2)
      then 0
      else if not (is_present e1)
      then 0
      else bit_or (bit_and e1 pte_addr_mask) (bit_and virt 0xfff)

  -- The loop of map_higher_half at page `i`, which goes on whatever vmm_map returns.
  unfoldable pub higher_half_from : ℕ → ℕ → ℕ → ℕ → ℕ → Machine P → Machine P
  higher_half_from pml4 start flags zero i m = m
  higher_half_from pml4 start flags (suc left) i m =
      let phys = u64 (start + i * 4096) in
      higher_half_from pml4 start flags left (i + 1)
        (vmm_map pml4 (u64 (kernel_virt_base + phys)) phys flags m).1

  unfoldable pub map_higher_half : ℕ → ℕ → ℕ → ℕ → Machine P → Machine P
  map_higher_half pml4 phys_start phys_end flags m =
      let start = bit_and phys_start 0xffff_ffff_ffff_f000 in
      let end = bit_and (u64 (phys_end + 0xfff)) 0xffff_ffff_ffff_f000 in
      higher_half_from pml4 start flags (sub64 end start / 4096) 0 m
