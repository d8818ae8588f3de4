-- ===== src/Vmm/Walk.antt =====
-- Map, unmap and lookup of vmm.c agree on an address whose tables exist.
use apsyde.Common.{
  ℕ, ◌+◌, ◌-◌, ◌*◌, ◌/◌, ◌%◌, ◌^◌, ◌<◌, bit_and, bit_or, ◌≡◌, refl, ap, ◌≢◌, true, not, arith, ◌==◌,
  if◌then◌else◌, ◌∙◌, ==_refl, ==_ne, ==_iff, ◌>>>◌,
}
use apsyde.Common.Bits.{lowest_of_or, bit_and_shifted, bit_or-zero, bit_and_mask, bit_or_shifted}
use apsyde.Vmm.{
  is_present, is_page_aligned, table_ptr, PageSource, entry_at, pt_index, vmm_map, vmm_huge,
  pml4_index, vmm_present, pdpt_index, vmm_get_phys, get_or_create_table, pd_index, Machine,
  map_entry, vmm_unmap,
}
use apsyde.Common.Ring.{put}

table_ptr-eq : (x : ℕ) → table_ptr x ≡ x / 4096 % 2 ^ 40 * 4096
unfolding table_ptr
table_ptr-eq x = omega (arith, bit_and_shifted 12 x (2 ^ 40 - 1), bit_and_mask 40 (x / 4096))

table_ptr_twice : (x : ℕ) → table_ptr (table_ptr x) ≡ table_ptr x
table_ptr_twice x = omega (arith, table_ptr-eq x, table_ptr-eq (table_ptr x))

entry_at-table_ptr : (table index : ℕ) → entry_at (table_ptr table) index ≡ entry_at table index
unfolding entry_at
entry_at-table_ptr table index = ap (λ t. t + 8 * index) (table_ptr_twice table)

-- The slots that a walk to `virt` reads, from the first table on.
abbrev pub slot4 : ℕ → ℕ → ℕ
slot4 pml4 virt = entry_at pml4 (pml4_index virt)

abbrev pub slot3 : (ℕ → ℕ) → ℕ → ℕ → ℕ
slot3 memory pml4 virt = entry_at (memory (slot4 pml4 virt)) (pdpt_index virt)

abbrev pub slot2 : (ℕ → ℕ) → ℕ → ℕ → ℕ
slot2 memory pml4 virt = entry_at (memory (slot3 memory pml4 virt)) (pd_index virt)

abbrev pub slot1 : (ℕ → ℕ) → ℕ → ℕ → ℕ
slot1 memory pml4 virt = entry_at (memory (slot2 memory pml4 virt)) (pt_index virt)

-- The tables for `virt` exist, none at address 0, and the last slot is none of the three before.
pub record Walkable (memory : ℕ → ℕ) (pml4 virt : ℕ) : Type 0 where
  pub some_space : pml4 ≢ 0
  pub aligned : is_page_aligned virt ≡ true
  pub present4 : is_present (memory (slot4 pml4 virt)) ≡ true
  pub present3 : is_present (memory (slot3 memory pml4 virt)) ≡ true
  pub present2 : is_present (memory (slot2 memory pml4 virt)) ≡ true
  pub small_page : (bit_and (memory (slot2 memory pml4 virt)) vmm_huge == 0) ≡ true
  pub table3 : table_ptr (memory (slot4 pml4 virt)) ≢ 0
  pub table2 : table_ptr (memory (slot3 memory pml4 virt)) ≢ 0
  pub table1 : table_ptr (memory (slot2 memory pml4 virt)) ≢ 0
  pub apart4 : slot1 memory pml4 virt ≢ slot4 pml4 virt
  pub apart3 : slot1 memory pml4 virt ≢ slot3 memory pml4 virt
  pub apart2 : slot1 memory pml4 virt ≢ slot2 memory pml4 virt

or_one : (x : ℕ) → bit_or x 1 ≡ x / 2 * 2 + 1
or_one x = omega (arith, lowest_of_or x 1, bit_or-zero (x / 2))

-- The entry that vmm_map writes gives the page back, and is present.
entry_page :
    (phys flags : ℕ)
    → phys % 4096 ≡ 0
    → phys < 2 ^ 52
    → flags < 4096
    → table_ptr (bit_or (bit_or (table_ptr phys) flags) vmm_present) ≡ phys
entry_page phys flags al small low =
    let page = phys / 4096 in
    let masked : table_ptr phys ≡ page * 2 ^ 12 = omega (arith, table_ptr-eq phys, small) in
    let e : bit_or (bit_or (table_ptr phys) flags) vmm_present
        ≡ (page * 2 ^ 12 + flags) / 2 * 2 + 1 =
      ap (λ t. bit_or (bit_or t flags) 1) masked
      ∙ ap (λ t. bit_or t 1) (bit_or_shifted 12 page flags low)
      ∙ or_one (page * 2 ^ 12 + flags) in
    ap table_ptr e
    ∙ table_ptr-eq ((page * 2 ^ 12 + flags) / 2 * 2 + 1)
    ∙ omega (arith, al, small, low)

entry_present : (x : ℕ) → is_present (bit_or x vmm_present) ≡ true
unfolding is_present
entry_present x =
    let e : bit_and (bit_or x 1) 1 ≡ 1 = omega (arith, bit_and_mask 1 (bit_or x 1), or_one x) in
    rw e refl

module _ {P : PageSource} where
  found :
      (slot : ℕ) (m : Machine P)
      → is_present (m.memory slot) ≡ true
      → get_or_create_table slot true m ≡ (table_ptr (m.memory slot), m)
  unfolding get_or_create_table table_ptr
  found slot m h = rw h refl

  -- With the tables there, vmm_map writes the one entry.
  vmm_map-Walkable :
      (pml4 virt phys flags : ℕ) (m : Machine P)
      → Walkable m.memory pml4 virt
      → is_page_aligned phys ≡ true
      → vmm_map pml4 virt phys flags m ≡ (
        true,
        record m {
          memory =
              put m.memory
                (slot1 m.memory pml4 virt)
                (bit_or (bit_or (table_ptr phys) flags) vmm_present);
        },
      )
  unfolding vmm_map map_entry table_ptr
  vmm_map-Walkable pml4 virt phys flags m w al =
      let e4 = m.memory (slot4 pml4 virt) in
      let e3 = m.memory (slot3 m.memory pml4 virt) in
      let e2 = m.memory (slot2 m.memory pml4 virt) in
      rw
        (
          found (slot4 pml4 virt) m w.present4,
          entry_at-table_ptr e4 (pdpt_index virt),
          found (slot3 m.memory pml4 virt) m w.present3,
          entry_at-table_ptr e3 (pd_index virt),
          found (slot2 m.memory pml4 virt) m w.present2,
          entry_at-table_ptr e2 (pt_index virt),
          ==_ne pml4 0 w.some_space,
          w.aligned,
          al,
          ==_ne (table_ptr e4) 0 w.table3,
          ==_ne (table_ptr e3) 0 w.table2,
          ==_ne (table_ptr e2) 0 w.table1,
        )
        refl

  -- A lookup after a write to the last slot sees that slot's value.
  vmm_get_phys-put :
      (pml4 virt value : ℕ) (m : Machine P)
      → Walkable m.memory pml4 virt
      → vmm_get_phys pml4 virt (record m { memory = put m.memory (slot1 m.memory pml4 virt) value })
        ≡ (if not (is_present value) then 0 else bit_or (table_ptr value) (bit_and virt 0xfff))
  unfolding vmm_get_phys table_ptr
  vmm_get_phys-put pml4 virt value m w =
      let s1 = slot1 m.memory pml4 virt in
      rw
        (
          ==_ne s1 (slot4 pml4 virt) w.apart4,
          ==_ne s1 (slot3 m.memory pml4 virt) w.apart3,
          ==_ne s1 (slot2 m.memory pml4 virt) w.apart2,
          ==_refl s1,
          ==_ne pml4 0 w.some_space,
          w.present4,
          w.present3,
          w.small_page,
          w.present2,
        )
        refl

  unmapped :
      (pml4 virt : ℕ) (m : Machine P)
      → Walkable m.memory pml4 virt
      → vmm_unmap pml4 virt m
        ≡ (true, record m { memory = put m.memory (slot1 m.memory pml4 virt) 0 })
  unfolding vmm_unmap
  unmapped pml4 virt m w =
      rw (==_ne pml4 0 w.some_space, w.aligned, w.present4, w.present3, w.present2) refl

-- Where the tables for a page-aligned address exist, none at address 0, for a small page, and the
-- last slot of the walk is none of the others: vmm_map of a page below 2^52 with flags in the low
-- 12 bits succeeds, and vmm_get_phys then finds that page.
pub vmm_get_phys-vmm_map :
    {P : PageSource} (pml4 virt phys flags : ℕ) (m : Machine P)
    → Walkable m.memory pml4 virt
    → phys % 4096 ≡ 0
    → phys < 2 ^ 52
    → flags < 4096
    → ((vmm_map pml4 virt phys flags m).0 ≡ true)
      × (vmm_get_phys pml4 virt (vmm_map pml4 virt phys flags m).1 ≡ phys)
unfolding is_page_aligned
vmm_get_phys-vmm_map {P} pml4 virt phys flags m w al small low =
    let whole : is_page_aligned phys ≡ true = ground (arith, al, bit_and_mask 12 phys) in
    let start : bit_and virt 0xfff ≡ 0 = (==_iff _ _).0 w.aligned in
    let value = bit_or (bit_or (table_ptr phys) flags) vmm_present in
    rw (vmm_map-Walkable pml4 virt phys flags m w whole) (
      refl,
      vmm_get_phys-put pml4 virt value m w
          ∙ rw
              (
                entry_present (bit_or (table_ptr phys) flags),
                entry_page phys flags al small low,
                start,
              )
              (bit_or-zero phys),
    )

-- Where the tables for a page-aligned address exist, none at address 0, for a small page, and
-- the last slot of the walk is none of the others: vmm_unmap succeeds and vmm_get_phys then
-- finds no page.
pub vmm_get_phys-vmm_unmap :
    {P : PageSource} (pml4 virt : ℕ) (m : Machine P)
    → Walkable m.memory pml4 virt
    → ((vmm_unmap pml4 virt m).0 ≡ true) × (vmm_get_phys pml4 virt (vmm_unmap pml4 virt m).1 ≡ 0)
unfolding is_present
vmm_get_phys-vmm_unmap {P} pml4 virt m w =
    rw (unmapped pml4 virt m w) (refl, vmm_get_phys-put pml4 virt 0 m w)

-- The four indices and the offset in the page make up the low 48 bits of an address.
pub indices_lem :
    (virt : ℕ)
    → pml4_index virt * 2 ^ 39
        + pdpt_index virt * 2 ^ 30
        + pd_index virt * 2 ^ 21
        + pt_index virt * 2 ^ 12
        + virt % 2 ^ 12
      ≡ virt % 2 ^ 48
indices_lem virt = omega (
  arith,
  bit_and_mask 9 (virt >>> 39),
  bit_and_mask 9 (virt >>> 30),
  bit_and_mask 9 (virt >>> 21),
  bit_and_mask 9 (virt >>> 12),
)
