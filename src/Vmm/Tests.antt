-- ===== src/Vmm/Tests.antt =====
-- Runs of the page tables' theorems: four tables in consecutive pages, with the first slot of each.
use apsyde.Common.{ℕ, ◌≡◌, refl, true, arith, ◌==◌, if◌then◌else◌}
use apsyde.Vmm.{
  vmm_map, PageSource, entry_at, Machine, table_ptr, vmm_get_phys, is_present, is_page_aligned,
}
use apsyde.Vmm.Walk.{vmm_get_phys-vmm_map, Walkable}

-- An allocator that has no page to give.
abbrev no_pages : PageSource
no_pages = record { State = ℕ; alloc = λ s. (0, s) }

abbrev tables : Machine no_pages
tables = record {
  memory = λ a.
      if a == 0x1000
      then 0x2007
      else if a == 0x2000
      then 0x3007
      else if a == 0x3000
      then 0x4007
      else 0;
  pages = 0;
}

tables-Walkable : Walkable tables.memory 0x1000 0x5000
unfolding entry_at table_ptr is_present is_page_aligned
tables-Walkable = record {
  some_space = λ e. omega (arith, e);
  aligned = refl;
  present4 = refl;
  present3 = refl;
  present2 = refl;
  small_page = refl;
  table3 = λ e. omega (arith, e);
  table2 = λ e. omega (arith, e);
  table1 = λ e. omega (arith, e);
  apart4 = λ e. omega (arith, e);
  apart3 = λ e. omega (arith, e);
  apart2 = λ e. omega (arith, e);
}

vmm_get_phys-vmm_map_example :
    ((vmm_map 0x1000 0x5000 0x9000 2 tables).0 ≡ true)
    × (vmm_get_phys 0x1000 0x5000 (vmm_map 0x1000 0x5000 0x9000 2 tables).1 ≡ 0x9000)
vmm_get_phys-vmm_map_example =
    vmm_get_phys-vmm_map 0x1000 0x5000 0x9000 2 tables tables-Walkable refl (omega arith)
      (omega arith)
