-- ===== src/Vm/Tests.antt =====
-- Examples for kernel/vm.c: a page table that maps one page for reading, and tables that are empty.
use open_agent_os.Prelude.{
  ℕ, ◌+◌, ◌<◌, ◌≡◌, ◌↔◌, refl, true, false, some, none, ◌==◌, if◌then◌else◌, arith,
}
use open_agent_os.Vm.Tables.{
  Tables, no_pte, set_entry, take_table, pt_alloc, walk_from, walk, map_page, pages_of,
  create_agent_pt,
}
use open_agent_os.Vm.Walk.{IsTree}
use open_agent_os.Vm.Map.{map_page-pages_of}
use open_agent_os.Vm.Shared.{create_agent_pt-pages_of}
use open_agent_os.Vm.{Pte, PageTable, page_of, pte_allows, user_check}
use open_agent_os.Vm.Check.{user_check_lem}

abbrev one_page : PageTable
one_page va =
    if va == 0x40000000
    then some (record {
      valid = true;
      readable = true;
      writable = false;
      executable = false;
      user = true;
      frame = 0x80200000;
    })
    else none

user_check_lem_example :
    (user_check one_page 0x40000010 5000 false ≡ true)
    ↔ ((i : ℕ) → i < 5000 → pte_allows (one_page (page_of (0x40000010 + i))) false ≡ true)
user_check_lem_example = user_check_lem one_page false 0x40000010 5000 (omega arith)

-- An empty root table at 4096, and a pool at 8192.
abbrev empty_tables : Tables
empty_tables = record { entry = λ t i. no_pte; next = 0 }

abbrev for_reading : Pte
for_reading = record no_pte { readable = true; user = true }

false_not_true : ¬ (false ≡ true)
false_not_true e = ground arith

empty_tables-IsTree : IsTree 8192 empty_tables (λ t. 2)
empty_tables-IsTree = record {
  down = λ t i valid. absurd (false_not_true valid);
  old = λ t i valid. absurd (false_not_true valid);
}

map_page-pages_of_example :
    pages_of 8192
      (map_page 8192 empty_tables 4096 0x40000000 0x80200000 for_reading).1
      4096
      0x40000000
    ≡ some (record for_reading { valid = true; frame = 0x80200000 })
unfolding map_page walk walk_from pt_alloc take_table set_entry
map_page-pages_of_example =
    map_page-pages_of 8192 empty_tables (λ t. 2) 4096 0x40000000 0x80200000 for_reading
      empty_tables-IsTree refl (λ k le same. omega arith) refl

create_agent_pt-pages_of_example :
    (pages_of 8192 (create_agent_pt 8192 empty_tables (some 4096)).1 8192 0x40000000
      ≡ pages_of 8192 empty_tables 4096 0x40000000)
    × (pages_of 8192 (create_agent_pt 8192 empty_tables (some 4096)).1 4096 0x40000000
        ≡ pages_of 8192 empty_tables 4096 0x40000000)
unfolding create_agent_pt pt_alloc
create_agent_pt-pages_of_example =
    create_agent_pt-pages_of 8192 empty_tables (λ t. 2) 4096 8192 0x40000000 empty_tables-IsTree
      refl (λ k le same. omega arith) refl
