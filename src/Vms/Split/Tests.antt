-- ===== src/Vms/Split/Tests.antt =====
-- An entry that shares its page, on which the theorem of the fault handler is applied.
use yep.Common.{ℕ, ◌≡◌, refl, arith, ◌==◌, ltb, if◌then◌else◌}
use yep.Vms.Pte.{vms_pte_valid, vms_pte_custom, vms_pte_get_ppn}
use yep.Vms.Machine.{Machine, done, load_bytes}
use yep.Vms.PageTable.{
  vms_page_table_index, vms_page_table_pte_entry, vms_page_table_pte_entry_from_index,
  vms_ppn_to_page,
}
use yep.Vms.Allocator.{count_allocated}
use yep.Vms.Mmu.{page_fault_handler}
use yep.Vms.Split.Handler.{IsShared, Owns, page_fault_handler-Owns}

-- Page 3 of a region at address 4096 is a page table, whose entry 0 is valid, readable and custom and
-- points to page 4; two entries are counted for that page.
abbrev shared : Machine
shared = record {
  base = 4096;
  allocated = λ i. ltb i 5;
  used_pages = 5;
  root = 8192;
  arr = λ i. if i == 4 then 2 else 0;
  bytes = λ j. if j == 16384 then 3 else if j == 16385 then 21 else 0;
}

shared-IsShared : IsShared shared 0 16384 4 3
unfolding vms_page_table_index vms_page_table_pte_entry vms_page_table_pte_entry_from_index
    load_bytes vms_pte_valid vms_pte_custom vms_pte_get_ppn vms_ppn_to_page count_allocated
shared-IsShared = record {
  ok = record { aligned = refl; fits = omega arith; bytes = λ j. ground arith };
  valid = refl;
  custom = refl;
  page = refl;
  old_page = omega arith;
  old_taken = refl;
  table = refl;
  table_page = omega arith;
  table_taken = refl;
  different = λ e. omega (arith, e);
  counted = omega arith;
  room = omega arith;
}

page_fault_handler-Owns_example :
    (child : ℕ) × (m' : Machine) × (page_fault_handler 0 0 16384 shared ≡ done tt m')
    × Owns shared m' (vms_page_table_pte_entry 16384 0 0) 4 3 child
page_fault_handler-Owns_example = page_fault_handler-Owns shared 0 16384 4 3 shared-IsShared
