-- ===== src/Vms/Tests.antt =====
-- An entry and a small machine of vms/src, on which the theorems of the library are applied.
use yep.Vms.Machine.{in_page}
use yep.Vms.Pages.{vms_get_page_pointer, vms_new_page, vms_free_page}
use yep.Vms.Allocator.{vms_new_page-vms_free_page}
use yep.Common.{
  ◌≢◌, zero, suc, ◌≤◌, ◌<◌, ◌⊎◌, inl, refl, ltb, ◌==◌, if◌then◌else◌, ℕ, ◌+◌, ◌*◌, ◌%◌, ◌^◌, ◌≡◌,
  true, false, arith,
}
use yep.Vms.Pte.{vms_pte_valid, vms_pte_read, vms_pte_write, vms_pte_get_ppn}
use yep.Vms.Machine.{Machine, stopped, done, load_bytes}
use yep.Vms.PageTable.{
  vms_page_table_index, vms_page_table_pte_entry, vms_page_table_pte_entry_from_index,
  vms_ppn_to_page,
}
use yep.Vms.Mmu.{should_generate_fault, translate_address, mmu, vms_write, vms_read}
use yep.Vms.Walk.{entry_at, next_table, walk, mmu-walk}
use yep.Vms.Access.{table_at, IsMapped, physical, IsApart, vms_write-vms_read}
use yep.Vms.Ends.{mmu_ends}

-- Page 5, valid and readable.
abbrev entry : ℕ
entry = 5 * 2 ^ 10 + 3

-- Page 1 of a region at address 4096 holds the root table, page 2 and 3 the tables below, and page 4
-- the data of address 0. Entry 0 of each table points to the next page.
abbrev pub bytes : ℕ → ℕ
bytes a =
    if a == 8192
    then 1
    else if a == 8193
    then 12
    else if a == 12288
    then 1
    else if a == 12289
    then 16
    else if a == 16384
    then 7
    else if a == 16385
    then 20
    else 0

abbrev pub machine : Machine
machine = record {
  base = 4096;
  allocated = λ i. ltb i 5;
  used_pages = 5;
  root = 8192;
  arr = λ i. 0;
  bytes = bytes;
}

five_full : (k : ℕ) → k < 5 → ltb k 5 ≡ true
five_full k h = ground arith

mmu-walk_example : mmu 0 machine ≡ walk 0 machine
mmu-walk_example = mmu-walk 0 machine

pub machine-IsMapped : IsMapped machine 0
unfolding entry_at next_table should_generate_fault vms_pte_valid vms_pte_read vms_pte_write
    vms_pte_get_ppn vms_ppn_to_page vms_page_table_pte_entry vms_page_table_index
    vms_page_table_pte_entry_from_index load_bytes
machine-IsMapped = record { walks = λ level h. below level h; writes = refl; reads = refl }
  where
    below :
        (level : ℕ)
        → level ≤ 2
        → should_generate_fault level (entry_at machine 0 level (table_at machine 0 level)) ≡ false
    below zero h = refl
    below (suc zero) h = refl
    below (suc (suc zero)) h = refl
    below (suc (suc (suc level))) h = absurd (omega arith)

machine-IsApart : IsApart machine 0
unfolding entry_at next_table vms_pte_get_ppn vms_ppn_to_page vms_page_table_pte_entry
    vms_page_table_index vms_page_table_pte_entry_from_index load_bytes translate_address
machine-IsApart zero h = inl (omega arith)
machine-IsApart (suc zero) h = inl (omega arith)
machine-IsApart (suc (suc zero)) h = inl (omega arith)
machine-IsApart (suc (suc (suc level))) h = absurd (omega arith)

vms_write-vms_read_example :
    (m' : Machine) × (vms_write 0 77 machine ≡ done tt m')
    × (vms_read 0 m' ≡ done (77 % 2 ^ 32) m')
    × IsMapped m' 0
    × ((a : ℕ)
        → (a < physical machine 0) ⊎ (physical machine 0 + 4 ≤ a)
        → m'.bytes a ≡ machine.bytes a)
vms_write-vms_read_example = vms_write-vms_read machine 0 77 machine-IsApart machine-IsMapped

mmu_ends_example :
    (mmu 0 machine ≢ stopped) × (vms_read 0 machine ≢ stopped) × (vms_write 0 77 machine ≢ stopped)
mmu_ends_example = mmu_ends 0 77 machine

vms_new_page-vms_free_page_example :
    (m' : Machine) × (s : Machine) × (vms_new_page machine
      ≡ done (vms_get_page_pointer machine 5) m')
    × (vms_free_page (vms_get_page_pointer machine 5) m' ≡ done tt s)
    × ((k : ℕ) → s.allocated k ≡ ltb k 5)
    × (s.used_pages ≡ 5)
    × (s.base ≡ 4096)
    × ((a : ℕ) → s.bytes a ≡ (if in_page (vms_get_page_pointer machine 5) a then 0 else bytes a))
vms_new_page-vms_free_page_example =
    vms_new_page-vms_free_page machine 5 (omega arith) refl five_full refl (omega arith)
