-- ===== src/Vms/Mmu.antt =====
-- vms/src/mmu.c and the fault handler of vms/src/vms.c: the walk through the page tables.
use Prim.Native.Nat.{bit_and, bit_or}
use yep.Common.{
  ℕ, zero, suc, ◌-◌, ◌^◌, Bool, true, false, not, ◌&&◌, ◌||◌, ◌==◌, ltb, leb, if◌then◌else◌,
}
use yep.Vms.Pte.{
  vms_pte_valid, vms_pte_read, vms_pte_write, vms_pte_custom, vms_pte_valid_set, vms_pte_read_set,
  vms_pte_write_set, vms_pte_custom_clear, vms_pte_get_ppn, vms_pte_set_ppn,
}
use yep.Vms.Machine.{
  Machine, done, exits, stopped, M, pure, then_run, load64, store64, load32, store32, copy_page,
  ◌>>=◌, ◌>>◌,
}
use yep.Vms.Pages.{vms_new_page, vms_get_page_index, check_page_aligned, in_bounds}
use yep.Vms.PageTable.{vms_page_table_pte_entry, vms_ppn_to_page, vms_page_to_ppn}

unfoldable pub should_generate_fault : ℕ → ℕ → Bool
should_generate_fault level entry =
    if not (vms_pte_valid entry)
    then true
    else if not (level == 0) && (vms_pte_read entry || vms_pte_write entry)
    then true
    else level == 0 && not (vms_pte_read entry) && not (vms_pte_write entry)

unfoldable pub vms_get_root_page_table : Machine → ℕ
vms_get_root_page_table m = m.root

unfoldable pub vms_set_root_page_table : ℕ → M (Unit {0})
unfolding check_page_aligned
vms_set_root_page_table page_table = do
  check_page_aligned page_table
  λ m. done tt (record m { root = page_table })

-- An update of the entry at an address by one of the operations of pte.c.
abbrev pub change : (ℕ → ℕ) → ℕ → M (Unit {0})
change f a = load64 a >>= λ e. store64 a (f e)

abbrev pub set_arr : ℕ → ℕ → M (Unit {0})
set_arr i v m = done tt (record m { arr = λ j. if i == j then v else m.arr j })

-- A page with more than one pointer to it is copied for this entry. The array is then written at the
-- index of the page table.
unfoldable pub split_page : ℕ → ℕ → ℕ → M (Unit {0})
unfolding vms_new_page vms_page_to_ppn vms_get_page_index
split_page entry old_p0 page_table = do
  new_p0 ← vms_new_page
  copy_page new_p0 old_p0
  new_p0_ppn ← vms_page_to_ppn new_p0
  change (λ e. vms_pte_set_ppn e new_p0_ppn) entry
  λ m.
      (in_bounds (vms_get_page_index m page_table) >>= λ _.
      set_arr (vms_get_page_index m page_table) 1)
        m

unfoldable pub release_entry : ℕ → ℕ → M (Unit {0})
release_entry entry idx = do
  λ m. set_arr idx (m.arr idx - 1) m
  change vms_pte_valid_set entry
  change vms_pte_read_set entry
  change vms_pte_write_set entry
  change vms_pte_custom_clear entry

-- The part of the handler for the counter of the page, with the two tests of `arr[idx]`.
unfoldable pub handle_shared : ℕ → ℕ → ℕ → ℕ → M (Unit {0})
handle_shared entry old_p0 page_table idx = do
  in_bounds idx
  λ m. if ltb 1 (m.arr idx) then split_page entry old_p0 page_table m else done tt m
  λ m. if leb 1 (m.arr idx) then release_entry entry idx m else done tt m

-- The part of the handler for an entry with the custom flag.
unfoldable pub handle_custom : ℕ → ℕ → M (Unit {0})
unfolding vms_get_page_index
handle_custom entry page_table = do
  change vms_pte_write_set entry
  e ← load64 entry
  let old_p0 = vms_ppn_to_page (vms_pte_get_ppn e)
  λ m. handle_shared entry old_p0 page_table (vms_get_page_index m old_p0) m

unfoldable pub page_fault_handler : ℕ → ℕ → ℕ → M (Unit {0})
unfolding handle_custom vms_page_table_pte_entry
page_fault_handler virtual_address level page_table = do
  e ← load64 (vms_page_table_pte_entry page_table virtual_address level)
  if vms_pte_valid e && level == 0 && vms_pte_custom e
      then handle_custom (vms_page_table_pte_entry page_table virtual_address level) page_table
      else pure tt

-- The loop of `mmu`: a fault is handled once, and the level is tried again.
unfoldable pub mmu_loop : ℕ → ℕ → ℕ → ℕ → Bool → M ℕ
mmu_loop zero virtual_address page_table level faulted m = stopped
mmu_loop (suc fuel) virtual_address page_table level faulted m =
    let entry = vms_page_table_pte_entry page_table virtual_address level in
    then_run (load64 entry m) λ e. elim (should_generate_fault level e) [
      | true ↦ elim faulted [
        | true ↦ λ s. exits
        | false ↦ page_fault_handler virtual_address level page_table >>= λ _.
            mmu_loop fuel virtual_address page_table level true
      ]
      | false ↦ elim level [
        | zero ↦ pure entry
        | suc below ↦
            mmu_loop fuel virtual_address (vms_ppn_to_page (vms_pte_get_ppn e)) below false
      ]
    ]

-- Three levels, each tried twice at most.
unfoldable pub mmu : ℕ → M ℕ
mmu virtual_address m = mmu_loop 6 virtual_address m.root 2 false m

unfoldable pub translate_address : ℕ → ℕ → ℕ
translate_address virtual_address e =
    bit_or (vms_ppn_to_page (vms_pte_get_ppn e)) (bit_and virtual_address 0xFFF)

-- `entry & ~0xFFF`
unfoldable pub get_base_page : ℕ → ℕ
get_base_page entry = bit_and entry (2 ^ 64 - 1 - 0xFFF)

-- The second attempt of `vms_write` and `vms_read`, where the first finds no permission.
unfoldable pub ensure : (ℕ → Bool) → ℕ → ℕ → M (Unit {0})
unfolding page_fault_handler get_base_page
ensure allows virtual_address entry = do
  e ← load64 entry
  if allows e then pure tt else (do
    page_fault_handler virtual_address 0 (get_base_page entry)
    e' ← load64 entry
    if allows e' then pure tt else λ m. exits)

unfoldable pub vms_write : ℕ → ℕ → M (Unit {0})
unfolding mmu ensure translate_address
vms_write virtual_address value = do
  entry ← mmu virtual_address
  ensure vms_pte_write virtual_address entry
  e ← load64 entry
  store32 (translate_address virtual_address e) value

unfoldable pub vms_read : ℕ → M ℕ
unfolding mmu ensure translate_address
vms_read virtual_address = do
  entry ← mmu virtual_address
  ensure vms_pte_read virtual_address entry
  e ← load64 entry
  load32 (translate_address virtual_address e)
