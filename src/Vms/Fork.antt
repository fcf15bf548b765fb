-- ===== src/Vms/Fork.antt =====
-- vms/src/vms.c: the copy of an address space, at once or on write.
use yep.Common.{ℕ, zero, suc, ◌+◌, Bool, ◌||◌, if◌then◌else◌}
use yep.Vms.Pte.{
  vms_pte_valid, vms_pte_read, vms_pte_write, vms_pte_custom, vms_pte_valid_set, vms_pte_read_set,
  vms_pte_write_set, vms_pte_write_clear, vms_pte_custom_set, vms_pte_get_ppn, vms_pte_set_ppn,
}
use yep.Vms.Machine.{done, M, pure, load64, copy_page, ◌>>=◌, ◌>>◌}
use yep.Vms.Pages.{vms_new_page, vms_get_page_index, in_bounds}
use yep.Vms.PageTable.{vms_page_table_pte_entry_from_index, vms_ppn_to_page, vms_page_to_ppn}
use yep.Vms.Mmu.{change, set_arr, vms_get_root_page_table}

abbrev pub num_pte_entries : ℕ
num_pte_entries = 512

-- One flag from one entry to another.
abbrev pub copy_flag : (ℕ → Bool) → (ℕ → ℕ) → ℕ → ℕ → M (Unit {0})
copy_flag test sets p_entry c_entry = do
  e ← load64 p_entry
  if test e then change sets c_entry else pure tt

unfoldable pub set_all_bits : ℕ → ℕ → M (Unit {0})
set_all_bits p_entry c_entry = do
  copy_flag vms_pte_valid vms_pte_valid_set p_entry c_entry
  copy_flag vms_pte_read vms_pte_read_set p_entry c_entry
  copy_flag vms_pte_write vms_pte_write_set p_entry c_entry
  copy_flag vms_pte_custom vms_pte_custom_set p_entry c_entry

-- The same text as `set_all_bits`, in spite of its name.
unfoldable pub set_bits_except_write : ℕ → ℕ → M (Unit {0})
set_bits_except_write p_entry c_entry = do
  copy_flag vms_pte_valid vms_pte_valid_set p_entry c_entry
  copy_flag vms_pte_read vms_pte_read_set p_entry c_entry
  copy_flag vms_pte_write vms_pte_write_set p_entry c_entry
  copy_flag vms_pte_custom vms_pte_custom_set p_entry c_entry

-- A loop over `n` entries of a parent's and a child's page table from `i` on; the body gets the
-- addresses of the two entries and runs where the parent's is valid.
unfoldable pub each_valid : (ℕ → ℕ → M (Unit {0})) → ℕ → ℕ → ℕ → ℕ → M (Unit {0})
each_valid body i zero parent child = pure tt
each_valid body i (suc n) parent child = do
  let p = vms_page_table_pte_entry_from_index parent i
  let c = vms_page_table_pte_entry_from_index child i
  e ← load64 p
  if vms_pte_valid e then body p c else pure tt
  each_valid body (i + 1) n parent child

-- One valid entry of the nested loops of `vms_fork_copy`: a new page, filled from the parent's, and
-- then the loop inside, if there is one.
unfoldable pub copy_entry : (ℕ → ℕ → M (Unit {0})) → ℕ → ℕ → M (Unit {0})
copy_entry inside p_entry c_entry = do
  child ← vms_new_page
  e ← load64 p_entry
  let parent = vms_ppn_to_page (vms_pte_get_ppn e)
  copy_page child parent
  inside parent child
  child_ppn ← vms_page_to_ppn child
  change (λ c. vms_pte_set_ppn c child_ppn) c_entry
  set_all_bits c_entry p_entry

unfoldable pub vms_fork_copy : M ℕ
unfolding each_valid copy_entry
vms_fork_copy = do
  parent_l2 ← λ m. done (vms_get_root_page_table m) m
  child_l2 ← vms_new_page
  copy_page child_l2 parent_l2
  each_valid
      (copy_entry (
        each_valid (copy_entry (each_valid (copy_entry (λ p c. pure tt)) 0 num_pte_entries)) 0
          num_pte_entries))
      0 num_pte_entries parent_l2 child_l2
  pure child_l2

-- The level 0 part of `recursive_cow`: both entries point to the parent's page.
unfoldable pub cow_leaf : ℕ → ℕ → M (Unit {0})
unfolding set_bits_except_write vms_get_page_index
cow_leaf p_entry c_entry = do
  e ← load64 p_entry
  let p0_ppn = vms_pte_get_ppn e
  change (λ c. vms_pte_set_ppn c p0_ppn) c_entry
  set_bits_except_write c_entry p_entry
  e' ← load64 p_entry
  if vms_pte_write e' || vms_pte_custom e'
      then (do
        change vms_pte_write_clear p_entry
        change vms_pte_custom_set p_entry
        change vms_pte_write_clear c_entry
        change vms_pte_custom_set c_entry
        λ m.
            (in_bounds (vms_get_page_index m (vms_ppn_to_page p0_ppn)) >>= λ _ s.
            set_arr (vms_get_page_index m (vms_ppn_to_page p0_ppn))
              (s.arr (vms_get_page_index m (vms_ppn_to_page p0_ppn)) + 2) s)
              m)
      else pure tt

-- The part of `recursive_cow` above level 0, where `next` is the call for the level below.
unfoldable pub cow_node : (ℕ → ℕ → M (Unit {0})) → ℕ → ℕ → M (Unit {0})
cow_node next p_entry c_entry = do
  child_nl ← vms_new_page
  e ← load64 p_entry
  next (vms_ppn_to_page (vms_pte_get_ppn e)) child_nl
  child_nl_ppn ← vms_page_to_ppn child_nl
  change (λ c. vms_pte_set_ppn c child_nl_ppn) c_entry
  set_all_bits c_entry p_entry

unfoldable pub recursive_cow : ℕ → ℕ → ℕ → M (Unit {0})
unfolding each_valid cow_leaf cow_node
recursive_cow zero parent_l child_l = do
  copy_page child_l parent_l
  each_valid cow_leaf 0 num_pte_entries parent_l child_l
recursive_cow (suc level) parent_l child_l = do
  copy_page child_l parent_l
  each_valid (cow_node (recursive_cow level)) 0 num_pte_entries parent_l child_l

unfoldable pub vms_fork_copy_on_write : M ℕ
unfolding recursive_cow
vms_fork_copy_on_write = do
  parent_l2 ← λ m. done (vms_get_root_page_table m) m
  child_l2 ← vms_new_page
  recursive_cow 2 parent_l2 child_l2
  pure child_l2
