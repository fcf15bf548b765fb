-- ===== src/Vms/PageTable.antt =====
-- vms/src/page_table.c: indices, addresses of entries, and page numbers.
use Prim.Native.Nat.{bit_and}
use yep.Common.{ℕ, ◌+◌, ◌*◌, ◌/◌, ◌%◌, ◌^◌, ◌==◌}
use yep.Vms.Machine.{M, pure, require, ◌>>◌}
use yep.Vms.Pages.{check_page_aligned}

-- `virtual_address` is the uint64_t that the pointer is cast to.
unfoldable pub vms_page_table_index : ℕ → ℕ → ℕ
vms_page_table_index virtual_address level =
    bit_and virtual_address (0x1FF * 2 ^ (9 * level + 12) % 2 ^ 64) / 2 ^ (9 * level + 12)

unfoldable pub vms_page_table_pte_entry_from_index : ℕ → ℕ → ℕ
vms_page_table_pte_entry_from_index page_table index = page_table + 8 * index

unfoldable pub vms_page_table_pte_entry : ℕ → ℕ → ℕ → ℕ
unfolding vms_page_table_index vms_page_table_pte_entry_from_index
vms_page_table_pte_entry page_table virtual_address level =
    vms_page_table_pte_entry_from_index page_table (vms_page_table_index virtual_address level)

unfoldable pub vms_ppn_to_page : ℕ → ℕ
vms_ppn_to_page ppn = ppn * 2 ^ 12 % 2 ^ 64

unfoldable pub vms_page_to_ppn : ℕ → M ℕ
unfolding check_page_aligned
vms_page_to_ppn pointer = do
  check_page_aligned pointer
  require (bit_and pointer 0xF000000000000000 == 0)
  pure (pointer / 2 ^ 12)
