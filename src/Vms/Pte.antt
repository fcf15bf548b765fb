-- ===== src/Vms/Pte.antt =====
-- vms/src/pte.c: the flags and the page number of a page table entry, a uint64_t.
use Prim.Native.Nat.{bit_and, bit_or}
use yep.Common.{ℕ, ◌-◌, ◌*◌, ◌/◌, ◌%◌, ◌^◌, Bool, not, ◌==◌}

abbrev pub pte_custom : ℕ
pte_custom = 2 ^ 8

abbrev pub pte_write : ℕ
pte_write = 2 ^ 2

abbrev pub pte_read : ℕ
pte_read = 2 ^ 1

abbrev pub pte_valid : ℕ
pte_valid = 2 ^ 0

-- `~flag`, an int, taken to 64 bits.
abbrev pub complement : ℕ → ℕ
complement flag = 2 ^ 64 - 1 - flag

unfoldable pub vms_pte_valid_clear : ℕ → ℕ
vms_pte_valid_clear entry = bit_and entry (complement pte_valid)

unfoldable pub vms_pte_valid_set : ℕ → ℕ
vms_pte_valid_set entry = bit_or entry pte_valid

unfoldable pub vms_pte_valid : ℕ → Bool
vms_pte_valid entry = not (bit_and entry pte_valid == 0)

unfoldable pub vms_pte_read_clear : ℕ → ℕ
vms_pte_read_clear entry = bit_and entry (complement pte_read)

unfoldable pub vms_pte_read_set : ℕ → ℕ
vms_pte_read_set entry = bit_or entry pte_read

unfoldable pub vms_pte_read : ℕ → Bool
vms_pte_read entry = not (bit_and entry pte_read == 0)

unfoldable pub vms_pte_write_clear : ℕ → ℕ
vms_pte_write_clear entry = bit_and entry (complement pte_write)

unfoldable pub vms_pte_write_set : ℕ → ℕ
vms_pte_write_set entry = bit_or entry pte_write

unfoldable pub vms_pte_write : ℕ → Bool
vms_pte_write entry = not (bit_and entry pte_write == 0)

unfoldable pub vms_pte_custom_clear : ℕ → ℕ
vms_pte_custom_clear entry = bit_and entry (complement pte_custom)

unfoldable pub vms_pte_custom_set : ℕ → ℕ
vms_pte_custom_set entry = bit_or entry pte_custom

unfoldable pub vms_pte_custom : ℕ → Bool
vms_pte_custom entry = not (bit_and entry pte_custom == 0)

-- `(((uint64_t)~0) << 20) >> PTE_PPN_START_BIT`
abbrev pub ppn_mask : ℕ
ppn_mask = (2 ^ 64 - 1) * 2 ^ 20 % 2 ^ 64 / 2 ^ 10

unfoldable pub vms_pte_get_ppn : ℕ → ℕ
vms_pte_get_ppn entry = bit_and entry ppn_mask / 2 ^ 10

unfoldable pub vms_pte_set_ppn : ℕ → ℕ → ℕ
vms_pte_set_ppn entry ppn =
    bit_or (bit_and entry (complement ppn_mask)) (ppn * 2 ^ 20 % 2 ^ 64 / 2 ^ 10)
