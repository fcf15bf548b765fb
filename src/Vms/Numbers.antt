-- ===== src/Vms/Numbers.antt =====
-- vms/src/page_table.c: the indices of an address, and the numbers of pages.
use Prim.Native.Nat.{bit_and}
use yep.Common.{ℕ, ◌+◌, ◌*◌, ◌/◌, ◌%◌, ◌^◌, ◌≤◌, ◌<◌, ◌≡◌, ◌∙◌, zero, suc, arith}
use yep.Common.Bits.{bit_and-shift, bit_and-low, bit_and-mask, join}
use yep.Vms.Machine.{Machine, done, page_size}
use yep.Vms.PageTable.{vms_page_table_index, vms_ppn_to_page, vms_page_to_ppn}

-- At each of the three levels, the index of an address is the number that its nine bits from bit
-- 9 * level + 12 on make.
pub vms_page_table_index-bits :
    (virtual_address level : ℕ)
    → level ≤ 2
    → vms_page_table_index virtual_address level ≡ virtual_address / 2 ^ (9 * level + 12) % 2 ^ 9
unfolding vms_page_table_index
vms_page_table_index-bits va zero h =
    bit_and-shift 12 va (0x1FF * 2 ^ 12) ∙ bit_and-mask 9 (va / 2 ^ 12)
vms_page_table_index-bits va (suc zero) h =
    bit_and-shift 21 va (0x1FF * 2 ^ 21) ∙ bit_and-mask 9 (va / 2 ^ 21)
vms_page_table_index-bits va (suc (suc zero)) h =
    bit_and-shift 30 va (0x1FF * 2 ^ 30) ∙ bit_and-mask 9 (va / 2 ^ 30)
vms_page_table_index-bits va (suc (suc (suc level))) h = absurd (omega arith)

no_high_bits : (p : ℕ) → p < 2 ^ 60 → bit_and p 0xF000000000000000 ≡ 0
no_high_bits p h =
    join 60 (bit_and p 0xF000000000000000) 0 0
      (bit_and-shift 60 p 0xF000000000000000 ∙ bit_and-mask 4 (p / 2 ^ 60) ∙ omega arith)
      (bit_and-low 60 p 0xF000000000000000 ∙ bit_and-mask 0 (p % 2 ^ 60) ∙ omega arith)

-- For a page at an aligned address below 2 ^ 60, `vms_page_to_ppn` returns the page's number without
-- a change of the machine, the number has at most 48 bits, and `vms_ppn_to_page` gives the address
-- back.
pub vms_page_to_ppn-vms_ppn_to_page :
    (m : Machine) (pointer : ℕ)
    → pointer < 2 ^ 60
    → pointer % page_size ≡ 0
    → (ppn : ℕ) × (vms_page_to_ppn pointer m ≡ done ppn m)
      × (ppn < 2 ^ 48)
      × (vms_ppn_to_page ppn ≡ pointer)
unfolding vms_page_to_ppn vms_ppn_to_page
vms_page_to_ppn-vms_ppn_to_page m p h aligned =
    (p / 2 ^ 12, ground (arith, aligned, no_high_bits p h), omega arith, omega arith)
