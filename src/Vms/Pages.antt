-- ===== src/Vms/Pages.antt =====
-- vms/src/pages.c: the allocator of pages, in one region of 256 pages.
use yep.Common.{
  ℕ, zero, suc, ◌+◌, ◌-◌, ◌*◌, ◌/◌, ◌%◌, ◌^◌, Bool, true, false, not, ◌==◌, ltb, if◌then◌else◌,
}
use yep.Vms.Machine.{
  page_size, max_pages, Machine, done, exits, faults, M, require, clear_page, ◌>>◌,
}

-- The result of `mmap` is the base; MAP_FAILED ends the process, and so do the asserts on the page
-- size of the system and on the alignment.
unfoldable pub vms_init : ℕ → Bool → ℕ → M (Unit {0})
vms_init system_page_size maps base = do
  require (system_page_size == page_size)
  λ m. if maps then done tt (record m { base = base }) else exits
  require (base % page_size == 0)

unfoldable pub vms_get_page_pointer : Machine → ℕ → ℕ
vms_get_page_pointer m index = m.base + index * page_size

-- The difference of two addresses as a uint64_t, and the quotient as an int, whose negative values
-- are here the numbers from 2 ^ 31 on.
unfoldable pub vms_get_page_index : Machine → ℕ → ℕ
vms_get_page_index m pointer = (pointer + 2 ^ 64 - m.base) % 2 ^ 64 / page_size % 2 ^ 32

unfoldable pub check_page_aligned : ℕ → M (Unit {0})
check_page_aligned pointer = require (pointer % page_size == 0)

abbrev pub set_allocated : Machine → ℕ → Bool → ℕ → Bool
set_allocated m i b j = if i == j then b else m.allocated j

-- The loop of `vms_new_page` over `n` pages from `i` on: the first page that is free.
unfoldable pub new_page_from : ℕ → ℕ → M ℕ
unfolding vms_get_page_pointer
new_page_from i zero m = exits
new_page_from i (suc n) m =
    if not (m.allocated i)
    then done (vms_get_page_pointer m i)
        (record m { allocated = set_allocated m i true; used_pages = m.used_pages + 1 })
    else new_page_from (i + 1) n m

unfoldable pub vms_new_page : M ℕ
vms_new_page = new_page_from 0 max_pages

-- The access of an array of pages, which has 256 elements.
abbrev pub in_bounds : ℕ → M (Unit {0})
in_bounds i m = if ltb i max_pages then done tt m else faults

unfoldable pub vms_free_page : ℕ → M (Unit {0})
unfolding check_page_aligned vms_get_page_index
vms_free_page pointer = do
  check_page_aligned pointer
  λ m.
      (do
        in_bounds (vms_get_page_index m pointer)
        require (m.allocated (vms_get_page_index m pointer))
        λ s. done tt (record s { allocated = set_allocated s (vms_get_page_index m pointer) false })
        clear_page pointer
        λ s. done tt (record s { used_pages = s.used_pages - 1 }))
        m

unfoldable pub vms_get_used_pages : Machine → ℕ
vms_get_used_pages m = m.used_pages
