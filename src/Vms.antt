-- ===== src/Vms.antt =====
-- vms/src: page table entries, page tables, pages and the translation of addresses.
pub mod Pte
pub mod Entry
pub mod Machine
pub mod Pages
pub mod PageTable
pub mod Numbers
pub mod Allocator
pub mod Mmu
pub mod Walk
pub mod Access
pub mod Fork
pub mod Flags
pub mod Copy
pub mod Cow
pub mod Ends
pub mod Split
mod Tests
