-- ===== src/Vms/Cow.antt =====
-- vms/src/vms.c: the fork with copy-on-write.
pub mod Entries
pub mod Table
pub mod Leaf
pub mod Space
pub mod Upper
pub mod Step
pub mod Loop
pub mod Round
pub mod Whole
pub mod Reads
mod Tests
