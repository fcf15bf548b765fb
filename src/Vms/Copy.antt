-- ===== src/Vms/Copy.antt =====
-- vms/src/vms.c, `vms_fork_copy`: the copy of an address space.
pub mod Memory
pub mod Idle
pub mod Tree
pub mod Page
pub mod Store
pub mod Step
pub mod Loop
pub mod Round
pub mod Whole
pub mod Route
pub mod Isolated
pub mod Tests
