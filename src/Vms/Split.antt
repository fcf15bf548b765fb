-- ===== src/Vms/Split.antt =====
-- vms/src/vms.c, `page_fault_handler`: an entry that shares its page gets one of its own.
pub mod Steps
pub mod Handler
mod Tests
