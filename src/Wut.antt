-- ===== src/Wut.antt =====
-- wut/src/wut.c: user threads with a ready queue.
pub mod State
pub mod Schedule
pub mod Lifecycle
pub mod Lookup
pub mod Valid
pub mod Init
pub mod Create
pub mod Depart
pub mod Unlink
pub mod Cancel
pub mod Exit
pub mod Cleanup
pub mod Yield
pub mod Join
pub mod Waiting
pub mod Wait
pub mod Handover
pub mod Run
mod Tests
