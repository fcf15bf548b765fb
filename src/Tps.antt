-- ===== src/Tps.antt =====
-- tps/src/main.c: the program that lists the processes.
pub mod Main
pub mod Listing
mod Tests
