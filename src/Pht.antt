-- ===== src/Pht.antt =====
-- pht/src: the chained hash tables, sequential and with locks.
pub mod Hash
pub mod Chain
pub mod Base
pub mod BaseMap
pub mod Tester
pub mod Parse
pub mod Main
pub mod Indices
pub mod Texts
pub mod Letters
pub mod Missing
pub mod Machine
pub mod Invariant
pub mod Safety
pub mod Progress
pub mod Locked
mod Tests
