-- ===== src/Mpmc.antt =====
-- The unbounded queues for many producers and many consumers.
pub mod Heap
pub mod Fine
pub mod Coarse
