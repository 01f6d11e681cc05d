-- ===== src/Ring.antt =====
-- The ring buffers for one producer and one consumer.
pub mod Window
pub mod Memory
pub mod Queue
pub mod Locked
pub mod Modular
pub mod Counter
pub mod Retry
