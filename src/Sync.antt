-- ===== src/Sync.antt =====
-- internal/sync: the batch engine and the incremental engine.
pub mod Services
pub mod Progress
pub mod Batch
pub mod Single
pub mod Sequential
pub mod Pool
pub mod Runtime
pub mod Incremental
pub mod Engine
