-- ===== src/State.antt =====
-- pkg/state: the sync state of a repository. The children define the operations of
-- `FileStateManager` and prove what they do.
pub mod Types
pub mod Heap
pub mod Platform
pub mod Persist
pub mod Backup
pub mod Operations
pub mod Issues
pub mod Check
