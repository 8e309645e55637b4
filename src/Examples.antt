-- ===== src/Examples.antt =====
-- Concrete inputs, and the theorems applied to them.
mod Samples
mod Saved
mod Recovered
mod Tracked
mod Batched
mod Selected
mod Named
mod Limited
mod Restored
mod Queried
mod Operated
mod Configured
mod Drifted
