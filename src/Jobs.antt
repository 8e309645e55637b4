-- ===== src/Jobs.antt =====
-- pkg/jobs: the identifiers of jobs, and their scheduling as Kubernetes Jobs.
pub mod JobId
pub mod Types
pub mod Manifest
pub mod Scheduler
pub mod Errors
