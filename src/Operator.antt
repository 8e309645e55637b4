-- ===== src/Operator.antt =====
-- internal/operator: the controller that runs a JIRASync resource by calls of the API server.
pub mod Types
pub mod Breaker
pub mod Api
pub mod Network
pub mod Client
pub mod Cluster
pub mod Status
pub mod Spec
pub mod Phase
pub mod Initialize
pub mod Handlers
pub mod Reconcile
pub mod Held
pub mod Wired
pub mod Config
