-- ===== src/Core.antt =====
-- The business layer (internal/core), one module for each service.
pub mod Validate
pub mod Job
pub mod Enqueue
pub mod Get
pub mod Claim
pub mod Settle
pub mod Reap
pub mod Depth
