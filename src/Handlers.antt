-- ===== src/Handlers.antt =====
-- The gRPC handlers (internal/handlers), one module for each RPC.
pub mod Job
pub mod Enqueue
pub mod Get
pub mod Claim
pub mod Settle
pub mod Watch
pub mod Status
