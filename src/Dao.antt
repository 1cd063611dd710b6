-- ===== src/Dao.antt =====
-- The data-access layer (internal/dao): the jobs table and one module for each statement on it.
pub mod Job
pub mod Table
pub mod Exec
pub mod Enqueue
pub mod Claim
pub mod Settle
pub mod Requeue
pub mod Reap
pub mod Get
pub mod GetById
pub mod CountPending
pub mod QueueDepth
pub mod Purge
