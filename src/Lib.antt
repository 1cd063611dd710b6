-- ===== src/Lib.antt =====
-- service-jobs: a durable job queue over PostgreSQL, with a gRPC surface.
--
-- A caller enqueues a job under an optional idempotency key; a worker claims a batch of due jobs under
-- a lease, runs them, and settles each one; a background sweep recovers the jobs whose lease lapsed;
-- a settled job stays until a scheduled purge. The program is in layers, and so are the modules:
--
-- * Dao, one module for each pair internal/dao/pg.job*.go and pg.job*.sql. Dao.Job is the row
--   (pg.job.go). Dao.Table is the jobs table of internal/models/migrations with its CHECK constraints,
--   an UPDATE, and JSON columns. Dao.Exec is what all Exec methods share: the handle from the context,
--   the statement, and the error that is wrapped. Each other module has the request, the WHERE as a
--   Boolean test, the SET as a function on rows, the statement, and the method as `exec`. Dao.Purge is
--   the DELETE that builds/database.sql schedules.
-- * Core, one module for each service of internal/core, with its validation (Core.Validate), its
--   mapping of errors, the interface of its DAO, the struct that holds one, and the method as `exec_of`.
--   `exec` is the method of the service that cmd/grpc/main.go makes.
-- * Handlers, one module for each RPC of internal/handlers, on a service that is a parameter, with the
--   messages of internal/handlers/protogen as records.
-- * Reaper is the loop of internal/lib/reaper.go, and reads the cadence that
--   internal/config/env/env.go checks.
-- * Config is the rest of internal/config: the settings of env/env.go and, in Config.App, the preset that
--   the process starts with.
-- * System is the service as steps on the table: each operation by any caller, and the purge.
-- * Server is the process of cmd/grpc/main.go: the check at boot, each registered RPC over its service,
--   and a run of calls and sweeps until the signal. Server.Launch is main as a whole, with the parts
--   that may not start and what runs on the way out.
-- * Migrations is the command of cmd/migrations, over a runner that is a parameter. Deployment runs it
--   and the process one after the other on one database, with the purge in between.
-- * Client is pkg/go/client.go on the generated stubs, and Client.Reach the server's side of them.
-- * Probing.Interleaved has the status probes as calls that run at once.
-- * Errors has Go's errors as trees with errors.Is, and results.
--
-- Abstract is a specification: the life of one job as phases, and the moves that each operation may make,
-- without columns. Abstract.Runs sets each operation of a run against it, Abstract.Steps proves that
-- all follow, and Abstract.Bounds counts a life on the tables of a run.
--
-- The other proofs are in Invariant (well-formedness of the table, through statements and services),
-- Atomic (what errors leave), Idempotency, Lifecycle, Claims, Settling, Recovery, Reading, Watching,
-- Probing, Backlog, Loop, Unordered (two runs on tables of the same rows in other orders) and the
-- children of Server, Deployment, Config and Client. Tests runs the theorems on concrete data.
--
-- How the outside enters:
-- * A `Call` holds what surrounds one statement: an error of the handle, an error of the driver before
--   the statement ran, an error after it committed (the answer is lost), the clock, and the rows that
--   other transactions hold locked. `IsHealthy` is a call without errors.
-- * The database's clock is a reading for each row and each place in a statement that asks for it, so
--   nothing is assumed of the order of two readings. Times count microseconds, a day is 24 hours
--   (a session in UTC), and identifiers are the numbers of the UUIDs.
-- * A statement is atomic: it returns its rows with the new table, or an error with the old one. Rows
--   with one run_at keep the order of the table in a claim, which the database leaves open.
-- * The transactor commits a function that returns no error and undoes the others. A `Session` has
--   what other sessions commit between the read and the write of a retryable failure, since the read
--   takes no lock.
-- * The validator package, SHA-256, the UUID generator and parser, JSON columns, the format of times, the
--   conversion of an age through floating point, and the loader of settings with its parsers are
--   parameters.
--
-- No definition runs on fuel: statements recur on the table, and the watch, the reaper, the process and
-- the probes on the list of the rounds, wakes or events that they are given. The attempt cap of the
-- wire is an int32 that a handler narrows to 16 bits, with the wrap-around written out; a negative
-- limit of a claim, on which Go's make panics, is an error of the call.
--
-- Not modelled: tracing, logging other than the reaper's, the interceptors of the listener, how the
-- library applies a migration, the echo service, interceptors in the generated stubs, and test doubles.
pub mod Prelude
pub mod Errors
pub mod Dao
pub mod Config
pub mod Core
pub mod Invariant
pub mod System
pub mod Atomic
pub mod Handlers
pub mod Reaper
pub mod Idempotency
pub mod Lifecycle
pub mod Settling
pub mod Claims
pub mod Recovery
pub mod Reading
pub mod Watching
pub mod Unordered
pub mod Probing
pub mod Loop
pub mod Migrations
pub mod Deployment
pub mod Backlog
pub mod Server
pub mod Client
pub mod Abstract
pub mod Tests
