-- ===== src/Invariant.antt =====
-- What holds of the jobs table (internal/dao/pg.job.go and the migration of internal/models) between
-- two statements of the service.
pub mod Update
pub mod Exec
pub mod Rows
pub mod Written
pub mod Chosen
pub mod Statements
pub mod Insert
pub mod Services
pub mod Retry
use service_jobs.Prelude.{
  ◌==◌, Bool, true, false, ◌≡◌, ◌≤◌, ◌<◌, ◌&&◌, [], ◌∷◌, is_set, str_eq, All, arith,
}
use service_jobs.Dao.Job.{
  Job, JobStatus, succeeded, failed, abandoned, is_pending, is_claimed, is_terminal,
}
use service_jobs.Dao.Table.{Table, max_int16, key_check, satisfies_checks}
use service_jobs.Dao.Enqueue.{conflicts}

abbrev pub is_succeeded : JobStatus → Bool
is_succeeded succeeded = true
is_succeeded _ = false

-- The statuses that record an error.
abbrev pub is_unsuccessful : JobStatus → Bool
is_unsuccessful failed = true
is_unsuccessful abandoned = true
is_unsuccessful _ = false

pub record IsSound (j : Job) : Type 0 where
  pub leased : is_set j.lease_expires_at ≡ is_claimed j.status
  pub held : is_set j.claimed_by ≡ is_claimed j.status
  pub settled : is_set j.settled_at ≡ is_terminal j.status
  pub expiring : is_set j.expires_at ≡ is_terminal j.status
  pub capped : j.attempt ≤ j.max_attempts
  pub small : j.max_attempts ≤ max_int16
  pub positive : 1 ≤ j.max_attempts
  pub attempt_left : is_pending j.status ≡ true → j.attempt < j.max_attempts
  pub begun : is_pending j.status ≡ false → 1 ≤ j.attempt
  pub result_needs_success : is_set j.result ≡ true → is_succeeded j.status ≡ true
  pub error_needs_failure : is_set j.error ≡ true → is_unsuccessful j.status ≡ true
  pub named : str_eq j.kind "" ≡ false
  pub keyed : key_check j.idempotency_key ≡ true

abbrev pub same_id : Job → Job → Bool
same_id j x = x.id == j.id

-- Two rows that the partial unique index tells to be one.
abbrev pub same_submission : Job → Job → Bool
same_submission j x = conflicts j.owner_id j.kind j.idempotency_key x

-- No row of a list relates to a later one.
abbrev pub Apart : (Job → Job → Bool) → Table → Type 0
Apart r [] = Unit {0}
Apart r (j ∷ js) = All (λ x. r j x ≡ false) js × Apart r js

pub record IsWellFormed (t : Table) : Type 0 where
  pub sound : All IsSound t
  pub ids_differ : Apart same_id t
  pub keys_differ : Apart same_submission t

pub empty-IsWellFormed : IsWellFormed []
empty-IsWellFormed = record { sound = tt; ids_differ = tt; keys_differ = tt }

-- A sound row passes every CHECK constraint.
pub IsSound-checks : (j : Job) → IsSound j → satisfies_checks j ≡ true
unfolding satisfies_checks
IsSound-checks j s = ground arith
