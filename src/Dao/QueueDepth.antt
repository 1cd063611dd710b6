-- ===== src/Dao/QueueDepth.antt =====
-- The backlog probe (internal/dao/pg.jobQueueDepth.go and pg.jobQueueDepth.sql). The conversion of
-- the age from seconds to a `time.Duration` runs in floating point and is a parameter.
use service_jobs.Prelude.{
  ℕ, Bool, ◌&&◌, List, [], ◌∷◌, Option, none, some, leb, if◌then◌else◌, filter, length,
}
use service_jobs.Prelude.Int.{ℤ, sub_ℕ}
use service_jobs.Errors.{Result, ok, map_ok}
use service_jobs.Dao.Job.{Job, is_pending}
use service_jobs.Dao.Table.{Table, Readings}
use service_jobs.Dao.Exec.{Call, Statement, run_query, query_error}

pub record QueueDepth : Type 0 where
  pub pending : ℕ
  pub oldest_pending_age : Option ℤ

-- `min(run_at)`: null over no rows.
abbrev pub min_run_at : List Job → Option ℕ
min_run_at [] = none
min_run_at (j ∷ js) = elim (min_run_at js) [
  | none ↦ some j.run_at
  | some m ↦ some (if leb j.run_at m then j.run_at else m)
]

-- The age in microseconds; a null stays null.
abbrev pub age_at : ℕ → Option ℕ → Option ℤ
age_at now none = none
age_at now (some t) = some (sub_ℕ now t)

-- The WHERE of the statement.
abbrev pub is_due : Readings → Job → Bool
is_due clock j = is_pending j.status && leb j.run_at (clock j.id 0)

-- The aggregates; their own reading of the clock belongs to no row.
unfoldable pub statement : Readings → Statement (ℕ × Option ℤ)
statement clock t =
    let due = filter (is_due clock) t in ok ((length due, age_at (clock 0 1) (min_run_at due)), t)

abbrev pub to_depth : (ℤ → ℤ) → ℕ × Option ℤ → QueueDepth
to_depth duration (n, none) = record { pending = n; oldest_pending_age = none }
to_depth duration (n, some age) = record { pending = n; oldest_pending_age = some (duration age) }

-- The Exec method.
unfoldable pub exec : (ℤ → ℤ) → Call → Table → Result QueueDepth × Table
unfolding run_query statement
exec duration c =
    run_query c (statement c.clock) (λ row. map_ok (to_depth duration) (query_error row))

-- NewJobQueueDepth: an object of the empty struct is its method.
abbrev pub new_job_queue_depth : (ℤ → ℤ) → Call → Table → Result QueueDepth × Table
new_job_queue_depth = exec
