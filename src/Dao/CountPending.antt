-- ===== src/Dao/CountPending.antt =====
-- The count of pending jobs (internal/dao/pg.jobCountPending.go and pg.jobCountPending.sql). The
-- conversion of the age from seconds to a `time.Duration` runs in floating point and is a parameter.
use service_jobs.Prelude.{ℕ, Option, none, some, filter, length}
use service_jobs.Prelude.Int.{ℤ, pos, sub_ℕ}
use service_jobs.Errors.{Result, ok, map_ok}
use service_jobs.Dao.Job.{is_pending}
use service_jobs.Dao.Table.{Table, Readings}
use service_jobs.Dao.Exec.{Call, Statement, run_query, query_error}
use service_jobs.Dao.QueueDepth.{min_run_at}

pub record JobPendingStats : Type 0 where
  pub pending : ℕ
  pub oldest_age : ℤ

-- `COALESCE(…, 0)`, in microseconds.
abbrev pub age_or_zero : ℕ → Option ℕ → ℤ
age_or_zero now none = pos 0
age_or_zero now (some t) = sub_ℕ now t

unfoldable pub statement : Readings → Statement (ℕ × ℤ)
statement clock t =
    let waiting = filter (λ j. is_pending j.status) t in
    ok ((length waiting, age_or_zero (clock 0 0) (min_run_at waiting)), t)

abbrev to_stats : (ℤ → ℤ) → ℕ × ℤ → JobPendingStats
to_stats duration (n, age) = record { pending = n; oldest_age = duration age }

-- The Exec method.
unfoldable pub exec : (ℤ → ℤ) → Call → Table → Result JobPendingStats × Table
unfolding run_query statement
exec duration c =
    run_query c (statement c.clock) (λ row. map_ok (to_stats duration) (query_error row))

-- NewJobCountPending: an object of the empty struct is its method.
abbrev pub new_job_count_pending : (ℤ → ℤ) → Call → Table → Result JobPendingStats × Table
new_job_count_pending = exec
