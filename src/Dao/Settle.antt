-- ===== src/Dao/Settle.antt =====
-- A terminal transition (internal/dao/pg.jobSettle.go and pg.jobSettle.sql).
use service_jobs.Prelude.{ℕ, ◌==◌, Bool, false, ◌&&◌, List, Option, none, some, String, str_eq}
use service_jobs.Prelude.Int.{ℤ}
use service_jobs.Errors.{Result, ◌>>=◌, job_settle_not_claimed}
use service_jobs.Dao.Job.{Job, JobStatus, RawMessage, is_claimed, add_days}
use service_jobs.Dao.Table.{Table, Readings, Engine, update_where, to_jsonb}
use service_jobs.Dao.Exec.{Call, Statement, run_query, one_row, join_no_rows, query_error}

pub record JobSettleRequest : Type 0 where
  pub id : ℕ
  pub worker_id : String
  pub status : JobStatus
  pub result : RawMessage
  pub error : RawMessage
  pub retention_days : ℤ

-- `claimed_by = w`, which a null is not.
abbrev pub held_by : String → Option String → Bool
held_by w none = false
held_by w (some v) = str_eq v w

-- The guard that settle and requeue share: the id, the worker, and the claimed status.
abbrev pub holds : ℕ → String → Job → Bool
holds id worker j = j.id == id && held_by worker j.claimed_by && is_claimed j.status

-- The SET of the statement.
unfoldable pub settle_row : Readings → JobSettleRequest → RawMessage → RawMessage → Job → Job
settle_row clock r result error j = record j {
  status = r.status;
  result = result;
  error = error;
  claimed_by = none;
  lease_expires_at = none;
  settled_at = some (clock j.id 0);
  expires_at = some (add_days (clock j.id 1) r.retention_days);
  updated_at = clock j.id 2;
}

unfoldable pub statement : Engine → Readings → JobSettleRequest → Statement (List Job)
unfolding settle_row
statement e clock r t = do
  result ← to_jsonb e r.result
  error ← to_jsonb e r.error
  update_where (holds r.id r.worker_id) (settle_row clock r result error) t

-- No row is the sentinel.
abbrev pub conclude : Result (List Job) → Result Job
conclude rows = query_error (join_no_rows job_settle_not_claimed (one_row rows))

-- The Exec method.
unfoldable pub exec : Engine → Call → JobSettleRequest → Table → Result Job × Table
unfolding run_query
exec e c r = run_query c (statement e c.clock r) conclude

-- NewJobSettle: an object of the empty struct is its method.
abbrev pub new_job_settle : Engine → Call → JobSettleRequest → Table → Result Job × Table
new_job_settle = exec
