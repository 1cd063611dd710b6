-- ===== src/Dao/Requeue.antt =====
-- A worker handing a job back (internal/dao/pg.jobRequeue.go and pg.jobRequeue.sql).
use service_jobs.Prelude.{ℕ, List, none, String}
use service_jobs.Errors.{Result, job_requeue_not_claimed}
use service_jobs.Dao.Job.{Job, pending}
use service_jobs.Dao.Table.{Table, Readings, update_where}
use service_jobs.Dao.Exec.{Call, Statement, run_query, one_row, join_no_rows, query_error}
use service_jobs.Dao.Settle.{holds}

pub record JobRequeueRequest : Type 0 where
  pub id : ℕ
  pub worker_id : String

-- The SET of the statement; the attempt stays.
unfoldable pub requeue_row : Readings → Job → Job
requeue_row clock j = record j {
  status = pending;
  claimed_by = none;
  lease_expires_at = none;
  run_at = clock j.id 0;
  updated_at = clock j.id 1;
}

unfoldable pub statement : Readings → JobRequeueRequest → Statement (List Job)
unfolding requeue_row
statement clock r t = update_where (holds r.id r.worker_id) (requeue_row clock) t

-- No row is the sentinel.
abbrev pub conclude : Result (List Job) → Result Job
conclude rows = query_error (join_no_rows job_requeue_not_claimed (one_row rows))

-- The Exec method.
unfoldable pub exec : Call → JobRequeueRequest → Table → Result Job × Table
unfolding run_query
exec c r = run_query c (statement c.clock r) conclude

-- NewJobRequeue: an object of the empty struct is its method.
abbrev pub new_job_requeue : Call → JobRequeueRequest → Table → Result Job × Table
new_job_requeue = exec
