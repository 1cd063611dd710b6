-- ===== src/Dao/GetById.antt =====
-- The worker-side read (internal/dao/pg.jobGetByID.go and pg.jobGetByID.sql).
use service_jobs.Prelude.{ℕ, ◌==◌, List, filter}
use service_jobs.Errors.{Result, ok, job_get_by_id_not_found}
use service_jobs.Dao.Job.{Job}
use service_jobs.Dao.Table.{Table}
use service_jobs.Dao.Exec.{Call, Statement, run_query, one_row, join_no_rows, query_error}

pub record JobGetByIdRequest : Type 0 where
  pub id : ℕ

unfoldable pub statement : JobGetByIdRequest → Statement (List Job)
statement r t = ok (filter (λ j. j.id == r.id) t, t)

-- No row is the sentinel.
abbrev pub conclude : Result (List Job) → Result Job
conclude rows = query_error (join_no_rows job_get_by_id_not_found (one_row rows))

-- The Exec method.
unfoldable pub exec : Call → JobGetByIdRequest → Table → Result Job × Table
unfolding run_query statement
exec c r = run_query c (statement r) conclude

-- NewJobGetByID: an object of the empty struct is its method.
abbrev pub new_job_get_by_id : Call → JobGetByIdRequest → Table → Result Job × Table
new_job_get_by_id = exec
