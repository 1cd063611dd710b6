-- ===== src/Dao/Get.antt =====
-- The owner-scoped read (internal/dao/pg.jobGet.go and pg.jobGet.sql).
use service_jobs.Prelude.{ℕ, ◌==◌, Bool, ◌&&◌, List, filter}
use service_jobs.Errors.{Result, ok, job_get_not_found}
use service_jobs.Dao.Job.{Job}
use service_jobs.Dao.Table.{Table}
use service_jobs.Dao.Exec.{Call, Statement, run_query, one_row, join_no_rows, query_error}

pub record JobGetRequest : Type 0 where
  pub id : ℕ
  pub owner_id : ℕ

-- The WHERE of the statement.
abbrev pub owns : JobGetRequest → Job → Bool
owns r j = j.id == r.id && j.owner_id == r.owner_id

unfoldable pub statement : JobGetRequest → Statement (List Job)
statement r t = ok (filter (owns r) t, t)

-- No row is the sentinel.
abbrev pub conclude : Result (List Job) → Result Job
conclude rows = query_error (join_no_rows job_get_not_found (one_row rows))

-- The Exec method.
unfoldable pub exec : Call → JobGetRequest → Table → Result Job × Table
unfolding run_query statement
exec c r = run_query c (statement r) conclude

-- NewJobGet: an object of the empty struct is its method.
abbrev pub new_job_get : Call → JobGetRequest → Table → Result Job × Table
new_job_get = exec
