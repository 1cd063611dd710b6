-- ===== src/Core/Reap.antt =====
-- The recovery sweep (internal/core/jobReap.go).
use service_jobs.Prelude.{List, map, some}
use service_jobs.Prelude.Int.{ℤ}
use service_jobs.Errors.{Result, ok, err, wrap}
use service_jobs.Dao.Job as DaoJob
use service_jobs.Dao.Job.{RawMessage}
use service_jobs.Dao.Table.{Table, Engine}
use service_jobs.Dao.Exec.{Call}
use service_jobs.Dao.Reap as DaoReap
use service_jobs.Core.Validate.{codes}
use service_jobs.Core.Job.{Job, job_to_core}

abbrev pub job_reap_error : RawMessage
job_reap_error = some (codes "{\"reason\":\"lease expired\"}")

abbrev pub conclude : Result (List DaoJob.Job) → Result (List Job)
conclude (ok entities) = ok (map job_to_core entities)
conclude (err e) = err (wrap "reap jobs" e)

-- The interface of the DAO, whose store is S.
abbrev pub JobReapDao : Type 0 → Type 0
JobReapDao S = Call → DaoReap.JobReapRequest → S → Result (List DaoJob.Job) × S

-- The struct, and NewJobReap.
pub record JobReap (S : Type 0) : Type 0 where
  pub dao : JobReapDao S
  pub retention_days : ℤ

abbrev pub new_job_reap : {S : Type 0} → JobReapDao S → ℤ → JobReap S
new_job_reap dao retention_days = record { dao = dao; retention_days = retention_days }

-- The Exec method of a service.
abbrev pub exec_of : {S : Type 0} → JobReap S → Call → S → Result (List Job) × S
exec_of service c s =
    let (entities, u) =
      service.dao c (record { error = job_reap_error; retention_days = service.retention_days })
        s in
    (conclude entities, u)

-- The service that main makes, for a retention.
abbrev pub service_job_reap : Engine → ℤ → JobReap Table
service_job_reap e retention_days = new_job_reap (DaoReap.new_job_reap e) retention_days

-- Its Exec method.
unfoldable pub exec : Engine → ℤ → Call → Table → Result (List Job) × Table
exec e retention_days = exec_of (service_job_reap e retention_days)
