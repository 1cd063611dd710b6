-- ===== src/Core/Get.antt =====
-- Reading one of an owner's jobs (internal/core/jobGet.go).
use service_jobs.Prelude.{ℕ, Bool, ◌&&◌, if◌then◌else◌}
use service_jobs.Errors.{
  Result, ok, err, wrap, join, sentinel, errors_is, job_get_not_found, job_not_found,
}
use service_jobs.Dao.Job as DaoJob
use service_jobs.Dao.Table.{Table}
use service_jobs.Dao.Exec.{Call}
use service_jobs.Dao.Get as DaoGet
use service_jobs.Core.Validate.{Validator, invalid}
use service_jobs.Core.Job.{Job, job_to_core}

pub record JobGetRequest : Type 0 where
  pub id : ℕ
  pub owner_id : ℕ

-- The tags of the request.
unfoldable pub is_valid : Validator → JobGetRequest → Bool
is_valid v r = v.required_id r.id && v.required_id r.owner_id

abbrev pub conclude : Result DaoJob.Job → Result Job
conclude (ok entity) = ok (job_to_core entity)
conclude (err e) =
    err
      (if errors_is e job_get_not_found then join e (sentinel job_not_found) else wrap "get job" e)

-- The interface of the DAO, whose store is S.
abbrev pub JobGetDao : Type 0 → Type 0
JobGetDao S = Call → DaoGet.JobGetRequest → S → Result DaoJob.Job × S

-- The struct, and NewJobGet.
pub record JobGet (S : Type 0) : Type 0 where
  pub dao : JobGetDao S

abbrev pub new_job_get : {S : Type 0} → JobGetDao S → JobGet S
new_job_get dao = record { dao = dao }

-- The Exec method of a service.
abbrev pub exec_of : {S : Type 0} → JobGet S → Validator → Call → JobGetRequest → S → Result Job × S
unfolding is_valid
exec_of service v c r s =
    if is_valid v r
    then (let (entity, u) = service.dao c (record { id = r.id; owner_id = r.owner_id }) s in
        (conclude entity, u))
    else (err (invalid v), s)

-- The service that main makes.
abbrev pub service_job_get : JobGet Table
service_job_get = new_job_get DaoGet.new_job_get

-- Its Exec method.
unfoldable pub exec : Validator → Call → JobGetRequest → Table → Result Job × Table
unfolding is_valid
exec = exec_of service_job_get
