-- ===== src/Core/Claim.antt =====
-- Taking a batch of jobs for a worker (internal/core/jobClaim.go).
use service_jobs.Prelude.{Bool, ◌&&◌, List, map, String, if◌then◌else◌}
use service_jobs.Prelude.Int.{ℤ}
use service_jobs.Errors.{Result, ok, err, wrap}
use service_jobs.Dao.Job as DaoJob
use service_jobs.Dao.Table.{Table}
use service_jobs.Dao.Exec.{Call}
use service_jobs.Dao.Claim as DaoClaim
use service_jobs.Core.Validate.{Validator, invalid}
use service_jobs.Core.Job.{Job, job_to_core}

pub record JobClaimRequest : Type 0 where
  pub kinds : List String
  pub worker_id : String
  pub limit : ℤ
  pub lease_seconds : ℤ

-- The tags of the request.
unfoldable pub is_valid : Validator → JobClaimRequest → Bool
is_valid v r = v.required_text r.worker_id && v.gt_zero r.limit && v.gt_zero r.lease_seconds

unfoldable pub to_dao : JobClaimRequest → DaoClaim.JobClaimRequest
to_dao r = record {
  kinds = r.kinds;
  worker_id = r.worker_id;
  limit = r.limit;
  lease_seconds = r.lease_seconds;
}

abbrev pub conclude : Result (List DaoJob.Job) → Result (List Job)
conclude (ok entities) = ok (map job_to_core entities)
conclude (err e) = err (wrap "claim jobs" e)

-- The interface of the DAO, whose store is S.
abbrev pub JobClaimDao : Type 0 → Type 0
JobClaimDao S = Call → DaoClaim.JobClaimRequest → S → Result (List DaoJob.Job) × S

-- The struct, and NewJobClaim.
pub record JobClaim (S : Type 0) : Type 0 where
  pub dao : JobClaimDao S

abbrev pub new_job_claim : {S : Type 0} → JobClaimDao S → JobClaim S
new_job_claim dao = record { dao = dao }

-- The Exec method of a service.
abbrev pub exec_of :
    {S : Type 0} → JobClaim S → Validator → Call → JobClaimRequest → S → Result (List Job) × S
unfolding is_valid to_dao
exec_of service v c r s =
    if is_valid v r
    then (let (entities, u) = service.dao c (to_dao r) s in (conclude entities, u))
    else (err (invalid v), s)

-- The service that main makes.
abbrev pub service_job_claim : JobClaim Table
service_job_claim = new_job_claim DaoClaim.new_job_claim

-- Its Exec method.
unfoldable pub exec : Validator → Call → JobClaimRequest → Table → Result (List Job) × Table
unfolding is_valid to_dao
exec = exec_of service_job_claim
