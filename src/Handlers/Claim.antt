-- ===== src/Handlers/Claim.antt =====
-- The JobClaim RPC (internal/handlers/grpc.jobClaim.go).
use service_jobs.Prelude.{List, map, String}
use service_jobs.Prelude.Int.{ℤ}
use service_jobs.Errors.{Result}
use service_jobs.Core.Job as CoreJob
use service_jobs.Core.Claim as Core
use service_jobs.Handlers.Job.{Formats, ProtoJob, job_to_proto, Response, respond}

-- protogen.JobClaimRequest; the numbers are int32.
pub record JobClaimRequest : Type 0 where
  pub kinds : List String
  pub worker_id : String
  pub limit : ℤ
  pub lease_seconds : ℤ

pub record JobClaimResponse : Type 0 where
  pub jobs : List ProtoJob

unfoldable pub to_core : JobClaimRequest → Core.JobClaimRequest
to_core r = record {
  kinds = r.kinds;
  worker_id = r.worker_id;
  limit = r.limit;
  lease_seconds = r.lease_seconds;
}

abbrev pub to_response : Formats → List CoreJob.Job → JobClaimResponse
to_response f jobs = record { jobs = map (job_to_proto f) jobs }

-- The service behind the handler, on a state of its own.
abbrev pub ClaimService : Type 0 → Type 0
ClaimService S = Core.JobClaimRequest → S → Result (List CoreJob.Job) × S

-- The struct, and NewJobClaim.
pub record JobClaim (S : Type 0) : Type 0 where
  pub service : ClaimService S

abbrev pub new_job_claim : {S : Type 0} → ClaimService S → JobClaim S
new_job_claim service = record { service = service }

unfoldable pub job_claim :
    {S : Type 0} → Formats → ClaimService S → JobClaimRequest → S → Response JobClaimResponse × S
unfolding to_core
job_claim f service r s =
    let (jobs, s') = service (to_core r) s in (respond (to_response f) jobs, s')
