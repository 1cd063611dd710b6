-- ===== src/Handlers/Get.antt =====
-- The JobGet RPC (internal/handlers/grpc.jobGet.go).
use service_jobs.Prelude.{ℕ, String}
use service_jobs.Errors.{Result, ok, err}
use service_jobs.Core.Job as CoreJob
use service_jobs.Core.Get as Core
use service_jobs.Handlers.Job.{
  Formats, ProtoJob, job_to_proto, Response, refused, invalid_arg, respond,
}

-- protogen.JobGetRequest.
pub record JobGetRequest : Type 0 where
  pub id : String
  pub owner_id : String

pub record JobGetResponse : Type 0 where
  pub job : ProtoJob

abbrev pub to_response : Formats → CoreJob.Job → JobGetResponse
to_response f job = record { job = job_to_proto f job }

-- The service behind the handler, on a state of its own.
abbrev pub GetService : Type 0 → Type 0
GetService S = Core.JobGetRequest → S → Result CoreJob.Job × S

-- The struct, and NewJobGet.
pub record JobGet (S : Type 0) : Type 0 where
  pub service : GetService S

abbrev pub new_job_get : {S : Type 0} → GetService S → JobGet S
new_job_get service = record { service = service }

module _ {S : Type 0} where
  abbrev pub with_ids :
      Formats → GetService S → Result ℕ → Result ℕ → S → Response JobGetResponse × S
  with_ids f service (err e) owner s = (refused (invalid_arg "invalid job id"), s)
  with_ids f service (ok id) (err e) s = (refused (invalid_arg "invalid owner id"), s)
  with_ids f service (ok id) (ok owner) s =
      let (result, s') = service (record { id = id; owner_id = owner }) s in
      (respond (to_response f) result, s')

  unfoldable pub job_get : Formats → GetService S → JobGetRequest → S → Response JobGetResponse × S
  job_get f service r s = with_ids f service (f.uuid_parse r.id) (f.uuid_parse r.owner_id) s
