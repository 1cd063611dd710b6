-- ===== src/Handlers/Settle.antt =====
-- The JobSettle RPC (internal/handlers/grpc.jobSettle.go).
use service_jobs.Prelude.{ℕ, Bool, none, some, String}
use service_jobs.Errors.{Result, ok, err}
use service_jobs.Dao.Job.{RawMessage}
use service_jobs.Core.Job as CoreJob
use service_jobs.Core.Settle as Core
use service_jobs.Handlers.Job.{
  Formats, ProtoJob, job_to_proto, Response, refused, invalid_arg, respond,
}

-- The oneof of protogen.JobSettleRequest, and the case that neither arm is set.
pub data Outcome : Type 0 where
  unset : Outcome
  result : RawMessage → Outcome
  failure : RawMessage → Bool → Outcome

-- protogen.JobSettleRequest.
pub record JobSettleRequest : Type 0 where
  pub id : String
  pub worker_id : String
  pub outcome : Outcome

pub record JobSettleResponse : Type 0 where
  pub job : ProtoJob

-- A failure, or else whatever `GetResult` returns.
abbrev pub settle_request : ℕ → String → Outcome → Core.JobSettleRequest
settle_request id worker unset = record {
  id = id;
  worker_id = worker;
  result = none;
  failure = none;
}
settle_request id worker (result r) = record {
  id = id;
  worker_id = worker;
  result = r;
  failure = none;
}
settle_request id worker (failure e retryable) = record {
  id = id;
  worker_id = worker;
  result = none;
  failure = some (record { error = e; retryable = retryable });
}

abbrev pub to_response : Formats → CoreJob.Job → JobSettleResponse
to_response f job = record { job = job_to_proto f job }

abbrev pub SettleService : Type 0 → Type 0
SettleService S = Core.JobSettleRequest → S → Result CoreJob.Job × S

-- The struct, and NewJobSettle.
pub record JobSettle (S : Type 0) : Type 0 where
  pub service : SettleService S

abbrev pub new_job_settle : {S : Type 0} → SettleService S → JobSettle S
new_job_settle service = record { service = service }

module _ {S : Type 0} where
  abbrev pub with_id :
      Formats → SettleService S → JobSettleRequest → Result ℕ → S → Response JobSettleResponse × S
  with_id f service r (err e) s = (refused (invalid_arg "invalid job id"), s)
  with_id f service r (ok id) s =
      let (job, s') = service (settle_request id r.worker_id r.outcome) s in
      (respond (to_response f) job, s')

  unfoldable pub job_settle :
      Formats → SettleService S → JobSettleRequest → S → Response JobSettleResponse × S
  job_settle f service r s = with_id f service r (f.uuid_parse r.id) s
