-- ===== src/Handlers/Job.antt =====
-- The wire form of a job and of an error (internal/handlers/grpc.job.go, and the messages of
-- internal/handlers/protogen/job.pb.go). Printing and parsing of UUIDs and of RFC 3339 times, which
-- are library code, are parameters.
use service_jobs.Prelude.{ℕ, Option, none, some, String, if◌then◌else◌}
use service_jobs.Errors.{
  GoError, Result, ok, err, errors_is, invalid_request, job_not_found, job_conflict,
  job_not_claimed,
}
use service_jobs.Dao.Job as DaoJob
use service_jobs.Dao.Job.{Bytes, RawMessage}
use service_jobs.Core.Job as CoreJob

-- protogen.JobStatus.
pub data ProtoStatus : Type 0 where
  unspecified pending claimed succeeded failed abandoned cancelled : ProtoStatus

abbrev pub job_status_to_proto : DaoJob.JobStatus → ProtoStatus
job_status_to_proto DaoJob.pending = pending
job_status_to_proto DaoJob.claimed = claimed
job_status_to_proto DaoJob.succeeded = succeeded
job_status_to_proto DaoJob.failed = failed
job_status_to_proto DaoJob.abandoned = abandoned
job_status_to_proto DaoJob.cancelled = cancelled

-- Library code: `UUID.String`, `uuid.Parse`, `Time.Format(time.RFC3339)`.
pub record Formats : Type 0 where
  pub uuid_string : ℕ → String
  pub uuid_parse : String → Result ℕ
  pub rfc3339 : ℕ → String

-- protogen.Job.
pub record ProtoJob : Type 0 where
  pub id : String
  pub kind : String
  pub payload : Bytes
  pub owner_id : String
  pub status : ProtoStatus
  pub attempt : ℕ
  pub max_attempts : ℕ
  pub result : RawMessage
  pub error : RawMessage
  pub provider_call_id : String
  pub created_at : String
  pub updated_at : String
  pub settled_at : String
  pub expires_at : String

abbrev pub deref_string : Option String → String
deref_string none = ""
deref_string (some s) = s

abbrev pub format_time : Formats → Option ℕ → String
format_time f none = ""
format_time f (some t) = f.rfc3339 t

unfoldable pub job_to_proto : Formats → CoreJob.Job → ProtoJob
job_to_proto f job = record {
  id = f.uuid_string job.id;
  kind = job.kind;
  payload = job.payload;
  owner_id = f.uuid_string job.owner_id;
  status = job_status_to_proto job.status;
  attempt = job.attempt;
  max_attempts = job.max_attempts;
  result = job.result;
  error = job.error;
  provider_call_id = deref_string job.provider_call_id;
  created_at = f.rfc3339 job.created_at;
  updated_at = f.rfc3339 job.updated_at;
  settled_at = format_time f job.settled_at;
  expires_at = format_time f job.expires_at;
}

-- The codes of google.golang.org/grpc/codes that the service answers with.
pub data Code : Type 0 where
  canceled deadline_exceeded : Code
  invalid_argument not_found already_exists failed_precondition internal : Code

-- `status.Error(code, message)`.
pub record RpcError : Type 0 where
  pub code : Code
  pub message : String

unfoldable pub map_job_error : GoError → RpcError
map_job_error e =
    if errors_is e invalid_request
    then record { code = invalid_argument; message = "invalid request" }
    else if errors_is e job_not_found
    then record { code = not_found; message = "job not found" }
    else if errors_is e job_conflict
    then record {
      code = already_exists;
      message = "idempotency key reused for a different request";
    }
    else if errors_is e job_not_claimed
    then record { code = failed_precondition; message = "job not claimed by this worker" }
    else record { code = internal; message = "internal error" }

-- A handler's response, or the status that it returns.
pub data Response {ℓ} (A : Type ℓ) : Type ℓ where
  answered : A → Response A
  refused : RpcError → Response A

abbrev pub invalid_arg : String → RpcError
invalid_arg message = record { code = invalid_argument; message = message }

abbrev pub respond {ℓ κ} : {A : Type ℓ} {B : Type κ} → (A → B) → Result A → Response B
respond f (ok a) = answered (f a)
respond f (err e) = refused (map_job_error e)
