-- ===== src/Handlers/Enqueue.antt =====
-- The JobEnqueue RPC (internal/handlers/grpc.jobEnqueue.go).
use service_jobs.Prelude.{ℕ, ◌-◌, ◌%◌, Bool, ◌||◌, Option, String, ltb, if◌then◌else◌}
use service_jobs.Prelude.Int.{ℤ, pos, negsuc, ltb_ℤ}
use service_jobs.Errors.{Result, ok, err}
use service_jobs.Dao.Job.{RawMessage}
use service_jobs.Dao.Table.{max_int16}
use service_jobs.Core.Enqueue as Core
use service_jobs.Handlers.Job.{
  Formats, ProtoJob, job_to_proto, Response, refused, invalid_arg, respond,
}

-- protogen.JobEnqueueRequest; `max_attempts` is an int32.
pub record JobEnqueueRequest : Type 0 where
  pub kind : String
  pub payload : RawMessage
  pub owner_id : String
  pub idempotency_key : Option String
  pub max_attempts : ℤ

pub record JobEnqueueResponse : Type 0 where
  pub job : ProtoJob
  pub created : Bool

-- The low 16 bits of a two's complement number.
abbrev pub low_16 : ℤ → ℕ
low_16 (pos n) = n % 65536
low_16 (negsuc n) = 65535 - n % 65536

-- The conversion `int16(…)`, which keeps the low 16 bits.
unfoldable pub to_int16 : ℤ → ℤ
to_int16 z = let m = low_16 z in if ltb m 32768 then pos m else negsuc (65535 - m)

unfoldable pub to_core : JobEnqueueRequest → ℕ → Core.JobEnqueueRequest
to_core r owner = record {
  kind = r.kind;
  payload = r.payload;
  owner_id = owner;
  idempotency_key = r.idempotency_key;
  max_attempts = to_int16 r.max_attempts;
}

abbrev pub to_response : Formats → Core.JobEnqueueResult → JobEnqueueResponse
to_response f result = record { job = job_to_proto f result.job; created = result.created }

-- `GetMaxAttempts() < 0 || GetMaxAttempts() > math.MaxInt16`.
abbrev pub out_of_range : ℤ → Bool
out_of_range n = ltb_ℤ n (pos 0) || ltb_ℤ (pos max_int16) n

-- The service behind the handler, on a state of its own.
abbrev pub EnqueueService : Type 0 → Type 0
EnqueueService S = Core.JobEnqueueRequest → S → Result Core.JobEnqueueResult × S

-- The struct, and NewJobEnqueue.
pub record JobEnqueue (S : Type 0) : Type 0 where
  pub service : EnqueueService S

abbrev pub new_job_enqueue : {S : Type 0} → EnqueueService S → JobEnqueue S
new_job_enqueue service = record { service = service }

module _ {S : Type 0} where
  abbrev pub with_owner :
      Formats
      → EnqueueService S
      → JobEnqueueRequest
      → Result ℕ
      → S
      → Response JobEnqueueResponse × S
  with_owner f service r (err e) s = (refused (invalid_arg "invalid owner id"), s)
  with_owner f service r (ok owner) s =
      let (result, s') = service (to_core r owner) s in
      if out_of_range r.max_attempts
      then (refused (invalid_arg "invalid max attempts"), s)
      else (respond (to_response f) result, s')

  unfoldable pub job_enqueue :
      Formats → EnqueueService S → JobEnqueueRequest → S → Response JobEnqueueResponse × S
  job_enqueue f service r s = with_owner f service r (f.uuid_parse r.owner_id) s
