-- ===== src/Core/Enqueue.antt =====
-- Recording a job once for each idempotency key (internal/core/jobEnqueue.go). SHA-256 and the UUID
-- generator are parameters.
use service_jobs.Prelude.{
  ℕ, ◌==◌, Bool, not, ◌&&◌, [], ◌∷◌, Option, none, some, String, if◌then◌else◌, bytes_eq,
}
use service_jobs.Prelude.Int.{ℤ, pos, negsuc}
use service_jobs.Errors.{Result, ok, err, wrap, sentinel, job_conflict}
use service_jobs.Dao.Job as DaoJob
use service_jobs.Dao.Job.{Bytes, RawMessage}
use service_jobs.Dao.Table.{Table, Engine}
use service_jobs.Dao.Exec.{Call}
use service_jobs.Dao.Enqueue as DaoEnqueue
use service_jobs.Core.Validate.{Validator, validate_not_blank, invalid}
use service_jobs.Core.Job.{Job, job_to_core}

pub record JobEnqueueRequest : Type 0 where
  pub kind : String
  pub payload : RawMessage
  pub owner_id : ℕ
  pub idempotency_key : Option String
  pub max_attempts : ℤ

pub record JobEnqueueResult : Type 0 where
  pub job : Job
  pub created : Bool

-- The tags of the request.
unfoldable pub is_valid : Validator → JobEnqueueRequest → Bool
is_valid v r =
    v.required_text r.kind
    && validate_not_blank r.kind
    && v.required_id r.owner_id
    && v.gte_zero r.max_attempts

-- `{}` for a payload of no bytes.
abbrev pub payload_or : RawMessage → Bytes
payload_or none = b'{' ∷ b'}' ∷ []
payload_or (some []) = b'{' ∷ b'}' ∷ []
payload_or (some (b ∷ bs)) = b ∷ bs

abbrev pub fingerprint_of : (Bytes → Bytes) → RawMessage → Bytes
fingerprint_of sha256 payload = sha256 (payload_or payload)

-- One attempt for a zero.
abbrev pub attempts_or_one : ℤ → ℤ
attempts_or_one (pos n) = pos (if n == 0 then 1 else n)
attempts_or_one (negsuc n) = negsuc n

unfoldable pub to_dao : (Bytes → Bytes) → ℕ → JobEnqueueRequest → DaoEnqueue.JobEnqueueRequest
to_dao sha256 id r = record {
  id = id;
  kind = r.kind;
  payload = some (payload_or r.payload);
  owner_id = r.owner_id;
  idempotency_key = r.idempotency_key;
  request_fingerprint = fingerprint_of sha256 r.payload;
  max_attempts = attempts_or_one r.max_attempts;
}

-- A row under the same key with another fingerprint is a conflict.
abbrev pub conclude : ℕ → Bytes → Result DaoJob.Job → Result JobEnqueueResult
conclude id fingerprint (err e) = err (wrap "enqueue job" e)
conclude id fingerprint (ok entity) =
    let created = entity.id == id in
    if not created && not (bytes_eq entity.request_fingerprint fingerprint)
    then err (sentinel job_conflict)
    else ok (record { job = job_to_core entity; created = created })

-- The interface of the DAO, whose store is S.
abbrev pub JobEnqueueDao : Type 0 → Type 0
JobEnqueueDao S = Call → DaoEnqueue.JobEnqueueRequest → S → Result DaoJob.Job × S

-- The struct, and NewJobEnqueue.
pub record JobEnqueue (S : Type 0) : Type 0 where
  pub dao : JobEnqueueDao S

abbrev pub new_job_enqueue : {S : Type 0} → JobEnqueueDao S → JobEnqueue S
new_job_enqueue dao = record { dao = dao }

module _ {S : Type 0} (service : JobEnqueue S) where
  -- The Exec method after the validation; `minted` is what `uuid.NewV7` returns.
  abbrev pub enqueue_minted :
      (Bytes → Bytes) → Result ℕ → Call → JobEnqueueRequest → S → Result JobEnqueueResult × S
  enqueue_minted sha256 (err x) c r s = (err (wrap "generate id" x), s)
  enqueue_minted sha256 (ok id) c r s =
      let (entity, u) = service.dao c (to_dao sha256 id r) s in
      (conclude id (fingerprint_of sha256 r.payload) entity, u)

  -- The Exec method of a service.
  abbrev pub exec_of :
      Validator
      → (Bytes → Bytes)
      → Result ℕ
      → Call
      → JobEnqueueRequest
      → S
      → Result JobEnqueueResult × S
  unfolding is_valid
  exec_of v sha256 minted c r s =
      if is_valid v r then enqueue_minted sha256 minted c r s else (err (invalid v), s)

-- The service that main makes.
abbrev pub service_job_enqueue : Engine → JobEnqueue Table
service_job_enqueue e = new_job_enqueue (DaoEnqueue.new_job_enqueue e)

-- Its Exec method.
unfoldable pub exec :
    Validator
    → (Bytes → Bytes)
    → Engine
    → Result ℕ
    → Call
    → JobEnqueueRequest
    → Table
    → Result JobEnqueueResult × Table
unfolding is_valid
exec v sha256 e = exec_of (service_job_enqueue e) v sha256
