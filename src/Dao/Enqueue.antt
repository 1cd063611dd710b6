-- ===== src/Dao/Enqueue.antt =====
-- Recording a job (internal/dao/pg.jobEnqueue.go and pg.jobEnqueue.sql).
use service_jobs.Prelude.{
  ℕ, ◌==◌, Bool, false, ◌&&◌, [], ◌∷◌, ◌++◌, Option, none, some, String, str_eq, if◌then◌else◌,
  find?, any,
}
use service_jobs.Prelude.Int.{ℤ, pos, negsuc}
use service_jobs.Errors.{Result, ok, err, foreign, ◌>>=◌}
use service_jobs.Dao.Job.{Job, Bytes, RawMessage, pending}
use service_jobs.Dao.Table.{Table, Readings, Engine, satisfies_checks, to_jsonb}
use service_jobs.Dao.Exec.{Call, Statement, run_query, query_error}

pub record JobEnqueueRequest : Type 0 where
  pub id : ℕ
  pub kind : String
  pub payload : RawMessage
  pub owner_id : ℕ
  pub idempotency_key : Option String
  pub request_fingerprint : Bytes
  pub max_attempts : ℤ

-- Equal keys of the partial unique index: a null equals nothing.
abbrev pub same_key : Option String → Option String → Bool
same_key (some a) (some b) = str_eq a b
same_key (some a) none = false
same_key none b = false

-- `ON CONFLICT (owner_id, kind, idempotency_key) WHERE idempotency_key IS NOT NULL`.
abbrev pub conflicts : ℕ → String → Option String → Job → Bool
conflicts owner kind key j =
    j.owner_id == owner && str_eq j.kind kind && same_key key j.idempotency_key

-- The row that VALUES and the column defaults make.
unfoldable pub new_row : Readings → JobEnqueueRequest → Bytes → ℕ → Job
new_row clock r payload max_attempts = record {
  id = r.id;
  kind = r.kind;
  payload = payload;
  owner_id = r.owner_id;
  idempotency_key = r.idempotency_key;
  request_fingerprint = r.request_fingerprint;
  status = pending;
  attempt = 0;
  max_attempts = max_attempts;
  run_at = clock r.id 0;
  lease_expires_at = none;
  claimed_by = none;
  cancel_requested_at = none;
  provider_call_id = none;
  result = none;
  error = none;
  created_at = clock r.id 1;
  updated_at = clock r.id 2;
  settled_at = none;
  expires_at = none;
}

-- The NOT NULL payload.
abbrev pub not_null : RawMessage → Result Bytes
not_null none = err (foreign "null value in column payload")
not_null (some b) = ok b

-- `CHECK (max_attempts >= 1)` on a value below zero.
abbrev pub natural : ℤ → Result ℕ
natural (pos n) = ok n
natural (negsuc n) = err (foreign "violates check constraint")

-- The conflict's DO UPDATE writes back the key that the row has, so the row stays as it is.
abbrev pub resolve : Job → Table → Option Job → Result (Job × Table)
resolve j t (some old) = ok (old, t)
resolve j t none =
    if any (λ x. x.id == j.id) t
    then err (foreign "violates unique constraint")
    else ok (j, t ++ j ∷ [])

abbrev pub insert : Job → Table → Result (Job × Table)
insert j t = resolve j t (find? (conflicts j.owner_id j.kind j.idempotency_key) t)

abbrev pub check_row : Job → Result Job
check_row row = if satisfies_checks row then ok row else err (foreign "violates check constraint")

-- The proposed row: its parameters converted, its constraints checked before any conflict.
unfoldable pub propose : Engine → Readings → JobEnqueueRequest → Result Job
propose e clock r = do
  json ← to_jsonb e r.payload
  payload ← not_null json
  max_attempts ← natural r.max_attempts
  check_row (new_row clock r payload max_attempts)

unfoldable pub statement : Engine → Readings → JobEnqueueRequest → Statement Job
unfolding propose new_row satisfies_checks
statement e clock r t = do row ← propose e clock r; insert row t

-- The Exec method.
unfoldable pub exec : Engine → Call → JobEnqueueRequest → Table → Result Job × Table
unfolding statement run_query
exec e c r = run_query c (statement e c.clock r) query_error

-- NewJobEnqueue: an object of the empty struct is its method.
abbrev pub new_job_enqueue : Engine → Call → JobEnqueueRequest → Table → Result Job × Table
new_job_enqueue = exec
