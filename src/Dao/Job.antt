-- ===== src/Dao/Job.antt =====
-- The row of the jobs table (internal/dao/pg.job.go). Identifiers are the 128-bit values of the
-- UUIDs, and timestamps count microseconds from the start of the database's range.
use service_jobs.Prelude.{ℕ, ◌-◌, ◌+◌, ◌*◌, Bool, true, false, List, Option, String}
use service_jobs.Prelude.Int.{ℤ, pos, negsuc}

pub data JobStatus : Type 0 where
  pending claimed succeeded failed abandoned cancelled : JobStatus

abbrev pub Bytes : Type 0
Bytes = List ℕ

-- `json.RawMessage`: a nil slice is `none`, an empty one is `some []`.
abbrev pub RawMessage : Type 0
RawMessage = Option Bytes

pub record Job : Type 0 where
  pub id : ℕ
  pub kind : String
  pub payload : Bytes
  pub owner_id : ℕ
  pub idempotency_key : Option String
  pub request_fingerprint : Bytes
  pub status : JobStatus
  pub attempt : ℕ
  pub max_attempts : ℕ
  pub run_at : ℕ
  pub lease_expires_at : Option ℕ
  pub claimed_by : Option String
  pub cancel_requested_at : Option ℕ
  pub provider_call_id : Option String
  pub result : RawMessage
  pub error : RawMessage
  pub created_at : ℕ
  pub updated_at : ℕ
  pub settled_at : Option ℕ
  pub expires_at : Option ℕ

abbrev pub is_pending : JobStatus → Bool
is_pending pending = true
is_pending _ = false

abbrev pub is_claimed : JobStatus → Bool
is_claimed claimed = true
is_claimed _ = false

-- The four statuses of the jobs_terminal_fields constraint.
abbrev pub is_terminal : JobStatus → Bool
is_terminal pending = false
is_terminal claimed = false
is_terminal _ = true

-- `t + make_interval(secs => n)`.
abbrev pub add_seconds : ℕ → ℤ → ℕ
add_seconds t (pos n) = t + n * 1000000
add_seconds t (negsuc n) = t - (n + 1) * 1000000

-- `t + make_interval(days => n)`, in a session whose time zone is UTC.
abbrev pub add_days : ℕ → ℤ → ℕ
add_days t (pos n) = t + n * 86400000000
add_days t (negsuc n) = t - (n + 1) * 86400000000
