-- ===== src/Core/Job.antt =====
-- The job as the business layer sees it (internal/core/job.go).
use service_jobs.Prelude.{ℕ, Option, String}
use service_jobs.Dao.Job as DaoJob
use service_jobs.Dao.Job.{JobStatus, Bytes, RawMessage}

pub record Job : Type 0 where
  pub id : ℕ
  pub kind : String
  pub payload : Bytes
  pub owner_id : ℕ
  pub status : JobStatus
  pub attempt : ℕ
  pub max_attempts : ℕ
  pub result : RawMessage
  pub error : RawMessage
  pub provider_call_id : Option String
  pub created_at : ℕ
  pub updated_at : ℕ
  pub settled_at : Option ℕ
  pub expires_at : Option ℕ

-- The row without the fingerprint, the key and the lease.
unfoldable pub job_to_core : DaoJob.Job → Job
job_to_core entity = record {
  id = entity.id;
  kind = entity.kind;
  payload = entity.payload;
  owner_id = entity.owner_id;
  status = entity.status;
  attempt = entity.attempt;
  max_attempts = entity.max_attempts;
  result = entity.result;
  error = entity.error;
  provider_call_id = entity.provider_call_id;
  created_at = entity.created_at;
  updated_at = entity.updated_at;
  settled_at = entity.settled_at;
  expires_at = entity.expires_at;
}
