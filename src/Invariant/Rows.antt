-- ===== src/Invariant/Rows.antt =====
-- The SET of each statement on a sound row (internal/dao/pg.job*.sql).
use service_jobs.Prelude.{◌≡◌, refl, true, ◌<◌, is_set, String, arith}
use service_jobs.Prelude.Int.{ℤ}
use service_jobs.Dao.Job.{Job, JobStatus, RawMessage, is_pending, is_claimed, is_terminal}
use service_jobs.Dao.Table.{Readings}
use service_jobs.Dao.Claim.{claim_row}
use service_jobs.Dao.Settle.{JobSettleRequest, settle_row}
use service_jobs.Dao.Requeue.{requeue_row}
use service_jobs.Dao.Reap.{reap_row}
use service_jobs.Invariant.{IsSound, is_succeeded, is_unsuccessful}
use service_jobs.Invariant.Update.{KeepsIdentity}

-- What a settle may write: a terminal status with the field that belongs to it.
pub record IsOutcome (status : JobStatus) (result error : RawMessage) : Type 0 where
  pub terminal : is_terminal status ≡ true
  pub result_fits : is_set result ≡ true → is_succeeded status ≡ true
  pub error_fits : is_set error ≡ true → is_unsuccessful status ≡ true

pub claim_row-IsSound :
    (clock : Readings) (worker : String) (lease : ℤ) (j : Job)
    → is_pending j.status ≡ true
    → IsSound j
    → IsSound (claim_row clock worker lease j)
unfolding claim_row
claim_row-IsSound clock worker lease j h s = ground arith

pub settle_row-IsSound :
    (clock : Readings) (r : JobSettleRequest) (result error : RawMessage) (j : Job)
    → IsOutcome r.status result error
    → is_claimed j.status ≡ true
    → IsSound j
    → IsSound (settle_row clock r result error j)
unfolding settle_row
settle_row-IsSound clock r result error j o h s = ground arith

pub requeue_row-IsSound :
    (clock : Readings) (j : Job)
    → is_claimed j.status ≡ true
    → j.attempt < j.max_attempts
    → IsSound j
    → IsSound (requeue_row clock j)
unfolding requeue_row
requeue_row-IsSound clock j h left s = ground arith

pub reap_row-IsSound :
    (clock : Readings) (error : RawMessage) (retention : ℤ) (j : Job)
    → is_claimed j.status ≡ true
    → IsSound j
    → IsSound (reap_row clock error retention j)
unfolding reap_row
reap_row-IsSound clock error retention j h s = ground arith

pub claim_row-KeepsIdentity :
    (clock : Readings) (worker : String) (lease : ℤ) → KeepsIdentity (claim_row clock worker lease)
unfolding claim_row
claim_row-KeepsIdentity clock worker lease = record {
  id = λ j. refl;
  owner = λ j. refl;
  kind = λ j. refl;
  key = λ j. refl;
}

pub settle_row-KeepsIdentity :
    (clock : Readings) (r : JobSettleRequest) (result error : RawMessage)
    → KeepsIdentity (settle_row clock r result error)
unfolding settle_row
settle_row-KeepsIdentity clock r result error = record {
  id = λ j. refl;
  owner = λ j. refl;
  kind = λ j. refl;
  key = λ j. refl;
}

pub requeue_row-KeepsIdentity : (clock : Readings) → KeepsIdentity (requeue_row clock)
unfolding requeue_row
requeue_row-KeepsIdentity clock = record {
  id = λ j. refl;
  owner = λ j. refl;
  kind = λ j. refl;
  key = λ j. refl;
}

pub reap_row-KeepsIdentity :
    (clock : Readings) (error : RawMessage) (retention : ℤ)
    → KeepsIdentity (reap_row clock error retention)
unfolding reap_row
reap_row-KeepsIdentity clock error retention = record {
  id = λ j. refl;
  owner = λ j. refl;
  kind = λ j. refl;
  key = λ j. refl;
}
