-- ===== src/Settling.antt =====
-- Who may settle a job, and what becomes of it (internal/core/jobSettle.go).
pub mod Stale
pub mod Held
pub mod Race
pub mod Rule
use service_jobs.Prelude.{
  ℕ, ◌==◌, Bool, true, false, not, ◌≡◌, refl, List, [], ◌∷◌, Option, none, some, String, Memᴰ, All,
  All-imp, Bool-cases, inl, inr, if◌then◌else◌, arith, ltb, map, filter, find?,
}
use service_jobs.Prelude.Int.{ℤ}
use service_jobs.Errors.{GoError, Result, ok, err, errors_is, sentinel, job_not_claimed}
use service_jobs.Dao.Job.{Job, JobStatus, RawMessage, succeeded, failed}
use service_jobs.Dao.Table.{Table, Engine, to_jsonb, written, update_where}
use service_jobs.Dao.Settle as DaoSettle
use service_jobs.Dao.Settle.{holds, settle_row}
use service_jobs.Dao.Requeue as DaoRequeue
use service_jobs.Dao.Requeue.{requeue_row}
use service_jobs.Dao.GetById as GetById
use service_jobs.Core.Validate.{Validator}
use service_jobs.Core.Job as CoreJob
use service_jobs.Core.Job.{job_to_core}
use service_jobs.Core.Settle.{
  JobSettleRequest, JobFailure, Session, Work, within_tx, finish, to_settle, settle, give_back,
  is_mine, decide, retry, dispatch, exec, is_valid,
}
use service_jobs.Handlers.Job.{map_job_error, RpcError, failed_precondition, internal}
use service_jobs.Invariant.{IsWellFormed, IsSound}
use service_jobs.Invariant.Exec.{IsHealthy, run_query-healthy, run_query-failing}
use service_jobs.Invariant.Rows.{IsOutcome, settle_row-IsSound, requeue_row-IsSound}
use service_jobs.Invariant.Update.{update_where-accepted}
use service_jobs.Invariant.Written.{filter_none, filter-holds, written_none}
use service_jobs.Invariant.Statements.{holds-claimed}

-- A session whose statements and transaction the database carries out.
pub record IsHealthySession (s : Session) : Type 0 where
  pub reads : IsHealthy s.read
  pub writes : IsHealthy s.write
  pub begins : s.begin_failed ≡ none
  pub commits : s.commit_refused ≡ none
  pub confirms : s.commit_lost ≡ none

-- No job of the table is the worker's to settle.
abbrev pub NotHeld : ℕ → String → Table → Type 0
NotHeld id worker t = All (λ j. holds id worker j ≡ false) t

module _ (e : Engine) (id : ℕ) (worker : String) (t : Table) (unheld : NotHeld id worker t) where
  pub update-unheld : (f : Job → Job) → update_where (holds id worker) f t ≡ ok ([], t)
  unfolding update_where
  update-unheld f =
      rw (filter_none (holds id worker) t unheld, written_none (holds id worker) f t unheld)

module _ (id : ℕ) (worker : String) (t : Table) (j : Job) (w : IsWellFormed t) (m : Memᴰ j t)
    (mine : holds id worker j ≡ true) where
  -- An update under the guard returns the one row that the worker holds.
  pub update-held :
      (f : Job → Job)
      → ((x : Job) → Memᴰ x t → holds id worker x ≡ true → IsSound x → IsSound (f x))
      → update_where (holds id worker) f t ≡ ok (f j ∷ [], written (holds id worker) f t)
  update-held f step = rw (
    update_where-accepted (holds id worker) f t w.sound step,
    filter-holds id worker t j w.ids_differ m mine,
  )

-- The answer FAILED_PRECONDITION, which tells a worker that the job is not its own.
abbrev pub not_claimed : RpcError
not_claimed = record { code = failed_precondition; message = "job not claimed by this worker" }

abbrev pub IsRefusedWith {ℓ} : {A : Type ℓ} → RpcError → Result A → Type 0
IsRefusedWith status (ok a) = ⊥
IsRefusedWith status (err x) = map_job_error x ≡ status
