-- ===== src/Settling/Stale.antt =====
-- The settle of a worker that does not hold the job (internal/core/jobSettle.go).
use service_jobs.Prelude.{
  ◌==◌, true, false, ◌≡◌, refl, List, [], ◌∷◌, Option, none, some, All, Bool-cases, inl, inr,
  if◌then◌else◌, arith, filter,
}
use service_jobs.Prelude.Int.{ℤ}
use service_jobs.Errors.{ok}
use service_jobs.Dao.Job.{Job, JobStatus, RawMessage, succeeded, failed}
use service_jobs.Dao.Table.{Table, Engine, to_jsonb}
use service_jobs.Dao.Settle as DaoSettle
use service_jobs.Dao.Settle.{holds, settle_row}
use service_jobs.Dao.GetById as GetById
use service_jobs.Core.Validate.{Validator}
use service_jobs.Core.Settle.{
  service_job_settle, JobSettleRequest, JobFailure, Session, finish, to_settle, settle, is_mine,
  decide, retry, dispatch, exec, is_valid,
}
use service_jobs.Handlers.Job.{map_job_error}
use service_jobs.Invariant.Exec.{run_query-healthy}
use service_jobs.Settling.{IsHealthySession, NotHeld, update-unheld, not_claimed, IsRefusedWith}

mine-unheld :
    (r : JobSettleRequest) (t : Table)
    → NotHeld r.id r.worker_id t
    → All (λ x. is_mine r x ≡ false) (filter (λ (x : Job). x.id == r.id) t)
mine-unheld r [] h = tt
mine-unheld r (x ∷ xs) h = elim (Bool-cases (x.id == r.id)) [
  | inl hit ↦ rw hit (ground arith, mine-unheld r xs h.1)
  | inr miss ↦ rw miss (mine-unheld r xs h.1)
]

module _ (e : Engine) (retention : ℤ) (r : JobSettleRequest) where
  settle-unheld :
      (s : Session) (t : Table) (status : JobStatus) (result error : RawMessage)
      {result' error' : RawMessage}
      → IsHealthySession s
      → NotHeld r.id r.worker_id t
      → to_jsonb e result ≡ ok result'
      → to_jsonb e error ≡ ok error'
      → IsRefusedWith not_claimed
          (settle (service_job_settle e retention) s.write r status result error t).0
        × ((settle (service_job_settle e retention) s.write r status result error t).1 ≡ t)
  unfolding settle DaoSettle.exec to_settle DaoSettle.statement map_job_error
  settle-unheld s t status result error h unheld p q =
      rw
        (run_query-healthy s.write
          (DaoSettle.statement e s.write.clock (to_settle retention r status result error))
          DaoSettle.conclude t [] t h.writes
          (rw (p) (rw q (update-unheld e r.id r.worker_id t unheld _))))
        (refl, refl)

  decide-unheld :
      (s : Session) (error : RawMessage) (rows : List Job) (base : Table)
      → All (λ x. is_mine r x ≡ false) rows
      → let work =
          decide
            (service_job_settle e retention)
            s.write
            r
            error
            (GetById.conclude (ok rows))
            base in
        IsRefusedWith not_claimed (finish s work.outcome work.base work.changed).0
        × ((finish s work.outcome work.base work.changed).1 ≡ base)
  unfolding decide map_job_error
  decide-unheld s error [] base h = (refl, refl)
  decide-unheld s error (x ∷ rows) base h = rw h.0 (refl, refl)

  retry-unheld :
      (s : Session) (t : Table) (error : RawMessage)
      → IsHealthySession s
      → NotHeld r.id r.worker_id t
      → IsRefusedWith not_claimed (retry (service_job_settle e retention) s r error t).0
        × ((retry (service_job_settle e retention) s r error t).1 ≡ s.between t)
  unfolding retry GetById.exec GetById.statement
  retry-unheld s t error h unheld =
      let rows = filter (λ (x : Job). x.id == r.id) t in
      rw (h.begins, retry)
        (rw
          (run_query-healthy s.read (GetById.statement (record { id = r.id })) GetById.conclude t
            rows t h.reads refl)
          (decide-unheld s error rows (s.between t) (mine-unheld r t unheld)))

-- The table that a settle leaves when it writes nothing.
abbrev pub untouched : Session → Option JobFailure → Table → Table
untouched s none t = t
untouched s (some f) t = if f.retryable then s.between t else t

-- The error that a settle reports, if any.
abbrev pub failure_error : Option JobFailure → RawMessage
failure_error none = none
failure_error (some f) = f.error

dispatch-unheld :
    (e : Engine) (retention : ℤ) (s : Session) (r : JobSettleRequest) (failure : Option JobFailure)
    (t : Table) {result error : RawMessage}
    → IsHealthySession s
    → NotHeld r.id r.worker_id t
    → to_jsonb e r.result ≡ ok result
    → to_jsonb e (failure_error failure) ≡ ok error
    → IsRefusedWith not_claimed (dispatch (service_job_settle e retention) s r failure t).0
      × ((dispatch (service_job_settle e retention) s r failure t).1 ≡ untouched s failure t)
unfolding dispatch
dispatch-unheld e retention s r none t h unheld p q =
    settle-unheld e retention r s t succeeded r.result none h unheld p refl
dispatch-unheld e retention s r (some f) t h unheld p q = elim (Bool-cases f.retryable) [
  | inl again ↦ rw again (retry-unheld e retention r s t f.error h unheld)
  | inr final ↦ rw final (settle-unheld e retention r s t failed none f.error h unheld refl q)
]

-- A valid settle, reporting JSON and answered by the database, by a worker that holds no claim on the
-- job is answered with FAILED_PRECONDITION and writes nothing: the table is as it was or, for a retryable failure, as
-- other sessions left it meanwhile.
pub stale_settle :
    (v : Validator) (e : Engine) (retention : ℤ) (s : Session) (r : JobSettleRequest) (t : Table)
    {result error : RawMessage}
    → is_valid v r ≡ true
    → IsHealthySession s
    → to_jsonb e r.result ≡ ok result
    → to_jsonb e (failure_error r.failure) ≡ ok error
    → NotHeld r.id r.worker_id t
    → IsRefusedWith not_claimed (exec v e retention s r t).0
      × ((exec v e retention s r t).1 ≡ untouched s r.failure t)
unfolding exec
stale_settle v e retention s r t valid h p q unheld =
    rw valid (dispatch-unheld e retention s r r.failure t h unheld p q)
