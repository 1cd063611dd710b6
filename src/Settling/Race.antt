-- ===== src/Settling/Race.antt =====
-- A retryable failure whose claim is recovered between its read and its write: the read takes no
-- lock, so the transaction does not keep the reaper out (internal/core/jobSettle.go,
-- internal/dao/pg.jobGetByID.sql).
use service_jobs.Prelude.{true, ◌≡◌, refl, [], none, some, Memᴰ, Bool-cases, inl, inr, arith, ltb}
use service_jobs.Prelude.Int.{ℤ}
use service_jobs.Errors.{ok}
use service_jobs.Dao.Job.{Job, RawMessage, failed}
use service_jobs.Dao.Table.{Table, Engine, to_jsonb}
use service_jobs.Dao.Settle as DaoSettle
use service_jobs.Dao.Settle.{holds, settle_row}
use service_jobs.Dao.Requeue as DaoRequeue
use service_jobs.Dao.Requeue.{requeue_row}
use service_jobs.Core.Validate.{Validator}
use service_jobs.Core.Settle.{
  service_job_settle, JobSettleRequest, JobFailure, Session, finish, to_settle, give_back, is_mine,
  decide, retry, dispatch, exec, is_valid,
}
use service_jobs.Handlers.Job.{map_job_error, RpcError, internal}
use service_jobs.Invariant.{IsWellFormed}
use service_jobs.Invariant.Exec.{run_query-healthy}
use service_jobs.Settling.{IsHealthySession, NotHeld, update-unheld, IsRefusedWith}
use service_jobs.Settling.Held.{read-held}

abbrev pub internal_error : RpcError
internal_error = record { code = internal; message = "internal error" }

module _ (e : Engine) (retention : ℤ) (r : JobSettleRequest) (s : Session) (error : RawMessage)
    {error' : RawMessage} (base : Table) (h : IsHealthySession s)
    (lost : NotHeld r.id r.worker_id base) (json : to_jsonb e error ≡ ok error') where
  -- The write finds no row under its guard.
  give_back-lost :
      (j : Job)
      → let work = give_back (service_job_settle e retention) s.write r error j base in
        IsRefusedWith internal_error (finish s work.outcome work.base work.changed).0
        × ((finish s work.outcome work.base work.changed).1 ≡ base)
  unfolding give_back DaoRequeue.exec DaoRequeue.statement DaoSettle.exec DaoSettle.statement
      to_settle map_job_error
  give_back-lost j = elim (Bool-cases (ltb j.attempt j.max_attempts)) [
    | inl left ↦
        rw
          (
            left,
            run_query-healthy s.write
                (DaoRequeue.statement s.write.clock (record { id = r.id; worker_id = r.worker_id }))
                DaoRequeue.conclude base [] base h.writes
                (update-unheld e r.id r.worker_id base lost (requeue_row s.write.clock)),
          )
          (refl, refl)
    | inr spent ↦
        let request = to_settle retention r failed none error in
        rw
          (
            spent,
            run_query-healthy s.write (DaoSettle.statement e s.write.clock request)
                DaoSettle.conclude base [] base h.writes
                (rw json (update-unheld e r.id r.worker_id base lost _)),
          )
          (refl, refl)
  ]

-- Let the holder of a job of a well-formed table make a valid report of a retryable failure, with JSON
-- in it and answered by the database. When other sessions take the job away between the read and
-- the write, the write changes nothing, so what they left stands, and the worker is answered INTERNAL.
pub retry_race :
    (v : Validator) (e : Engine) (retention : ℤ) (s : Session) (r : JobSettleRequest) (t : Table)
    (j : Job) (f : JobFailure) {error : RawMessage}
    → is_valid v r ≡ true
    → r.failure ≡ some f
    → f.retryable ≡ true
    → IsWellFormed t
    → IsHealthySession s
    → to_jsonb e f.error ≡ ok error
    → Memᴰ j t
    → holds r.id r.worker_id j ≡ true
    → NotHeld r.id r.worker_id (s.between t)
    → IsRefusedWith internal_error (exec v e retention s r t).0
      × ((exec v e retention s r t).1 ≡ s.between t)
unfolding exec dispatch retry decide
retry_race v e retention s r t j f valid report again w h json m mine lost =
    let own : is_mine r j ≡ true = ground arith in
    rw (valid, report, again, h.begins)
      (rw (read-held e retention r j t w m mine s h, own)
        (give_back-lost e retention r s f.error (s.between t) h lost json j))
