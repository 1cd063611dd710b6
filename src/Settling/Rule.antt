-- ===== src/Settling/Rule.antt =====
-- A rule for what a settle leaves (internal/core/jobSettle.go): a predicate holds of the table
-- afterwards if it holds of the tables before its writes and each write establishes it.
use service_jobs.Prelude.{
  ◌≡◌, ◌<◌, ◌⊎◌, inl, inr, refl, true, List, Option, none, some, Memᴰ, Bool-cases, Option-cases,
  arith, ltb, ltb→lt,
}
use service_jobs.Prelude.Int.{ℤ}
use service_jobs.Errors.{Result, ok, err}
use service_jobs.Dao.Job.{Job, JobStatus, RawMessage, succeeded, failed}
use service_jobs.Dao.Table.{Table, Engine}
use service_jobs.Dao.Settle as DaoSettle
use service_jobs.Dao.Settle.{holds}
use service_jobs.Dao.Requeue as DaoRequeue
use service_jobs.Dao.GetById as GetById
use service_jobs.Core.Validate.{Validator}
use service_jobs.Core.Job as CoreJob
use service_jobs.Core.Settle.{
  service_job_settle, JobSettleRequest, JobFailure, Session, finish, to_settle, settle, give_back,
  is_mine, decide, retry, dispatch, exec, is_valid,
}
use service_jobs.Invariant.Exec.{run_query-keeps}
use service_jobs.Invariant.Retry.{get_by_id-reads, get_by_id-eq_ok}

module _ {κ} (P : Table → Type κ) (e : Engine) (retention : ℤ) (s : Session) (r : JobSettleRequest)
    (t : Table) where
  -- A settle of a table as the service asks for it establishes the predicate.
  abbrev pub Settles : Table → Type κ
  Settles base =
      (status : JobStatus) (result error : RawMessage)
      → (status ≡ succeeded) ⊎ (status ≡ failed)
      → (rows : List Job) (u : Table)
      → DaoSettle.statement e s.write.clock (to_settle retention r status result error) base
        ≡ ok (rows, u)
      → P u

  -- So does a requeue after a read that found a run left.
  abbrev pub Requeues : Type κ
  Requeues =
      (j : Job)
      → Memᴰ j t
      → holds r.id r.worker_id j ≡ true
      → j.attempt < j.max_attempts
      → (rows : List Job) (u : Table)
      → DaoRequeue.statement s.write.clock (record { id = r.id; worker_id = r.worker_id })
          (s.between t)
        ≡ ok (rows, u)
      → P u

  finish-rule :
      (outcome : Result CoreJob.Job) (base changed : Table)
      → P base
      → P changed
      → P (finish s outcome base changed).1
  finish-rule (err x) base changed pb pc = pb
  finish-rule (ok job) base changed pb pc = elim (Option-cases s.commit_refused) [
    | inr (x, p) ↦ rw (p, finish) pb
    | inl p ↦ elim (Option-cases s.commit_lost) [
      | inr (x, q) ↦ rw (p, q, finish) pc
      | inl q ↦ rw (p, q, finish) pc
    ]
  ]

  dao_settle-rule :
      (base : Table) (status : JobStatus) (result error : RawMessage)
      → (status ≡ succeeded) ⊎ (status ≡ failed)
      → P base
      → Settles base
      → P (DaoSettle.exec e s.write (to_settle retention r status result error) base).1
  unfolding DaoSettle.exec
  dao_settle-rule base status result error how p settles =
      run_query-keeps P s.write
        (DaoSettle.statement e s.write.clock (to_settle retention r status result error))
        DaoSettle.conclude base p (settles status result error how)

  decide-rule :
      (error : RawMessage) (read : Result Job)
      → ((j : Job) → read ≡ ok j → Memᴰ j t × (j.id ≡ r.id))
      → P (s.between t)
      → Settles (s.between t)
      → Requeues
      → let work = decide (service_job_settle e retention) s.write r error read (s.between t) in
        P work.base × P work.changed
  unfolding decide give_back DaoRequeue.exec
  decide-rule error (err x) found p settles requeues = (p, p)
  decide-rule error (ok j) found p settles requeues = elim (Bool-cases (is_mine r j)) [
    | inr other ↦ rw other (p, p)
    | inl mine ↦ elim (Bool-cases (ltb j.attempt j.max_attempts)) [
      | inl left ↦
          let (m, id) = found j refl in
          let q : DaoRequeue.JobRequeueRequest = record { id = r.id; worker_id = r.worker_id } in
          let done =
            run_query-keeps P s.write (DaoRequeue.statement s.write.clock q) DaoRequeue.conclude
              (s.between t) p
              (requeues j m (ground arith) (ltb→lt j.attempt j.max_attempts left)) in
          rw (mine, left) (p, done)
      | inr spent ↦
          rw (mine, spent) (p, dao_settle-rule (s.between t) failed none error (inr refl) p settles)
    ]
  ]

  retry-rule :
      (error : RawMessage)
      → P t
      → P (s.between t)
      → Settles (s.between t)
      → Requeues
      → P (retry (service_job_settle e retention) s r error t).1
  unfolding retry
  retry-rule error p pb settles requeues = elim (Option-cases s.begin_failed) [
    | inr (x, q) ↦ rw (q, retry) p
    | inl q ↦
        let read = GetById.exec s.read (record { id = r.id }) t in
        let kept = get_by_id-reads s.read (record { id = r.id }) t in
        let work = decide (service_job_settle e retention) s.write r error read.0 (s.between t) in
        let (wb, wc) =
          decide-rule error read.0 (get_by_id-eq_ok s.read (record { id = r.id }) t) pb settles
            requeues in
        rw (q, retry) (rw kept (finish-rule work.outcome work.base work.changed wb wc))
  ]

  dispatch-rule :
      (failure : Option JobFailure)
      → P t
      → P (s.between t)
      → Settles t
      → Settles (s.between t)
      → Requeues
      → P (dispatch (service_job_settle e retention) s r failure t).1
  unfolding dispatch settle
  dispatch-rule none p pb now later requeues =
      dao_settle-rule t succeeded r.result none (inl refl) p now
  dispatch-rule (some f) p pb now later requeues = elim (Bool-cases f.retryable) [
    | inl again ↦ rw again (retry-rule f.error p pb later requeues)
    | inr final ↦ rw final (dao_settle-rule t failed none f.error (inr refl) p now)
  ]

  pub settle_rule :
      (v : Validator)
      → P t
      → P (s.between t)
      → Settles t
      → Settles (s.between t)
      → Requeues
      → P (exec v e retention s r t).1
  unfolding exec
  settle_rule v p pb now later requeues = elim (Bool-cases (is_valid v r)) [
    | inl valid ↦ rw valid (dispatch-rule r.failure p pb now later requeues)
    | inr invalid ↦ rw invalid p
  ]
