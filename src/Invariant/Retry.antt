-- ===== src/Invariant/Retry.antt =====
-- The settle of internal/core/jobSettle.go and the well-formedness of the jobs table, with what other
-- sessions commit between its read and its write.
use service_jobs.Prelude.{
  ◌==◌, ==_iff, true, ◌≡◌, refl, List, [], ◌∷◌, Option, none, some, Memᴰ, mem-filter, filter,
  Bool-cases, Option-cases, inl, inr, arith, ltb, ltb→lt,
}
use service_jobs.Prelude.Int.{ℤ}
use service_jobs.Errors.{Result, ok, err, Sentinel, job_get_by_id_not_found}
use service_jobs.Dao.Job.{Job, JobStatus, RawMessage, succeeded, failed}
use service_jobs.Dao.Table.{Table, Engine}
use service_jobs.Dao.Exec.{Call, one_row, join_no_rows, query_error}
use service_jobs.Dao.Settle.{holds}
use service_jobs.Dao.GetById as GetById
use service_jobs.Core.Validate.{Validator}
use service_jobs.Core.Settle.{
  service_job_settle, JobSettleRequest, JobFailure, Session, finish, to_settle, settle, give_back,
  is_mine, decide, retry, dispatch, exec, is_valid,
}
use service_jobs.Core.Job as CoreJob
use service_jobs.Invariant.Exec.{run_query-eq_ok}
use service_jobs.Invariant.{IsWellFormed}
use service_jobs.Invariant.Rows.{IsOutcome}
use service_jobs.Invariant.Services.{dao_settle-keeps, dao_requeue-keeps}

one_row-mem :
    (rows : List Job) (s : Sentinel) (j : Job)
    → query_error (join_no_rows s (one_row (ok rows))) ≡ ok j
    → Memᴰ j rows
one_row-mem [] s j h = cc
one_row-mem (x ∷ rows) s j h = Memᴰ.head cc

-- The read by id changes nothing, and what it returns is a row with that id.
pub get_by_id-reads :
    (c : Call) (r : GetById.JobGetByIdRequest) (t : Table) → (GetById.exec c r t).1 ≡ t
unfolding GetById.exec
get_by_id-reads c r t = ground arith

pub get_by_id-eq_ok :
    (c : Call) (r : GetById.JobGetByIdRequest) (t : Table) (j : Job)
    → (GetById.exec c r t).0 ≡ ok j
    → Memᴰ j t × (j.id ≡ r.id)
unfolding GetById.exec
get_by_id-eq_ok c r t j h =
    let (rows, answered, one) =
      run_query-eq_ok c (GetById.statement r) GetById.conclude t j (λ e. ground arith) h in
    let found : filter (λ (x : Job). x.id == r.id) t ≡ rows = cc in
    let (m, same) =
      mem-filter (λ (x : Job). x.id == r.id) t
        (rw found (one_row-mem rows job_get_by_id_not_found j one)) in
    (m, (==_iff j.id r.id).0 same)

-- Where the worker holds the job both at the read and at the write, it is by the same claim.
abbrev pub SameClaim : JobSettleRequest → Table → Table → Type 0
SameClaim r t base =
    (j k : Job)
    → Memᴰ j t
    → Memᴰ k base
    → holds r.id r.worker_id j ≡ true
    → holds r.id r.worker_id k ≡ true
    → (k.attempt ≡ j.attempt) × (k.max_attempts ≡ j.max_attempts)

pub failed-IsOutcome : (error : RawMessage) → IsOutcome failed none error
failed-IsOutcome error = record { terminal = refl; result_fits = λ h. cc; error_fits = λ h. refl }

pub succeeded-IsOutcome : (result : RawMessage) → IsOutcome succeeded result none
succeeded-IsOutcome result = record {
  terminal = refl;
  result_fits = λ h. refl;
  error_fits = λ h. cc;
}

module _ (e : Engine) (retention : ℤ) (r : JobSettleRequest) where
  settle-keeps :
      (t : Table) (c : Call) (status : JobStatus) (result error : RawMessage)
      → IsWellFormed t
      → IsOutcome status result error
      → IsWellFormed (settle (service_job_settle e retention) c r status result error t).1
  unfolding settle
  settle-keeps t c status result error w o =
      dao_settle-keeps t w c e (to_settle retention r status result error) o

  -- What a retry's write leaves is well formed.
  give_back-keeps :
      (t base : Table) (c : Call) (error : RawMessage) (entity : Job)
      → IsWellFormed base
      → SameClaim r t base
      → Memᴰ entity t
      → holds r.id r.worker_id entity ≡ true
      → IsWellFormed (give_back (service_job_settle e retention) c r error entity base).base
        × IsWellFormed (give_back (service_job_settle e retention) c r error entity base).changed
  unfolding give_back
  give_back-keeps t base c error entity w same m mine =
      elim (Bool-cases (ltb entity.attempt entity.max_attempts)) [
        | inl left ↦ rw left (
          w,
          dao_requeue-keeps base w c (record { id = r.id; worker_id = r.worker_id })
              (λ k mk held. omega (
                arith,
                same entity k m mk mine held,
                ltb→lt entity.attempt entity.max_attempts left,
              )),
        )
        | inr spent ↦ rw spent (
          w,
          dao_settle-keeps base w c e (to_settle retention r failed none error)
              (failed-IsOutcome error),
        )
      ]

  finish-keeps :
      (s : Session) (outcome : Result CoreJob.Job) (base changed : Table)
      → IsWellFormed base
      → IsWellFormed changed
      → IsWellFormed (finish s outcome base changed).1
  finish-keeps s (err x) base changed wb wc = wb
  finish-keeps s (ok job) base changed wb wc = elim (Option-cases s.commit_refused) [
    | inr (x, p) ↦ rw (p, finish) wb
    | inl p ↦ elim (Option-cases s.commit_lost) [
      | inr (x, q) ↦ rw (p, q, finish) wc
      | inl q ↦ rw (p, q, finish) wc
    ]
  ]

  decide-keeps :
      (t base : Table) (c : Call) (error : RawMessage) (read : Result Job)
      → IsWellFormed base
      → SameClaim r t base
      → ((j : Job) → read ≡ ok j → Memᴰ j t × (j.id ≡ r.id))
      → IsWellFormed (decide (service_job_settle e retention) c r error read base).base
        × IsWellFormed (decide (service_job_settle e retention) c r error read base).changed
  unfolding decide
  decide-keeps t base c error (err x) w same found = (w, w)
  decide-keeps t base c error (ok entity) w same found = elim (Bool-cases (is_mine r entity)) [
    | inr other ↦ rw other (w, w)
    | inl mine ↦
        let (m, id) = found entity refl in
        rw mine (give_back-keeps t base c error entity w same m (ground arith))
  ]

  -- A retryable failure keeps the table well formed.
  retry-keeps :
      (s : Session) (error : RawMessage) (t : Table)
      → IsWellFormed t
      → IsWellFormed (s.between t)
      → SameClaim r t (s.between t)
      → IsWellFormed (retry (service_job_settle e retention) s r error t).1
  unfolding retry
  retry-keeps s error t w wb same = elim (Option-cases s.begin_failed) [
    | inr (x, p) ↦ rw (p, retry) w
    | inl p ↦
        let read = GetById.exec s.read (record { id = r.id }) t in
        let base = s.between read.1 in
        let kept = get_by_id-reads s.read (record { id = r.id }) t in
        let (wk, wc) =
          decide-keeps t base s.write error read.0 (rw kept wb) (rw kept same)
            (get_by_id-eq_ok s.read (record { id = r.id }) t) in
        rw (p, retry)
          (finish-keeps s
            (decide (service_job_settle e retention) s.write r error read.0 base).outcome
            (decide (service_job_settle e retention) s.write r error read.0 base).base
            (decide (service_job_settle e retention) s.write r error read.0 base).changed wk wc)
  ]

  dispatch-keeps :
      (s : Session) (failure : Option JobFailure) (t : Table)
      → IsWellFormed t
      → IsWellFormed (s.between t)
      → SameClaim r t (s.between t)
      → IsWellFormed (dispatch (service_job_settle e retention) s r failure t).1
  unfolding dispatch
  dispatch-keeps s none t w wb same =
      settle-keeps t s.write succeeded r.result none w (succeeded-IsOutcome r.result)
  dispatch-keeps s (some f) t w wb same = elim (Bool-cases f.retryable) [
    | inl again ↦ rw again (retry-keeps s f.error t w wb same)
    | inr final ↦ rw final (settle-keeps t s.write failed none f.error w (failed-IsOutcome f.error))
  ]

-- Settling keeps the table well formed, if what runs in between does and leaves the claim its attempt.
pub settle_exec-keeps :
    (v : Validator) (e : Engine) (retention : ℤ) (s : Session) (r : JobSettleRequest) (t : Table)
    → IsWellFormed t
    → IsWellFormed (s.between t)
    → SameClaim r t (s.between t)
    → IsWellFormed (exec v e retention s r t).1
unfolding exec
settle_exec-keeps v e retention s r t w wb same = elim (Bool-cases (is_valid v r)) [
  | inl valid ↦ rw valid (dispatch-keeps e retention r s r.failure t w wb same)
  | inr invalid ↦ rw invalid w
]

-- So does a report of a success, whatever runs beside it.
pub success-keeps :
    (v : Validator) (e : Engine) (retention : ℤ) (s : Session) (r : JobSettleRequest) (t : Table)
    → r.failure ≡ none
    → IsWellFormed t
    → IsWellFormed (exec v e retention s r t).1
unfolding exec dispatch
success-keeps v e retention s r t won w = elim (Bool-cases (is_valid v r)) [
  | inl valid ↦
      rw (valid, won)
        (settle-keeps e retention r t s.write succeeded r.result none w
          (succeeded-IsOutcome r.result))
  | inr invalid ↦ rw invalid w
]
