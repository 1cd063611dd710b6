-- ===== src/Unordered/Settles.antt =====
-- The settle service of internal/core/jobSettle.go on two tables of the same rows.
use service_jobs.Prelude.{
  ltb, ◌≡◌, refl, ap, Option, none, some, Option-cases, Bool-cases, inl, inr,
}
use service_jobs.Prelude.Int.{ℤ}
use service_jobs.Errors.{Result, ok, err}
use service_jobs.Dao.Job as DaoJob
use service_jobs.Dao.Job.{JobStatus, RawMessage, failed}
use service_jobs.Dao.Table.{Table, Engine}
use service_jobs.Dao.Exec.{Call}
use service_jobs.Dao.GetById as GetById
use service_jobs.Core.Validate.{Validator}
use service_jobs.Core.Job.{Job}
use service_jobs.Core.Settle.{
  JobSettleRequest, JobFailure, Session, Work, finish, settled, settle, wrapped, is_mine, give_back,
  decide, retry, dispatch, service_job_settle, to_settle, exec, is_valid,
}
use service_jobs.Invariant.{IsWellFormed}
use service_jobs.Invariant.Retry.{get_by_id-reads}
use service_jobs.Unordered.{SameRows}
use service_jobs.Unordered.Methods.{SameRuns, settle-runs, requeue-runs, get_by_id-runs}

-- What two transactions' functions leave.
record SameWork (w w' : Work) : Type 0 where
  outcome : w.outcome ≡ w'.outcome
  base : SameRows w.base w'.base
  changed : SameRows w.changed w'.changed

finish-runs :
    (s : Session) (r r' : Result Job) (base base' changed changed' : Table)
    → r ≡ r'
    → SameRows base base'
    → SameRows changed changed'
    → SameRuns (finish s r base changed) (finish s r' base' changed')
finish-runs s (err x) r' base base' changed changed' e b c = rw (← e) (refl, b)
finish-runs s (ok job) r' base base' changed changed' e b c = elim (Option-cases s.commit_refused) [
  | inr (x, refused) ↦ rw (← e, refused) (refl, b)
  | inl commits ↦ elim (Option-cases s.commit_lost) [
    | inr (x, lost) ↦ rw (← e, commits, lost) (refl, c)
    | inl answers ↦ rw (← e, commits, answers) (refl, c)
  ]
]

module _ (e : Engine) (retention : ℤ) (r : JobSettleRequest) where
  settle-one :
      (c : Call) (status : JobStatus) (result error : RawMessage) (t t' : Table)
      → SameRows t t'
      → IsWellFormed t
      → SameRuns
          (settle (service_job_settle e retention) c r status result error t)
          (settle (service_job_settle e retention) c r status result error t')
  unfolding settle
  settle-one c status result error t t' d w =
      let (row, tables) = settle-runs c t t' d w e (to_settle retention r status result error) in
      (ap settled row, tables)

  module _ (c : Call) (error : RawMessage) (base base' : Table) (d : SameRows base base')
      (w : IsWellFormed base) where
    give_back-one :
        (entity : DaoJob.Job)
        → SameWork
            (give_back (service_job_settle e retention) c r error entity base)
            (give_back (service_job_settle e retention) c r error entity base')
    unfolding give_back
    give_back-one entity = elim (Bool-cases (ltb entity.attempt entity.max_attempts)) [
      | inl left ↦
          let (row, tables) =
            requeue-runs c base base' d w (record { id = r.id; worker_id = r.worker_id }) in
          rw left (record { outcome = ap (wrapped "requeue job") row; base = d; changed = tables })
      | inr over ↦
          let (row, tables) =
            settle-runs c base base' d w e (to_settle retention r failed none error) in
          rw over (record { outcome = ap (wrapped "settle job") row; base = d; changed = tables })
    ]

    decide-one :
        (read : Result DaoJob.Job)
        → SameWork
            (decide (service_job_settle e retention) c r error read base)
            (decide (service_job_settle e retention) c r error read base')
    unfolding decide
    decide-one (err x) = record { outcome = refl; base = d; changed = d }
    decide-one (ok entity) = elim (Bool-cases (is_mine r entity)) [
      | inl mine ↦ rw mine (give_back-one entity)
      | inr other ↦ rw other (record { outcome = refl; base = d; changed = d })
    ]

  module _ (s : Session) (t t' : Table) (d : SameRows t t')
      (between : SameRows (s.between t) (s.between t')) (w : IsWellFormed t)
      (w' : IsWellFormed (s.between t)) where
    retry-one :
        (error : RawMessage)
        → SameRuns
            (retry (service_job_settle e retention) s r error t)
            (retry (service_job_settle e retention) s r error t')
    unfolding retry
    retry-one error = elim (Option-cases s.begin_failed) [
      | inr (x, fails) ↦ rw (fails, retry) (refl, d)
      | inl begins ↦
          let q : GetById.JobGetByIdRequest = record { id = r.id } in
          let service = service_job_settle e retention in
          let read = GetById.exec s.read q t in
          let read' = GetById.exec s.read q t' in
          let kept = get_by_id-reads s.read q t in
          let kept' = get_by_id-reads s.read q t' in
          let base = s.between read.1 in
          let base' = s.between read'.1 in
          let row : read.0 ≡ read'.0 = (get_by_id-runs s.read t t' d w q).0 in
          let same : SameWork (decide service s.write r error read.0 base)
              (decide service s.write r error read'.0 base') =
            rw (← row) (
              decide-one s.write error base base' (rw (kept, kept') between) (rw kept w') read.0) in
          let work = decide service s.write r error read.0 base in
          let work' = decide service s.write r error read'.0 base' in
          rw (begins, retry)
            (finish-runs s work.outcome work'.outcome work.base work'.base work.changed
              work'.changed same.outcome same.base same.changed)
    ]

    dispatch-one :
        (failure : Option JobFailure)
        → SameRuns
            (dispatch (service_job_settle e retention) s r failure t)
            (dispatch (service_job_settle e retention) s r failure t')
    unfolding dispatch
    dispatch-one none = settle-one s.write _ _ _ t t' d w
    dispatch-one (some f) = elim (Bool-cases f.retryable) [
      | inl again ↦ rw again (retry-one f.error)
      | inr final ↦ rw final (settle-one s.write _ _ _ t t' d w)
    ]

    pub settle-services :
        (v : Validator) → SameRuns (exec v e retention s r t) (exec v e retention s r t')
    unfolding exec
    settle-services v = elim (Bool-cases (is_valid v r)) [
      | inl valid ↦ rw valid (dispatch-one r.failure)
      | inr invalid ↦ rw invalid (refl, d)
    ]
