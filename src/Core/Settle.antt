-- ===== src/Core/Settle.antt =====
-- Recording the outcome of a run (internal/core/jobSettle.go). The transactor is outside the
-- repository: it runs the function, commits when that returns no error, and else rolls back and
-- returns the function's error. It takes no lock: other sessions commit between the read and the
-- write, as `between` says.
use service_jobs.Prelude.{ℕ, ◌&&◌, Bool, not, Option, none, some, String, ltb, if◌then◌else◌}
use service_jobs.Prelude.Int.{ℤ}
use service_jobs.Errors.{
  GoError, Result, ok, err, wrap, join, sentinel, errors_is, job_settle_not_claimed,
  job_get_by_id_not_found, job_not_claimed,
}
use service_jobs.Dao.Job as DaoJob
use service_jobs.Dao.Job.{JobStatus, succeeded, failed, RawMessage, is_claimed}
use service_jobs.Dao.Table.{Table, Engine}
use service_jobs.Dao.Exec.{Call}
use service_jobs.Dao.Settle as DaoSettle
use service_jobs.Dao.Settle.{held_by}
use service_jobs.Dao.Requeue as DaoRequeue
use service_jobs.Dao.GetById as DaoGetById
use service_jobs.Core.Validate.{Validator, invalid}
use service_jobs.Core.Job.{Job, job_to_core}

pub record JobFailure : Type 0 where
  pub error : RawMessage
  pub retryable : Bool

pub record JobSettleRequest : Type 0 where
  pub id : ℕ
  pub worker_id : String
  pub result : RawMessage
  pub failure : Option JobFailure

-- The tags of the request.
unfoldable pub is_valid : Validator → JobSettleRequest → Bool
is_valid v r = v.required_id r.id && v.required_text r.worker_id

-- What the outside contributes to one settle: its statements' calls, the transaction's beginning and
-- end, and what other sessions commit between its read and its write.
pub record Session : Type 0 where
  pub read : Call
  pub write : Call
  pub begin_failed : Option GoError
  pub commit_refused : Option GoError
  pub commit_lost : Option GoError
  pub between : Table → Table

-- What a transaction's function leaves: its result, the table without its writes, and with them.
pub record Work : Type 0 where
  pub outcome : Result Job
  pub base : Table
  pub changed : Table

abbrev pub finish : Session → Result Job → Table → Table → Result Job × Table
finish s (err e) base changed = (err e, base)
finish s (ok job) base changed = elim s.commit_refused [
  | some e ↦ (err e, base)
  | none ↦ elim s.commit_lost [ some e ↦ (err e, changed) | none ↦ (ok job, changed) ]
]

-- `transactor.WithinTx`.
abbrev pub within_tx : Session → (Table → Work) → Table → Result Job × Table
within_tx s work t = elim s.begin_failed [
  | some e ↦ (err e, t)
  | none ↦ let w = work t in finish s w.outcome w.base w.changed
]

unfoldable pub to_settle :
    ℤ → JobSettleRequest → JobStatus → RawMessage → RawMessage → DaoSettle.JobSettleRequest
to_settle retention r status result error = record {
  id = r.id;
  worker_id = r.worker_id;
  status = status;
  result = result;
  error = error;
  retention_days = retention;
}

-- One terminal transition, with the not-claimed sentinel mapped.
abbrev pub settled : Result DaoJob.Job → Result Job
settled (ok entity) = ok (job_to_core entity)
settled (err e) = err (
    if errors_is e job_settle_not_claimed
    then join e (sentinel job_not_claimed)
    else wrap "settle job" e)

-- The interfaces of the three DAOs, and the transactor.
abbrev pub JobSettleSettleDao : Type 0
JobSettleSettleDao = Call → DaoSettle.JobSettleRequest → Table → Result DaoJob.Job × Table

abbrev pub JobSettleRequeueDao : Type 0
JobSettleRequeueDao = Call → DaoRequeue.JobRequeueRequest → Table → Result DaoJob.Job × Table

abbrev pub JobSettleGetDao : Type 0
JobSettleGetDao = Call → DaoGetById.JobGetByIdRequest → Table → Result DaoJob.Job × Table

abbrev pub Transactor : Type 0
Transactor = Session → (Table → Work) → Table → Result Job × Table

-- The struct, and NewJobSettle.
pub record JobSettle : Type 0 where
  pub settle_dao : JobSettleSettleDao
  pub requeue_dao : JobSettleRequeueDao
  pub get_dao : JobSettleGetDao
  pub transactor : Transactor
  pub retention_days : ℤ

abbrev pub new_job_settle :
    JobSettleSettleDao → JobSettleRequeueDao → JobSettleGetDao → Transactor → ℤ → JobSettle
new_job_settle settle_dao requeue_dao get_dao transactor retention_days = record {
  settle_dao = settle_dao;
  requeue_dao = requeue_dao;
  get_dao = get_dao;
  transactor = transactor;
  retention_days = retention_days;
}

-- The service that main makes, for a retention.
abbrev pub service_job_settle : Engine → ℤ → JobSettle
service_job_settle e retention_days =
    new_job_settle (DaoSettle.new_job_settle e) DaoRequeue.new_job_requeue
      DaoGetById.new_job_get_by_id within_tx retention_days

unfoldable pub settle :
    JobSettle
    → Call
    → JobSettleRequest
    → JobStatus
    → RawMessage
    → RawMessage
    → Table
    → Result Job × Table
unfolding to_settle
settle service c r status result error t =
    let (entity, u) =
      service.settle_dao c (to_settle service.retention_days r status result error) t in
    (settled entity, u)

abbrev pub wrapped : String → Result DaoJob.Job → Result Job
wrapped message (ok entity) = ok (job_to_core entity)
wrapped message (err x) = err (wrap message x)

-- The write of a retry: requeue while an attempt is left, else fail.
unfoldable pub give_back :
    JobSettle → Call → JobSettleRequest → RawMessage → DaoJob.Job → Table → Work
unfolding to_settle
give_back service c r error entity base =
    if ltb entity.attempt entity.max_attempts
    then (let (requeued, u) =
          service.requeue_dao c (record { id = r.id; worker_id = r.worker_id }) base in
        record { outcome = wrapped "requeue job" requeued; base = base; changed = u })
    else (let (row, u) =
          service.settle_dao c (to_settle service.retention_days r failed none error) base in
        record { outcome = wrapped "settle job" row; base = base; changed = u })

-- Whether the row that was read is still this worker's.
abbrev pub is_mine : JobSettleRequest → DaoJob.Job → Bool
is_mine r entity = is_claimed entity.status && held_by r.worker_id entity.claimed_by

unfoldable pub decide :
    JobSettle → Call → JobSettleRequest → RawMessage → Result DaoJob.Job → Table → Work
unfolding give_back
decide service c r error (err x) base = record {
  outcome = err (
      if errors_is x job_get_by_id_not_found
      then join x (sentinel job_not_claimed)
      else wrap "read job" x);
  base = base;
  changed = base;
}
decide service c r error (ok entity) base =
    if is_mine r entity
    then give_back service c r error entity base
    else record { outcome = err (sentinel job_not_claimed); base = base; changed = base }

-- The read and the write of a retryable failure, in one transaction.
unfoldable pub retry :
    JobSettle → Session → JobSettleRequest → RawMessage → Table → Result Job × Table
unfolding decide
retry service s r error = service.transactor s λ t.
    let (entity, u) = service.get_dao s.read (record { id = r.id }) t in
    decide service s.write r error entity (s.between u)

unfoldable pub dispatch :
    JobSettle → Session → JobSettleRequest → Option JobFailure → Table → Result Job × Table
unfolding settle retry
dispatch service s r none t = settle service s.write r succeeded r.result none t
dispatch service s r (some f) t =
    if not f.retryable
    then settle service s.write r failed none f.error t
    else retry service s r f.error t

-- The Exec method of a service.
abbrev pub exec_of : JobSettle → Validator → Session → JobSettleRequest → Table → Result Job × Table
unfolding is_valid dispatch
exec_of service v s r t =
    if is_valid v r then dispatch service s r r.failure t else (err (invalid v), t)

-- Its Exec method.
unfoldable pub exec :
    Validator → Engine → ℤ → Session → JobSettleRequest → Table → Result Job × Table
unfolding is_valid dispatch
exec v e retention = exec_of (service_job_settle e retention) v
