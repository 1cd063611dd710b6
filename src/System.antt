-- ===== src/System.antt =====
-- The running service (cmd/grpc/main.go): every call of its operations, in any order and by any
-- number of workers, with the database's scheduled purge, as steps on the jobs table.
use service_jobs.Prelude.{ℕ, Bool, true, ◌≡◌, []}
use service_jobs.Prelude.Int.{ℤ, pos}
use service_jobs.Errors.{Result}
use service_jobs.Dao.Job.{Bytes}
use service_jobs.Dao.Table.{Table, Readings, Engine}
use service_jobs.Dao.Exec.{Call}
use service_jobs.Dao.Purge.{purge}
use service_jobs.Core.Validate.{Validator}
use service_jobs.Core.Enqueue as Enqueue
use service_jobs.Core.Claim as Claim
use service_jobs.Core.Settle as Settle
use service_jobs.Core.Reap as Reap
use service_jobs.Invariant.{IsWellFormed, empty-IsWellFormed}
use service_jobs.Invariant.Statements.{purge-IsWellFormed}
use service_jobs.Invariant.Services.{enqueue-keeps, claim-keeps, reap-keeps}
use service_jobs.Invariant.Retry.{SameClaim, settle_exec-keeps}

-- What the process is built from: the packages outside the repository that it calls.
pub record Service : Type 0 where
  pub validator : Validator
  pub sha256 : Bytes → Bytes
  pub engine : Engine
  -- whether the database schedules the retention purge (builds/database.sql)
  pub purges : Bool

-- `jobRetentionDays`.
abbrev pub job_retention_days : ℤ
job_retention_days = pos 7

-- One operation. Other sessions' steps run between a settle's read and its write; `SameClaim` says
-- that they do not give the settling worker its job anew.
mutual
  pub data Step (x : Service) : Table → Table → Type 0 where
    enqueue :
        {t u : Table} (minted : Result ℕ) (c : Call) (r : Enqueue.JobEnqueueRequest)
        → u ≡ (Enqueue.exec x.validator x.sha256 x.engine minted c r t).1
        → Step x t u
    claim :
        {t u : Table} (c : Call) (r : Claim.JobClaimRequest)
        → u ≡ (Claim.exec x.validator c r t).1
        → Step x t u
    settle :
        {t u : Table} (s : Settle.Session) (r : Settle.JobSettleRequest)
        → Steps x t (s.between t)
        → SameClaim r t (s.between t)
        → u ≡ (Settle.exec x.validator x.engine job_retention_days s r t).1
        → Step x t u
    reap : {t u : Table} (c : Call) → u ≡ (Reap.exec x.engine job_retention_days c t).1 → Step x t u
    expire : {t u : Table} (clock : Readings) → x.purges ≡ true → u ≡ purge clock t → Step x t u

  pub data Steps (x : Service) : Table → Table → Type 0 where
    here : {t : Table} → Steps x t t
    next : {t u v : Table} → Steps x t u → Step x u v → Steps x t v

pub Steps-append : (x : Service) {t u v : Table} → Steps x t u → Steps x u v → Steps x t v
Steps-append x path here = path
Steps-append x path (next rest step) = next (Steps-append x path rest) step

mutual
  pub Step-keeps : (x : Service) {t u : Table} → Step x t u → IsWellFormed t → IsWellFormed u
  Step-keeps x {t} (enqueue minted c r e) w =
      rw e (enqueue-keeps t w c x.validator x.sha256 x.engine minted r)
  Step-keeps x {t} (claim c r e) w = rw e (claim-keeps t w c x.validator r)
  Step-keeps x {t} (settle s r between same e) w = rw e (
      settle_exec-keeps x.validator x.engine job_retention_days s r t w (Steps-keeps x between w)
        same)
  Step-keeps x {t} (reap c e) w = rw e (reap-keeps t w c x.engine job_retention_days)
  Step-keeps x {t} (expire clock _ e) w = rw e (purge-IsWellFormed clock t w)

  pub Steps-keeps : (x : Service) {t u : Table} → Steps x t u → IsWellFormed t → IsWellFormed u
  Steps-keeps x here w = w
  Steps-keeps x (next path step) w = Step-keeps x step (Steps-keeps x path w)

-- Whatever operations run from an empty table, in whatever order and with whatever failures of the
-- driver, the table is well formed: each row's lease, holder, settlement times, outcome and attempt
-- agree with its status, and no two rows share an id or an idempotency key of one owner and kind.
-- Between a settle's read and its write other operations may run, but none that gives the settling
-- worker the same job under another attempt.
pub reachable-IsWellFormed : (x : Service) (t : Table) → Steps x [] t → IsWellFormed t
reachable-IsWellFormed x t path = Steps-keeps x path empty-IsWellFormed
