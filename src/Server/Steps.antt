-- ===== src/Server/Steps.antt =====
-- The process of cmd/grpc/main.go against the steps of System.
use service_jobs.Prelude.{ℕ, ◌≡◌, refl, Bool-cases, inl, inr, List, [], ◌∷◌}
use service_jobs.Errors.{Result, ok, Result-cases}
use service_jobs.Dao.Table.{Table}
use service_jobs.Dao.Exec.{Call}
use service_jobs.Dao.Get as DaoGet
use service_jobs.Core.Validate.{Validator}
use service_jobs.Core.Enqueue as Enqueue
use service_jobs.Core.Get as Get
use service_jobs.Core.Claim as Claim
use service_jobs.Core.Settle as Settle
use service_jobs.Handlers.Job.{Formats}
use service_jobs.Handlers.Enqueue.{JobEnqueueRequest, job_enqueue, out_of_range, to_core}
use service_jobs.Handlers.Get.{JobGetRequest, job_get}
use service_jobs.Handlers.Claim.{JobClaimRequest, job_claim}
use service_jobs.Handlers.Settle.{JobSettleRequest, job_settle, settle_request}
use service_jobs.Invariant.Exec.{run_query-keeps}
use service_jobs.Invariant.Retry.{SameClaim}
use service_jobs.System.{
  Service, Steps, Steps-append, here, next, enqueue, claim, settle, reap, job_retention_days,
}
use service_jobs.Server.{
  Process, State, Rpc, Event, handle, sweep_once, serve, call, tick, interrupt,
}

module _ (x : Service) (f : Formats) (t : Table) where
  enqueue-Steps :
      (minted : Result ℕ) (c : Call) (r : JobEnqueueRequest)
      → Steps x t (job_enqueue f (Enqueue.exec x.validator x.sha256 x.engine minted c) r t).1
  unfolding job_enqueue
  enqueue-Steps minted c r = elim (Result-cases (f.uuid_parse r.owner_id)) [
    | inl (e, bad) ↦ rw bad here
    | inr (owner, good) ↦ elim (Bool-cases (out_of_range r.max_attempts)) [
      | inl out ↦ rw (good, out) here
      | inr fits ↦ rw (good, fits) (next here (enqueue minted c (to_core r owner) refl))
    ]
  ]

  claim-Steps :
      (c : Call) (r : JobClaimRequest) → Steps x t (job_claim f (Claim.exec x.validator c) r t).1
  unfolding job_claim
  claim-Steps c r = next here (claim c _ refl)

  settle-Steps :
      (session : Settle.Session) (r : JobSettleRequest)
      → Steps x t (session.between t)
      → ((id : ℕ)
          → f.uuid_parse r.id ≡ ok id
          → SameClaim (settle_request id r.worker_id r.outcome) t (session.between t))
      → Steps x t (job_settle f (Settle.exec x.validator x.engine job_retention_days session) r t).1
  unfolding job_settle
  settle-Steps session r path same = elim (Result-cases (f.uuid_parse r.id)) [
    | inl (e, bad) ↦ rw bad here
    | inr (id, good) ↦ rw good (
        next here
          (settle session (settle_request id r.worker_id r.outcome) path (same id good) refl))
  ]

-- A read leaves the table as it is.
get-reads :
    (v : Validator) (c : Call) (r : Get.JobGetRequest) (t : Table) → (Get.exec v c r t).1 ≡ t
unfolding Get.exec DaoGet.exec DaoGet.statement
get-reads v c r t = elim (Bool-cases (Get.is_valid v r)) [
  | inl valid ↦
      rw valid
        (run_query-keeps (λ u. u ≡ t) c (DaoGet.statement _) DaoGet.conclude t refl (λ a u e. cc))
  | inr invalid ↦ rw invalid refl
]

-- What a settle needs of its surroundings: other sessions commit only steps of the system between its
-- read and its write, and do not give its worker the job anew. Every other event needs nothing.
abbrev pub MeetsSteps : Process → Event → State → Type 0
MeetsSteps p (call (Rpc.settle r session)) s =
    Steps p.service s.jobs (session.between s.jobs)
    × ((id : ℕ)
        → p.formats.uuid_parse r.id ≡ ok id
        → SameClaim (settle_request id r.worker_id r.outcome) s.jobs (session.between s.jobs))
MeetsSteps p (call (Rpc.status_rpc h asked stored c)) s = Unit {0}
MeetsSteps p (call (Rpc.enqueue r minted c)) s = Unit {0}
MeetsSteps p (call (Rpc.get r c)) s = Unit {0}
MeetsSteps p (call (Rpc.claim r c)) s = Unit {0}
MeetsSteps p (call (Rpc.watch r c rounds)) s = Unit {0}
MeetsSteps p (tick c) s = Unit {0}
MeetsSteps p interrupt s = Unit {0}

-- The state after one event.
abbrev pub after : Process → Event → State → State
after p (call m) s = (handle p m s).1
after p (tick c) s = (sweep_once p c s).1
after p interrupt s = s

pub get-jobs :
    (f : Formats) (v : Validator) (c : Call) (r : JobGetRequest) (t : Table)
    → (job_get f (Get.exec v c) r t).1 ≡ t
unfolding job_get
get-jobs f v c r t = elim (Result-cases (f.uuid_parse r.id)) [
  | inl (e, bad) ↦ rw bad refl
  | inr (id, good) ↦ elim (Result-cases (f.uuid_parse r.owner_id)) [
    | inl (e, bad) ↦ rw (good, bad) refl
    | inr (owner, good') ↦ rw (good, good') (get-reads v c (record { id = id; owner_id = owner }) t)
  ]
]

-- One event is a path of the system.
pub event-Steps :
    (p : Process) (e : Event) (s : State)
    → MeetsSteps p e s
    → Steps p.service s.jobs (after p e s).jobs
unfolding handle sweep_once
event-Steps p (call (Rpc.settle r session)) s (path, same) =
    settle-Steps p.service p.formats s.jobs session r path same
event-Steps p (call (Rpc.status_rpc h asked stored c)) s m = here
event-Steps p (call (Rpc.enqueue r minted c)) s m =
    enqueue-Steps p.service p.formats s.jobs minted c r
event-Steps p (call (Rpc.get r c)) s m = rw (get-jobs p.formats p.service.validator c r s.jobs) here
event-Steps p (call (Rpc.claim r c)) s m = claim-Steps p.service p.formats s.jobs c r
event-Steps p (call (Rpc.watch r c rounds)) s m = here
event-Steps p (tick c) s m = next here (reap c refl)
event-Steps p interrupt s m = here

-- The surroundings of each event of a run.
abbrev pub AllMeetSteps : Process → List Event → State → Type 0
AllMeetSteps p [] s = Unit {0}
AllMeetSteps p (interrupt ∷ es) s = Unit {0}
AllMeetSteps p (call m ∷ es) s = MeetsSteps p (call m) s × AllMeetSteps p es (after p (call m) s)
AllMeetSteps p (tick c ∷ es) s = AllMeetSteps p es (after p (tick c) s)

-- A run of the process over any sequence of calls and sweeps, until the signal, is a path of the system
-- on the jobs table, when other sessions commit only steps of the system between a settle's read and
-- its write, and none that gives its worker the job anew.
pub serve-Steps :
    (p : Process) (es : List Event) (s : State)
    → AllMeetSteps p es s
    → Steps p.service s.jobs (serve p es s).1.jobs
unfolding serve
serve-Steps p [] s m = here
serve-Steps p (interrupt ∷ es) s m = here
serve-Steps p (call c ∷ es) s m =
    Steps-append p.service (event-Steps p (call c) s m.0)
      (serve-Steps p es (after p (call c) s) m.1)
serve-Steps p (tick c ∷ es) s m =
    Steps-append p.service (event-Steps p (tick c) s tt) (serve-Steps p es (after p (tick c) s) m)
