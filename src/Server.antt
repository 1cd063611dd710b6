-- ===== src/Server.antt =====
-- The process of cmd/grpc/main.go: the RPCs that the server registers, each over the service that main
-- builds for it, the reaper beside them, and the order of boot and shutdown. The state is the jobs
-- table and the cache of the status handler. Other processes' commits are not part of it.
pub mod Steps
pub mod Boot
pub mod Launch
pub mod Endings
pub mod RoundTrip
pub mod Work
pub mod Refusals
pub mod Messages
use service_jobs.Prelude.{ℕ, List, [], ◌∷◌, String}
use service_jobs.Prelude.Int.{ℤ, pos}
use service_jobs.Errors.{Result, ok, err, GoError}
use service_jobs.Dao.Table.{Table, Readings}
use service_jobs.Dao.Exec.{Call}
use service_jobs.Dao.Purge.{purge}
use service_jobs.Core.Enqueue as Enqueue
use service_jobs.Core.Get as Get
use service_jobs.Core.Claim as Claim
use service_jobs.Core.Settle as Settle
use service_jobs.Core.Reap as Reap
use service_jobs.Core.Depth.{queue_depth}
use service_jobs.Handlers.Job.{Formats, Response, ProtoJob}
use service_jobs.Handlers.Enqueue.{
  JobEnqueueRequest, JobEnqueueResponse, JobEnqueue, new_job_enqueue, job_enqueue,
}
use service_jobs.Handlers.Get.{JobGetRequest, JobGetResponse, JobGet, new_job_get, job_get}
use service_jobs.Handlers.Claim.{
  JobClaimRequest, JobClaimResponse, JobClaim, new_job_claim, job_claim,
}
use service_jobs.Handlers.Settle.{
  JobSettleRequest, JobSettleResponse, JobSettle, new_job_settle, job_settle,
}
use service_jobs.Handlers.Watch.{
  JobWatchRequest, Round, WatchEnd, JobWatch, new_job_watch, job_watch,
}
use service_jobs.Handlers.Status.{
  Duration, Handle, Cache, StatusResponse, GrpcStatus, new_grpc_status, status,
}
use service_jobs.Reaper.{reaper_interval, sweep_logged, Log}
use service_jobs.System.{Service, job_retention_days}

-- What main builds the process from, with the two conversions of durations.
pub record Process : Type 0 where
  pub service : Service
  pub formats : Formats
  pub duration : ℤ → ℤ
  pub durationpb : ℤ → Duration

pub record State : Type 0 where
  pub jobs : Table
  pub cache : Cache

-- `statusQueueCacheTTL` and `jobWatchPollInterval`, in nanoseconds.
abbrev pub status_queue_cache_ttl : ℤ
status_queue_cache_ttl = pos 1000000000

abbrev pub job_watch_poll_interval : ℤ
job_watch_poll_interval = pos 1000000000

-- One call of a registered RPC, with its surroundings. The polls of a watch see the table in rounds of
-- their own.
pub data Rpc : Type 0 where
  status_rpc : Handle → (asked_at stored_at : ℕ) → Call → Rpc
  enqueue : JobEnqueueRequest → (minted : Result ℕ) → Call → Rpc
  get : JobGetRequest → Call → Rpc
  claim : JobClaimRequest → Call → Rpc
  settle : JobSettleRequest → Settle.Session → Rpc
  watch : JobWatchRequest → Call → List (Round Table) → Rpc

pub data Reply : Type 0 where
  status_reply : StatusResponse → Reply
  enqueued : Response JobEnqueueResponse → Reply
  got : Response JobGetResponse → Reply
  claimed : Response JobClaimResponse → Reply
  settled : Response JobSettleResponse → Reply
  watched : List ProtoJob → WatchEnd → Reply

-- A handler over the table, in the process's state.
abbrev pub over_jobs : {A : Type 0} → (A → Reply) → State → A × Table → Reply × State
over_jobs reply s (a, t) = (reply a, record s { jobs = t })

abbrev pub over_cache : State → StatusResponse × Cache → Reply × State
over_cache s (a, c) = (status_reply a, record s { cache = c })

-- The handlers that main makes; a call's surroundings are given to the service.
abbrev pub handler_status : Process → GrpcStatus Call Table
handler_status p = new_grpc_status (queue_depth p.duration) status_queue_cache_ttl

abbrev pub handler_job_enqueue : Process → Result ℕ → Call → JobEnqueue Table
handler_job_enqueue p minted c =
    new_job_enqueue (Enqueue.exec p.service.validator p.service.sha256 p.service.engine minted c)

abbrev pub handler_job_get : Process → Call → JobGet Table
handler_job_get p c = new_job_get (Get.exec p.service.validator c)

abbrev pub handler_job_claim : Process → Call → JobClaim Table
handler_job_claim p c = new_job_claim (Claim.exec p.service.validator c)

abbrev pub handler_job_settle : Process → Settle.Session → JobSettle Table
handler_job_settle p session =
    new_job_settle (Settle.exec p.service.validator p.service.engine job_retention_days session)

abbrev pub handler_job_watch : Process → Call → JobWatch Table
handler_job_watch p c = new_job_watch (Get.exec p.service.validator c) job_watch_poll_interval

unfoldable pub handle : Process → Rpc → State → Reply × State
handle p (status_rpc h asked stored c) s =
    let handler = handler_status p in
    over_cache s (
      status p.durationpb handler.cache_ttl h asked stored (handler.queue_depth c s.jobs).0 s.cache)
handle p (enqueue r minted c) s =
    over_jobs enqueued s (job_enqueue p.formats (handler_job_enqueue p minted c).service r s.jobs)
handle p (get r c) s = over_jobs got s (job_get p.formats (handler_job_get p c).service r s.jobs)
handle p (claim r c) s =
    over_jobs claimed s (job_claim p.formats (handler_job_claim p c).service r s.jobs)
handle p (settle r session) s =
    over_jobs settled s (job_settle p.formats (handler_job_settle p session).service r s.jobs)
handle p (watch r c rounds) s =
    let (sent, end) = job_watch p.formats (handler_job_watch p c).service r rounds in
    (watched sent end, s)

-- One pass of the reaper.
unfoldable pub sweep_once : Process → Call → State → List Log × State
sweep_once p c s =
    let (log, t) = sweep_logged (Reap.exec p.service.engine job_retention_days) c s.jobs in
    (log, record s { jobs = t })

-- What the running process meets, and its stop.
pub data Event : Type 0 where
  call : Rpc → Event
  tick : Call → Event
  interrupt : Event

-- What the process shows of a run.
pub data Trace : Type 0 where
  replied : Reply → Trace
  logged : List Log → Trace

abbrev pub shows : Trace → List Trace × State → List Trace × State
shows t (ts, s) = (t ∷ ts, s)

-- From the start of the server to its stop. A call that main still serves between the signal and the end
-- of GracefulStop is an event before the stop.
unfoldable pub serve : Process → List Event → State → List Trace × State
unfolding handle sweep_once
serve p [] s = ([], s)
serve p (interrupt ∷ es) s = ([], s)
serve p (call m ∷ es) s = let (r, s') = handle p m s in shows (replied r) (serve p es s')
serve p (tick c ∷ es) s = let (l, s') = sweep_once p c s in shows (logged l) (serve p es s')

-- main: the reaper's cadence is checked before anything else, and a bad one is fatal. The reaper runs
-- in a goroutine of its own, so that its sweeps, the first one too, stand anywhere among the calls.
unfoldable pub main :
    Process
    → (parse_duration : String → Result ℤ) → (raw_interval : String) → List Event
    → State
    → Result (List Trace) × State
unfolding serve reaper_interval
main p parse_duration raw es s = elim (reaper_interval parse_duration raw) [
  | err e ↦ (err e, s)
  | ok interval ↦ let (ts, s') = serve p es s in (ok ts, s')
]
