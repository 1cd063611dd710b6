-- ===== src/Handlers/Watch.antt =====
-- The JobWatch stream (internal/handlers/grpc.jobWatch.go). The loop takes one round of its
-- surroundings at a time: the state that the read sees, the outcome of a Send, and which arm of the
-- select fires.
use service_jobs.Prelude.{
  ℕ, Bool, true, false, not, ◌==◌, List, [], ◌∷◌, Option, none, some, String, if◌then◌else◌,
}
use service_jobs.Prelude.Int.{ℤ}
use service_jobs.Errors.{GoError, Result, ok, err}
use service_jobs.Dao.Job.{JobStatus, pending, claimed, succeeded, failed, abandoned, cancelled}
use service_jobs.Core.Job as CoreJob
use service_jobs.Core.Get as Core
use service_jobs.Handlers.Job.{
  Formats, ProtoJob, job_to_proto, RpcError, map_job_error, invalid_arg,
}
use service_jobs.Handlers.Get.{GetService}

-- protogen.JobWatchRequest.
pub record JobWatchRequest : Type 0 where
  pub id : String
  pub owner_id : String

-- The struct, and NewJobWatch; the interval is in nanoseconds.
pub record JobWatch (S : Type 0) : Type 0 where
  pub service : GetService S
  pub poll_interval : ℤ

abbrev pub new_job_watch : {S : Type 0} → GetService S → ℤ → JobWatch S
new_job_watch service poll_interval = record { service = service; poll_interval = poll_interval }

pub data Wake : Type 0 where
  tick : Wake
  -- the context ended, with the status of `status.FromContextError`
  done : RpcError → Wake

pub record Round (S : Type 0) : Type 0 where
  pub state : S
  pub send_failed : Option GoError
  pub wake : Wake

-- How the handler stands: still polling, or returned.
pub data WatchEnd : Type 0 where
  polling finished : WatchEnd
  refused : RpcError → WatchEnd
  broken : GoError → WatchEnd

abbrev pub status_index : JobStatus → ℕ
status_index pending = 0
status_index claimed = 1
status_index succeeded = 2
status_index failed = 3
status_index abandoned = 4
status_index cancelled = 5

abbrev pub same_status : JobStatus → JobStatus → Bool
same_status a b = status_index a == status_index b

unfoldable pub is_terminal_status : JobStatus → Bool
is_terminal_status succeeded = true
is_terminal_status failed = true
is_terminal_status abandoned = true
is_terminal_status cancelled = true
is_terminal_status _ = false

-- `!sent || job.Status != lastStatus`, with the two variables as one: nothing was sent, or the last.
abbrev pub is_news : Option JobStatus → JobStatus → Bool
is_news none status = true
is_news (some last) status = not (same_status status last)

-- Put a snapshot in front of what a later part of the stream sends.
abbrev pub sending : ProtoJob → List ProtoJob × WatchEnd → List ProtoJob × WatchEnd
sending job (jobs, end) = (job ∷ jobs, end)

-- The rest of a round after the Send, given the rest of the loop.
unfoldable pub after_send : CoreJob.Job → Wake → List ProtoJob × WatchEnd → List ProtoJob × WatchEnd
unfolding is_terminal_status
after_send job wake rest =
    if is_terminal_status job.status
    then ([], finished)
    else elim wake [ done e ↦ ([], refused e) | tick ↦ rest ]

-- One round, given the rest of the loop after it.
unfoldable pub round :
    Formats
    → Result CoreJob.Job
    → Option GoError
    → Wake
    → Option JobStatus
    → List ProtoJob × WatchEnd
    → List ProtoJob × WatchEnd
unfolding after_send
round f (err e) send_failed wake last rest = ([], refused (map_job_error e))
round f (ok job) send_failed wake last rest =
    if is_news last job.status
    then elim send_failed [
      | some e ↦ ([], broken e)
      | none ↦ sending (job_to_proto f job) (after_send job wake rest)
    ]
    else after_send job wake rest

-- The status last sent after a round.
abbrev pub last_sent : Result CoreJob.Job → Option JobStatus → Option JobStatus
last_sent (err e) last = last
last_sent (ok job) last = some job.status

module _ {S : Type 0} where
  -- The loop: the snapshots sent, in order, and how it stands when the rounds are over.
  unfoldable pub watch_loop :
      Formats
      → GetService S
      → Core.JobGetRequest
      → List (Round S)
      → Option JobStatus
      → List ProtoJob × WatchEnd
  unfolding round
  watch_loop f service r [] last = ([], polling)
  watch_loop f service r (x ∷ xs) last =
      let job = (service r x.state).0 in
      let rest = watch_loop f service r xs (last_sent job last) in
      round f job x.send_failed x.wake last rest

  abbrev pub with_ids :
      Formats → GetService S → List (Round S) → Result ℕ → Result ℕ → List ProtoJob × WatchEnd
  with_ids f service rounds (err e) owner = ([], refused (invalid_arg "invalid job id"))
  with_ids f service rounds (ok id) (err e) = ([], refused (invalid_arg "invalid owner id"))
  with_ids f service rounds (ok id) (ok owner) =
      watch_loop f service (record { id = id; owner_id = owner }) rounds none

  -- The handler.
  unfoldable pub job_watch :
      Formats → GetService S → JobWatchRequest → List (Round S) → List ProtoJob × WatchEnd
  unfolding watch_loop
  job_watch f service r rounds =
      with_ids f service rounds (f.uuid_parse r.id) (f.uuid_parse r.owner_id)
