-- ===== src/Tests/Rpcs.antt =====
-- The theorems on the RPCs and on the backlog, applied to concrete runs.
use service_jobs.Prelude.{
  filter, length, ℕ, ◌≡◌, ◌≢◌, ◌<◌, ◌⊎◌, refl, true, List, [], ◌∷◌, map, ap, Memᴰ, some, none,
  arith,
}
use service_jobs.Prelude.Int.{ℤ, pos, sub_ℕ, ◌<ℤ◌}
use service_jobs.Errors.{ok, err, foreign}
use service_jobs.Dao.Job.{Job}
use service_jobs.Core.Job as CoreJob
use service_jobs.Core.Job.{job_to_core}
use service_jobs.Core.Get as Get
use service_jobs.Handlers.Job.{answered, invalid_arg, refused, job_to_proto}
use service_jobs.Handlers.Get.{to_response, GetService, JobGetRequest, job_get}
use service_jobs.Handlers.Enqueue.{EnqueueService, JobEnqueueRequest, job_enqueue}
use service_jobs.Handlers.Watch.{JobWatchRequest, job_watch}
use service_jobs.Handlers.Status.{
  Duration, StatusResponse, report_queue_depth, status, transaction, pool, down,
}
use service_jobs.Backlog.{backlog_measured, IsOldest}
use service_jobs.Core.Depth.{QueueDepth, queue_depth}
use service_jobs.Dao.QueueDepth.{is_due}
use service_jobs.Reading.{get_shows, get_hides, not_found_error, enqueue_caps, answer_of}
use service_jobs.Watching.{watch_changes, observed, changes, ends, calm, job_of}
use service_jobs.Probing.{Probe, probes, empty_cache, IsReport, IsHealthOf, probe_reports}
use service_jobs.Tests.Data.{a_validator, a_call, a_call-IsHealthy, some_formats}
use service_jobs.Tests.Tables.{waiting, waiting-in, running, over, jobs, jobs-IsWellFormed}

-- The owner 1 asks for the job 1, which is the owner 7's.
abbrev foreign_read : JobGetRequest
foreign_read = record { id = "one"; owner_id = "one" }

foreign_read-valid : Get.is_valid a_validator (record { id = 1; owner_id = 1 }) ≡ true
unfolding Get.is_valid
foreign_read-valid = refl

not_one : (j : Job) → Memᴰ j (waiting ∷ []) → j.id ≡ 1 → j.owner_id ≢ 1
not_one j (Memᴰ.head e) same owned = absurd (ground (arith, ap (λ (z : Job). z.owner_id) e))
not_one j (Memᴰ.tail m) same owned = elim m [ ]

get_hides_example :
    job_get some_formats (Get.exec a_validator a_call) foreign_read (waiting ∷ [])
    ≡ (refused not_found_error, waiting ∷ [])
get_hides_example =
    get_hides some_formats a_validator a_call foreign_read 1 1 (waiting ∷ []) refl refl
      foreign_read-valid a_call-IsHealthy not_one

abbrev counting : EnqueueService ℕ
counting r n = (err (foreign "down"), 1)

abbrev wire_submission : JobEnqueueRequest
wire_submission = record {
  kind = "mail";
  payload = none;
  owner_id = "seven";
  idempotency_key = none;
  max_attempts = pos 65537;
}

enqueue_caps_example :
    ((n : ℕ) × (n < 32768)
      × (pos 65537 ≡ pos n)
      × (job_enqueue some_formats counting wire_submission 0
          ≡ answer_of some_formats (
              counting
                (record {
                  kind = "mail";
                  payload = none;
                  owner_id = 7;
                  idempotency_key = none;
                  max_attempts = pos n;
                })
                0)))
    ⊎ (((pos 65537 <ℤ pos 0) ⊎ (pos 32767 <ℤ pos 65537))
        × (job_enqueue some_formats counting wire_submission 0
            ≡ (refused (invalid_arg "invalid max attempts"), 0)))
enqueue_caps_example = enqueue_caps some_formats counting wire_submission 7 0 refl

abbrev replay : GetService (List CoreJob.Job)
replay r [] = (err (foreign "end"), [])
replay r (j ∷ js) = (ok j, js)

abbrev a_watch : JobWatchRequest
a_watch = record { id = "one"; owner_id = "seven" }

abbrev seen : CoreJob.Job → List CoreJob.Job × CoreJob.Job
seen j = (j ∷ [], j)

abbrev history : List (List CoreJob.Job × CoreJob.Job)
history =
    seen (job_to_core waiting)
    ∷ seen (job_to_core waiting)
    ∷ seen (job_to_core running)
    ∷ seen (job_to_core over)
    ∷ []

watch_changes_example : job_watch some_formats replay a_watch (map calm history) ≡ (
  map (job_to_proto some_formats) (changes none (observed (map job_of history))),
  ends (map job_of history),
)
watch_changes_example =
    watch_changes some_formats replay a_watch 1 7 history refl refl
      (refl, (refl, (refl, (refl, tt))))

abbrev to_duration : ℤ → Duration
to_duration z = record { seconds = z; nanos = pos 0 }

abbrev a_probe : Probe
a_probe = record {
  asked_at = 100;
  stored_at = 101;
  handle = transaction;
  depth = ok (record { pending = 3; oldest_pending_age = some (pos 4) });
}

-- The database fails while the cache is fresh.
abbrev a_later_probe : Probe
a_later_probe = record {
  asked_at = 105;
  stored_at = 106;
  handle = pool (some (foreign "down"));
  depth = err (foreign "down");
}

abbrev a_later_answer : StatusResponse
a_later_answer =
    (status to_duration (pos 10) a_later_probe.handle 105 106 a_later_probe.depth
      (probes to_duration (pos 10) (a_probe ∷ []) empty_cache)).0

probe_reports_example :
    IsHealthOf a_later_probe.handle a_later_answer.postgres
    × IsReport to_duration (pos 10) (a_probe ∷ []) a_later_probe a_later_answer.queue
probe_reports_example = probe_reports to_duration (pos 10) (a_probe ∷ []) a_later_probe

-- It is told as down, with the depth that the cache has.
cached_while_down : a_later_answer ≡ record {
  postgres = down;
  queue = some (record { pending = 3; oldest_pending_age = some (to_duration (pos 4)) });
}
unfolding status report_queue_depth
cached_while_down = refl

abbrev own_read : JobGetRequest
own_read = record { id = "one"; owner_id = "seven" }

own_read-valid : Get.is_valid a_validator (record { id = 1; owner_id = 7 }) ≡ true
unfolding Get.is_valid
own_read-valid = refl

get_shows_example :
    job_get some_formats (Get.exec a_validator a_call) own_read jobs
    ≡ (answered (to_response some_formats (job_to_core waiting)), jobs)
get_shows_example =
    get_shows some_formats a_validator a_call own_read 1 7 jobs waiting refl refl own_read-valid
      a_call-IsHealthy jobs-IsWellFormed waiting-in refl refl

backlog_measured_example :
    let due = filter (is_due a_call.clock) jobs in
    (d : QueueDepth) × (queue_depth (λ z. z) a_call jobs ≡ (ok d, jobs))
    × (d.pending ≡ length due)
    × (((due ≡ []) × (d.oldest_pending_age ≡ none))
        ⊎ ((j : Job) × IsOldest due j
            × (d.oldest_pending_age ≡ some (sub_ℕ (a_call.clock 0 1) j.run_at))))
backlog_measured_example = backlog_measured (λ z. z) a_call jobs a_call-IsHealthy
