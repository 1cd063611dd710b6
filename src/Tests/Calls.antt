-- ===== src/Tests/Calls.antt =====
-- The theorems on sequences of calls, applied to a concrete process.
use service_jobs.Prelude.{◌≡◌, refl, true, List, [], ◌∷◌, Memᴰ, none, some, arith, map}
use service_jobs.Prelude.Int.{pos}
use service_jobs.Errors.{ok}
use service_jobs.Dao.Job as DaoJob
use service_jobs.Dao.Job.{Job}
use service_jobs.Dao.Table.{Table, update_where}
use service_jobs.Dao.Settle as DaoSettle
use service_jobs.Core.Validate.{validate_not_blank}
use service_jobs.Core.Claim as Claim
use service_jobs.Core.Enqueue as Enqueue
use service_jobs.Core.Settle as Settle
use service_jobs.Core.Get as Get
use service_jobs.Handlers.Claim as Wire
use service_jobs.Handlers.Job.{ProtoJob, answered, pending, succeeded, job_to_proto}
use service_jobs.Handlers.Watch.{job_watch, finished}
use service_jobs.Handlers.Settle.{JobSettleRequest, result, job_settle}
use service_jobs.Handlers.Enqueue.{JobEnqueueRequest, to_core, to_int16}
use service_jobs.Invariant.{IsSound, IsWellFormed, empty-IsWellFormed}
use service_jobs.Watching.{calm, changes, observed}
use service_jobs.Watching.Stored.{Stands, polled, seen_jobs, watch_finishes}
use service_jobs.Server.{
  State, handle, enqueued, got, enqueue, get, settle, claim, claimed, settled,
}
use service_jobs.Server.Refusals.{refuses, refused_unchanged}
use service_jobs.Server.Work.{work_reaches_owner}
use service_jobs.Server.RoundTrip.{submit_then_read}
use service_jobs.Tests.Data.{
  a_validator, some_formats, a_call, a_session, a_call-IsHealthy, a_session-IsHealthy,
}
use service_jobs.Tests.Tables.{waiting, jobs, jobs-IsWellFormed, waiting-in}
use service_jobs.Tests.Runs.{a_process, no_cache}

abbrev submission : JobEnqueueRequest
submission = record {
  kind = "mail";
  payload = none;
  owner_id = "seven";
  idempotency_key = some "k";
  max_attempts = pos 3;
}

submission-valid : Enqueue.is_valid a_validator (to_core submission 7) ≡ true
unfolding Enqueue.is_valid to_core validate_not_blank to_int16
submission-valid = refl

abbrev empty : State
empty = record { jobs = []; cache = no_cache }

submit_then_read_example :
    let (reply, s') = handle a_process (enqueue submission (ok 1) a_call) empty in
    (job : ProtoJob) × (reply ≡ enqueued (answered (record { job = job; created = true })))
    × (job.kind ≡ "mail")
    × (job.payload ≡ b'{' ∷ b'}' ∷ [])
    × (job.status ≡ pending)
    × (handle a_process (get (record { id = job.id; owner_id = "seven" }) a_call) s'
        ≡ (got (answered (record { job = job })), s'))
submit_then_read_example =
    submit_then_read a_process a_call a_call submission 7 1 3 (b'{' ∷ b'}' ∷ []) empty refl refl
      (omega arith) submission-valid refl refl refl refl (omega arith) refl empty-IsWellFormed
      a_call-IsHealthy a_call-IsHealthy

abbrev take_mail : Wire.JobClaimRequest
take_mail = record { kinds = "mail" ∷ []; worker_id = "x"; limit = pos 9; lease_seconds = pos 60 }

take_mail-valid : Claim.is_valid a_validator (Wire.to_core take_mail) ≡ true
unfolding Claim.is_valid Wire.to_core
take_mail-valid = refl

one_done-valid :
    Settle.is_valid a_validator (record { id = 1; worker_id = "x"; result = none; failure = none })
    ≡ true
unfolding Settle.is_valid
one_done-valid = refl

own_read-valid : Get.is_valid a_validator (record { id = 1; owner_id = 7 }) ≡ true
unfolding Get.is_valid
own_read-valid = refl

abbrev four_jobs : State
four_jobs = record { jobs = jobs; cache = no_cache }

work_reaches_owner_example :
    let done_one : JobSettleRequest = record {
      id = "one";
      worker_id = "x";
      outcome = result none;
    } in
    let (given, s₁) = handle a_process (claim take_mail a_call) four_jobs in
    let (answer, s₂) = handle a_process (settle done_one a_session) s₁ in
    let (seen, s₃) = handle a_process (get (record { id = "one"; owner_id = "seven" }) a_call) s₂ in
    (protos : List ProtoJob) × (run done : ProtoJob) × (given
      ≡ claimed (answered (record { jobs = protos })))
    × Memᴰ run protos
    × (run.id ≡ "one")
    × (run.payload ≡ [])
    × (run.attempt ≡ 1)
    × (answer ≡ settled (answered (record { job = done })))
    × (done.id ≡ "one")
    × (done.status ≡ succeeded)
    × (done.result ≡ none)
    × (done.attempt ≡ 1)
    × (seen ≡ got (answered (record { job = done })))
work_reaches_owner_example =
    work_reaches_owner a_process a_call a_call a_session take_mail "seven" none none waiting
      four_jobs 9 jobs-IsWellFormed waiting-in refl refl (omega arith) refl refl (omega arith)
      take_mail-valid one_done-valid own_read-valid refl refl refl a_call-IsHealthy
      a_session-IsHealthy a_call-IsHealthy

abbrev done_one : Job
done_one = record waiting {
  status = DaoJob.succeeded;
  attempt = 1;
  settled_at = some 9;
  expires_at = some 90;
}

one_row-IsWellFormed : (j : Job) → IsSound j → IsWellFormed (j ∷ [])
one_row-IsWellFormed j s = record { sound = (s, tt); ids_differ = (tt, tt); keys_differ = (tt, tt) }

waiting-Stands : Stands 1 7 (waiting ∷ [], waiting)
waiting-Stands = (one_row-IsWellFormed waiting (ground arith), Memᴰ.head refl, refl, refl)

done_one-Stands : Stands 1 7 (done_one ∷ [], done_one)
done_one-Stands = (one_row-IsWellFormed done_one (ground arith), Memᴰ.head refl, refl, refl)

abbrev polls : List (Table × Job)
polls = (waiting ∷ [], waiting) ∷ (waiting ∷ [], waiting) ∷ (done_one ∷ [], done_one) ∷ []

watch_finishes_example :
    job_watch some_formats
      (Get.exec a_validator a_call)
      (record { id = "one"; owner_id = "seven" })
      (map calm (map polled polls))
    ≡ (map (job_to_proto some_formats) (changes none (observed (seen_jobs polls))), finished)
watch_finishes_example =
    watch_finishes some_formats a_validator a_call (record { id = "one"; owner_id = "seven" }) 1 7
      polls (done_one ∷ []) done_one refl refl own_read-valid a_call-IsHealthy
      (waiting-Stands, (waiting-Stands, (done_one-Stands, tt)))
      (Memᴰ.tail (Memᴰ.tail (Memᴰ.head refl))) refl

-- Another worker reports the job that the worker x does not hold.
abbrev late_report : JobSettleRequest
late_report = record { id = "one"; worker_id = "x"; outcome = result none }

late_report-refused : refuses (handle a_process (settle late_report a_session) four_jobs).0 ≡ true
unfolding handle job_settle Settle.exec DaoSettle.exec DaoSettle.statement update_where
late_report-refused = refl

refused_unchanged_example :
    (handle a_process (settle late_report a_session) four_jobs).1.jobs ≡ jobs
refused_unchanged_example =
    refused_unchanged a_process (settle late_report a_session) four_jobs (refl, refl, refl)
      late_report-refused
