-- ===== src/Tests/Services.antt =====
-- The theorems on the running service and on the reaper, applied to concrete runs.
use service_jobs.Prelude.{◌≡◌, ◌++◌, refl, false, [], ◌∷◌, Memᴰ, some, none}
use service_jobs.Prelude.Int.{pos}
use service_jobs.Errors.{ok}
use service_jobs.Dao.Table.{Table}
use service_jobs.Core.Enqueue as Enqueue
use service_jobs.Core.Reap as Reap
use service_jobs.Invariant.{IsWellFormed}
use service_jobs.System.{
  Service, here, next, reap, enqueue, reachable-IsWellFormed, job_retention_days,
}
use service_jobs.Lifecycle.Terminal.{terminal_stays}
use service_jobs.Reaper.{tick, done, run}
use service_jobs.Loop.{ticks, sweeps, run-sweeps}
use service_jobs.Tests.Data.{a_validator, an_engine, a_call, a_lost_call}
use service_jobs.Tests.Tables.{over, jobs, jobs-IsWellFormed, over-in}

abbrev a_service : Service
a_service = record { validator = a_validator; sha256 = λ b. b; engine = an_engine; purges = false }

abbrev submission : Enqueue.JobEnqueueRequest
submission = record {
  kind = "mail";
  payload = none;
  owner_id = 7;
  idempotency_key = some "k";
  max_attempts = pos 0;
}

abbrev enqueued : Table
enqueued = (Enqueue.exec a_validator (λ b. b) an_engine (ok 20) a_call submission []).1

reachable-IsWellFormed_example : IsWellFormed enqueued
reachable-IsWellFormed_example =
    reachable-IsWellFormed a_service enqueued (next here (enqueue (ok 20) a_call submission refl))

abbrev swept_once : Table
swept_once = (Reap.exec an_engine job_retention_days a_call jobs).1

terminal_stays_example : Memᴰ over swept_once
terminal_stays_example =
    terminal_stays a_service over jobs swept_once (next here (reap a_call refl)) refl refl
      jobs-IsWellFormed over-in

run-sweeps_example :
    run
      (Reap.exec an_engine job_retention_days)
      a_call
      (ticks (a_lost_call ∷ []) ++ done ∷ tick a_call ∷ [])
      jobs
    ≡ (sweeps a_service (a_call ∷ a_lost_call ∷ []) jobs, tick a_call ∷ [])
run-sweeps_example = run-sweeps a_service a_call (a_lost_call ∷ []) (tick a_call ∷ []) jobs
