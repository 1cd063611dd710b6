-- ===== src/Tests/Outcomes.antt =====
-- The theorems on settling and sweeping, applied to concrete calls.
use service_jobs.Prelude.{true, ◌≡◌, refl, [], ◌∷◌, some, none}
use service_jobs.Prelude.Int.{pos}
use service_jobs.Dao.Table.{Table}
use service_jobs.Dao.Job.{Job}
use service_jobs.Core.Settle as Settle
use service_jobs.Core.Reap as Reap
use service_jobs.Settling.{IsRefusedWith, not_claimed}
use service_jobs.Settling.Stale.{stale_settle}
use service_jobs.Settling.Race.{retry_race, internal_error}
use service_jobs.Tests.Data.{
  a_validator, an_engine, a_session, a_call-IsHealthy, a_session-IsHealthy,
}
use service_jobs.Tests.Tables.{
  waiting, waiting_longer, running, over, jobs, jobs-IsWellFormed, running-in,
}

-- A retryable failure of the job 3, as its holder and as another worker.
abbrev failure : Settle.JobFailure
failure = record { error = some (b'1' ∷ []); retryable = true }

abbrev own_report : Settle.JobSettleRequest
own_report = record { id = 3; worker_id = "w"; result = none; failure = some failure }

abbrev stale_report : Settle.JobSettleRequest
stale_report = record own_report { worker_id = "x" }

own_report-valid : Settle.is_valid a_validator own_report ≡ true
unfolding Settle.is_valid
own_report-valid = refl

stale_report-valid : Settle.is_valid a_validator stale_report ≡ true
unfolding Settle.is_valid
stale_report-valid = refl

stale_settle_example :
    IsRefusedWith not_claimed
      (Settle.exec a_validator an_engine (pos 7) a_session stale_report jobs).0
    × ((Settle.exec a_validator an_engine (pos 7) a_session stale_report jobs).1 ≡ jobs)
stale_settle_example =
    stale_settle a_validator an_engine (pos 7) a_session stale_report jobs stale_report-valid
      a_session-IsHealthy refl refl (refl, (refl, (refl, (refl, tt))))

-- The reaper recovers the job between the read and the write.
abbrev raced : Table
raced = waiting ∷ waiting_longer ∷ over ∷ []

abbrev a_raced_session : Settle.Session
a_raced_session = record a_session { between = λ t. raced }

retry_race_example :
    IsRefusedWith internal_error
      (Settle.exec a_validator an_engine (pos 7) a_raced_session own_report jobs).0
    × ((Settle.exec a_validator an_engine (pos 7) a_raced_session own_report jobs).1 ≡ raced)
retry_race_example =
    retry_race a_validator an_engine (pos 7) a_raced_session own_report jobs running failure
      own_report-valid refl refl jobs-IsWellFormed
      (record {
        reads = a_call-IsHealthy;
        writes = a_call-IsHealthy;
        begins = refl;
        commits = refl;
        confirms = refl;
      })
      refl running-in refl (refl, (refl, (refl, tt)))
