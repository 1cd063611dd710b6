-- ===== src/Tests/Runs.antt =====
-- The theorems on whole runs, applied to concrete processes and tables.
use service_jobs.Prelude.{
  ℕ, ◌+◌, ◌*◌, ◌≡◌, ◌≢◌, ◌≤◌, refl, true, false, List, [], ◌∷◌, map, length, Memᴰ, none, arith,
}
use service_jobs.Prelude.Int.{ℤ, pos}
use service_jobs.Errors.{ok}
use service_jobs.Dao.Job.{Job}
use service_jobs.Dao.Table.{Table}
use service_jobs.Dao.Exec.{Call}
use service_jobs.Core.Job.{job_to_core}
use service_jobs.Core.Claim as Claim
use service_jobs.Dao.Claim.{kind_in}
use service_jobs.Core.Reap as Reap
use service_jobs.Core.Depth.{QueueDepth, queue_depth}
use service_jobs.Core.Settle as Settle
use service_jobs.Handlers.Settle.{JobSettleRequest, result, settle_request}
use service_jobs.Handlers.Status.{Duration, Cache}
use service_jobs.Invariant.{IsWellFormed}
use service_jobs.Invariant.Exec.{IsHealthy}
use service_jobs.Invariant.Retry.{SameClaim}
use service_jobs.System.{Service, Steps, here, next, claim, reap, job_retention_days}
use service_jobs.Server.{Process, State, Event, serve, call, tick, interrupt, settle}
use service_jobs.Server.Steps.{serve-Steps, AllMeetSteps}
use service_jobs.Abstract.{phase_of, absent}
use service_jobs.Abstract.Runs.{StepsFollow}
use service_jobs.Abstract.Steps.{service_refines}
use service_jobs.Abstract.Bounds.{life_bounded, count, moved, taken_up}
use service_jobs.Claims.Whole.{claims_backlog}
use service_jobs.Recovery.Crashes.{Round, crashes, crashes_abandon, AreCrashes, IsGivenUp}
use service_jobs.Tests.Data.{
  a_validator, an_engine, a_call, a_session, some_formats, a_call-IsHealthy,
}
use service_jobs.Tests.Tables.{waiting, running, jobs, jobs-IsWellFormed, waiting-in}

abbrev pub a_service : Service
a_service = record { validator = a_validator; sha256 = λ b. b; engine = an_engine; purges = false }

abbrev pub to_duration : ℤ → Duration
to_duration z = record { seconds = z; nanos = pos 0 }

abbrev pub a_process : Process
a_process = record {
  service = a_service;
  formats = some_formats;
  duration = λ z. z;
  durationpb = to_duration;
}

abbrev pub no_cache : Cache
no_cache = record { cached = none; cached_at = 0 }

abbrev pub held_one : Job
held_one = record running { id = 1 }

abbrev pub one_held : State
one_held = record { jobs = held_one ∷ []; cache = no_cache }

pub held_one-IsWellFormed : IsWellFormed (held_one ∷ [])
held_one-IsWellFormed = record {
  sound = (ground arith, tt);
  ids_differ = (tt, tt);
  keys_differ = (tt, tt);
}

one_row-SameClaim : (r : Settle.JobSettleRequest) (x : Job) → SameClaim r (x ∷ []) (x ∷ [])
one_row-SameClaim r x j k (Memᴰ.head e) (Memᴰ.head f) h h' = rw (e, f) (refl, refl)
one_row-SameClaim r x j k (Memᴰ.head e) (Memᴰ.tail n) h h' = elim n [ ]
one_row-SameClaim r x j k (Memᴰ.tail m) n h h' = elim m [ ]

abbrev pub success : JobSettleRequest
success = record { id = "one"; worker_id = "w"; outcome = result none }

abbrev pub events : List Event
events = call (settle success a_session) ∷ tick a_call ∷ interrupt ∷ []

pub events-AllMeetSteps : AllMeetSteps a_process events one_held
events-AllMeetSteps =
    ((here, λ id parsed. one_row-SameClaim (settle_request id "w" (result none)) held_one), tt)

serve-Steps_example : Steps a_service (held_one ∷ []) (serve a_process events one_held).1.jobs
serve-Steps_example = serve-Steps a_process events one_held events-AllMeetSteps

abbrev pub all_mail : Claim.JobClaimRequest
all_mail = record { kinds = "mail" ∷ []; worker_id = "x"; limit = pos 9; lease_seconds = pos 60 }

abbrev all_claimed : Table
all_claimed = (Claim.exec a_validator a_call all_mail jobs).1

abbrev swept : Table
swept = (Reap.exec an_engine job_retention_days a_call all_claimed).1

abbrev claim_and_sweep : Steps a_service jobs swept
claim_and_sweep = next (next here (claim a_call all_mail refl)) (reap a_call refl)

service_refines_example : StepsFollow a_service 1 claim_and_sweep
service_refines_example = service_refines a_service 1 jobs swept claim_and_sweep jobs-IsWellFormed

life_bounded_example :
    (phase_of 1 swept ≢ absent)
    × StepsFollow a_service 1 claim_and_sweep
    × ((f : StepsFollow a_service 1 claim_and_sweep)
        → (count taken_up a_service 1 claim_and_sweep f ≤ 2)
          × (count moved a_service 1 claim_and_sweep f ≤ 2 * 2 + 1))
life_bounded_example =
    life_bounded a_service 1 2 jobs swept claim_and_sweep refl jobs-IsWellFormed refl

all_mail-valid : Claim.is_valid a_validator all_mail ≡ true
unfolding Claim.is_valid
all_mail-valid = refl

wanted_free :
    (j : Job)
    → Memᴰ j (waiting ∷ [])
    → (kind_in ("mail" ∷ []) j.kind ≡ true)
      × (a_call.locked j.id ≡ false)
      × (a_call.clock j.id 0 ≡ a_call.clock j.id 0)
wanted_free j (Memᴰ.head e) = (rw e refl, refl, refl)
wanted_free j (Memᴰ.tail m) = elim m [ ]

waiting-IsWellFormed : IsWellFormed (waiting ∷ [])
waiting-IsWellFormed = record {
  sound = (ground arith, tt);
  ids_differ = (tt, tt);
  keys_differ = (tt, tt);
}

claims_backlog_example :
    (rows : List Job) × (d : QueueDepth) × ((Claim.exec a_validator a_call all_mail
        (waiting ∷ [])).0
      ≡ ok (map job_to_core rows))
    × (queue_depth (λ z. z) a_call (waiting ∷ []) ≡ (ok d, waiting ∷ []))
    × (length rows ≡ d.pending)
claims_backlog_example =
    claims_backlog a_validator a_call a_call (λ z. z) all_mail 9 (waiting ∷ []) all_mail-valid refl
      (omega arith) a_call-IsHealthy a_call-IsHealthy waiting-IsWellFormed wanted_free

abbrev later : ℕ → ℕ → Call
later base step = record a_call { clock = λ id site. base * 100000000 + step }

-- Two claims whose workers die, each with the sweep after it.
abbrev rounds : List Round
rounds =
    record { claiming = later 1 0; sweeping = later 2 0 }
    ∷ record { claiming = later 3 0; sweeping = later 4 0 }
    ∷ []

later-IsHealthy : (base step : ℕ) → IsHealthy (later base step)
later-IsHealthy base step = record { context = refl; runs = refl; answers = refl }

rounds-AreCrashes : AreCrashes all_mail 1 5 rounds
rounds-AreCrashes = (
  record {
    claims = later-IsHealthy 1 0;
    sweeps = later-IsHealthy 2 0;
    ready = omega arith;
    late = omega arith;
    free = refl;
    free_after = refl;
  },
  (
    record {
      claims = later-IsHealthy 3 0;
      sweeps = later-IsHealthy 4 0;
      ready = omega arith;
      late = omega arith;
      free = refl;
      free_after = refl;
    },
    tt,
  ),
)

crashes_abandon_example :
    (z : Job) × Memᴰ z (crashes a_service all_mail rounds jobs)
    × IsGivenUp Reap.job_reap_error waiting z
crashes_abandon_example =
    crashes_abandon a_service all_mail 9 Reap.job_reap_error rounds jobs waiting all_mail-valid refl
      refl refl jobs-IsWellFormed (omega arith) waiting-in refl refl rounds-AreCrashes (omega arith)
