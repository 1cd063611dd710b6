-- ===== src/Tests/Deployments.antt =====
-- The theorem on restarts, applied to a deployment that fails once to connect and once to listen.
use service_jobs.Prelude.{refl, true, inl, List, [], ◌∷◌, Option, none, some, String}
use service_jobs.Prelude.Int.{pos}
use service_jobs.Errors.{GoError, foreign, ok}
use service_jobs.Handlers.Enqueue.{JobEnqueueRequest}
use service_jobs.Migrations.{Runner, migrate}
use service_jobs.Server.{Process, Event, call, tick, interrupt, enqueue}
use service_jobs.Deployment.{
  Database, Command, migrates, serves, purges, run_command, run_commands, IsRunner, AllMeet,
}
use service_jobs.Deployment.Restarts.{IsReached, restarts_reach}
use service_jobs.Tests.Data.{a_call}
use service_jobs.Tests.Settings.{a_library, own}
use service_jobs.Tests.Runs.{a_process, a_service}
use service_jobs.Tests.Launches.{a_platform, port_taken}

abbrev applied : List String → Database → Option GoError × Database
applied files none = (none, some [])
applied files (some t) = (none, some t)

abbrev a_runner : Runner Database
a_runner = record { new_context = λ c. none; run_migrations = applied }

abbrev unreachable : Runner Database
unreachable = record a_runner { new_context = λ c. some (foreign "connection refused") }

abbrev purging_process : Process
purging_process = record a_process { service = record a_service { purges = true } }

abbrev a_submission : JobEnqueueRequest
a_submission = record {
  kind = "mail";
  payload = none;
  owner_id = "seven";
  idempotency_key = none;
  max_attempts = pos 2;
}

abbrev an_hour : List Event
an_hour = call (enqueue a_submission (ok 20) a_call) ∷ tick a_call ∷ interrupt ∷ []

abbrev commands : List Command
commands =
    migrates own unreachable
    ∷ migrates own a_runner
    ∷ serves own a_platform an_hour
    ∷ purges a_call.clock
    ∷ migrates own a_runner
    ∷ serves own port_taken an_hour
    ∷ serves own a_platform an_hour
    ∷ []

a_runner-IsRunner : IsRunner a_library purging_process a_runner
a_runner-IsRunner = record { creates = inl refl; keeps = λ t. refl }

unreachable-IsRunner : IsRunner a_library purging_process unreachable
unreachable-IsRunner = record { creates = inl refl; keeps = λ t. refl }

commands-AllMeet : AllMeet a_library purging_process commands none
unfolding run_command migrate
commands-AllMeet = (
  unreachable-IsRunner,
  (a_runner-IsRunner, ((tt, tt), (tt, (a_runner-IsRunner, ((tt, tt), ((tt, tt), tt)))))),
)

restarts_reach_example :
    IsReached purging_process (run_commands a_library purging_process commands none)
restarts_reach_example = restarts_reach a_library purging_process commands commands-AllMeet
