-- ===== src/Server/Launch.antt =====
-- The main function of cmd/grpc/main.go as a whole: what it starts, in which order, where it stops when a
-- part does not start, and what runs on the way out.
use Prim.Native.String.{◌++◌}
use service_jobs.Prelude.{
  List, [], ◌∷◌, ◌++◌ as ◌+++◌, Option, some, none, String, str_eq, if◌then◌else◌,
}
use service_jobs.Prelude.Int.{ℤ}
use service_jobs.Errors.{GoError, Result, ok, err}
use service_jobs.Dao.Table.{Table}
use service_jobs.Dao.Exec.{Call}
use service_jobs.Core.Reap as Reap
use service_jobs.Reaper.{reaper_interval, Reaper, new_reaper}
use service_jobs.Config.{Library, Environ, Settings, settings, raw_of}
use service_jobs.Config.App.{App, Otel, Postgres, app_preset_default}
use service_jobs.System.{job_retention_days}
use service_jobs.Server.{Process, State, Event, Trace, serve}

-- The packages outside the repository: each part starts or has an error, and numbers, durations and
-- errors have a printed form. The last field is the error of `server.Serve`, if it returns one.
pub record Platform : Type 0 where
  pub parse_duration : String → Result ℤ
  pub init_otel : Otel → Option GoError
  pub new_context : Postgres → Option GoError
  pub listen : String → Option GoError
  pub show_int : ℤ → String
  pub show_duration : ℤ → String
  pub show_error : GoError → String
  pub serve_failed : Option GoError

-- What main does, in order.
pub data Action : Type 0 where
  app_named : String → Action
  otel_started : Otel → Action
  flags_set : Action
  pool_opened : Postgres → Action
  printed : String → Action
  listening : String → Action
  echo_registered : (ping : ℤ) → Action
  served : List Trace → Action
  reaper_stopped : Action
  reaper_awaited : Action
  server_stopped : Action
  flushed : Action

-- How the process ends: `log.Fatalf`, which runs nothing deferred; a panic of main, which does; a panic
-- of the serving goroutine, which does not; or the return of main.
pub data Exit : Type 0 where
  fatal : GoError → Exit
  panicked : GoError → Exit
  crashed : GoError → Exit
  returned : Exit

pub record Launched : Type 0 where
  pub actions : List Action
  pub exit : Exit
  pub state : State

abbrev pub did : List Action → Launched → Launched
did before r = record { actions = before +++ r.actions; exit = r.exit; state = r.state }

-- `lo.Must` once the flush is deferred.
abbrev pub must : Option GoError → State → Launched → Launched
must none s rest = rest
must (some e) s rest = record { actions = flushed ∷ []; exit = panicked e; state = s }

abbrev pub address : Platform → App → String
address pf a = "0.0.0.0:" ++ pf.show_int a.grpc.port

-- From the start of the goroutines to the end of main.
abbrev pub shut_down : Option GoError → List Trace → State → Launched
shut_down (some e) ts s = record { actions = served ts ∷ []; exit = crashed e; state = s }
shut_down none ts s = record {
  actions =
      served ts
      ∷ printed "Shutting down gRPC server..."
      ∷ reaper_stopped
      ∷ reaper_awaited
      ∷ server_stopped
      ∷ flushed
      ∷ [];
  exit = returned;
  state = s;
}

-- The listener, the echo service with its interval, and the line that follows the registrations.
abbrev pub opened : Platform → App → List Action
opened pf a =
    listening (address pf a)
    ∷ echo_registered a.grpc.ping
    ∷ printed ("Starting gRPC server on :" ++ pf.show_int a.grpc.port)
    ∷ []

unfoldable pub run_server : Platform → Process → App → List Event → State → Launched
run_server pf p a es s =
    let (ts, s') = serve p es s in did (opened pf a) (shut_down pf.serve_failed ts s')

-- The database's handle, and the line about the reaper.
abbrev pub pool_ready : Platform → App → ℤ → List Action
pool_ready pf a interval =
    pool_opened a.postgres
    ∷ printed (
        "reaper: sweeping every "
        ++ pf.show_duration interval
        ++ ", abandoning at the "
        ++ pf.show_int job_retention_days
        ++ "-day retention horizon")
    ∷ []

-- `lib.NewReaper`, over the service that sweeps.
abbrev pub reaper_of : Process → ℤ → Reaper Call Table
reaper_of p interval = new_reaper (Reap.exec p.service.engine job_retention_days) interval

-- From the handle to the listener.
unfoldable pub connect : Platform → Process → App → ℤ → List Event → State → Launched
unfolding run_server
connect pf p a interval es s = must (pf.new_context a.postgres) s (
    did (pool_ready pf a (reaper_of p interval).interval)
      (must (pf.listen (address pf a)) s (run_server pf p a es s)))

-- `log.SetFlags`, in a run without a project.
abbrev pub flags : Settings → List Action
flags c = if str_eq c.gcloud_project_id "" then flags_set ∷ [] else []

-- The start of the traces comes before the flush is deferred.
abbrev pub start_otel : Option GoError → App → Settings → State → Launched → Launched
start_otel (some e) a c s rest = record { actions = []; exit = panicked e; state = s }
start_otel none a c s rest = did (otel_started a.otel ∷ flags c) rest

abbrev pub launch_every :
    Platform → Process → App → Settings → Result ℤ → List Event → State → Launched
unfolding connect
launch_every pf p a c (err e) es s = record {
  actions = printed ("reaper: " ++ pf.show_error e) ∷ [];
  exit = fatal e;
  state = s;
}
launch_every pf p a c (ok interval) es s =
    did (app_named a.app.name ∷ [])
      (start_otel (pf.init_otel a.otel) a c s (connect pf p a interval es s))

-- main, in an environment.
unfoldable pub launch : Library → Platform → Process → Environ → List Event → State → Launched
unfolding connect reaper_interval
launch l pf p g es s =
    let c = settings l (raw_of g) in
    launch_every pf p (app_preset_default l c) c
      (reaper_interval pf.parse_duration c.raw_reaper_interval) es s
