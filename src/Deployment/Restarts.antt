-- ===== src/Deployment/Restarts.antt =====
-- The jobs table across migrations and restarts (cmd/migrations/main.go and cmd/grpc/main.go).
use service_jobs.Prelude.{Bool, ◌≡◌, refl, true, false, inl, inr, List, [], ◌∷◌, Option, some, none}
use service_jobs.Prelude.Int.{ℤ}
use service_jobs.Errors.{GoError, Result, ok, err}
use service_jobs.Dao.Table.{Table, Readings}
use service_jobs.Reaper.{reaper_interval}
use service_jobs.Config.{Library, Environ, Settings, settings, raw_of}
use service_jobs.Config.App.{App, app_preset_default, new_postgres_preset}
use service_jobs.Migrations.{Runner, migrate, once_opened}
use service_jobs.Invariant.{IsWellFormed}
use service_jobs.System.{Steps, here, next, expire, Steps-append, reachable-IsWellFormed}
use service_jobs.Server.{Process, State, Event, Trace, serve}
use service_jobs.Server.Steps.{AllMeetSteps, serve-Steps}
use service_jobs.Server.Launch.{
  Platform, Launched, must, shut_down, run_server, connect, start_otel, launch_every, launch,
}
use service_jobs.Deployment.{
  Database, Command, migrates, serves, purges, booted, purge_if, run_command, run_commands,
  IsRunner, Meets, AllMeet,
}

-- What holds of the state before main and of what its server leaves holds of what main leaves.
module _ (P : State → Type 0) (pf : Platform) (p : Process) (a : App) (es : List Event) (s : State)
    (before : P s) (after : P (serve p es s).1) where
  must-state : (part : Option GoError) (rest : Launched) → P rest.state → P (must part s rest).state
  must-state none rest h = h
  must-state (some e) rest h = before

  shut_down-state :
      (failed : Option GoError) (ts : List Trace) (s' : State)
      → P s'
      → P (shut_down failed ts s').state
  shut_down-state none ts s' h = h
  shut_down-state (some e) ts s' h = h

  start_otel-state :
      (started : Option GoError) (c : Settings) (rest : Launched)
      → P rest.state
      → P (start_otel started a c s rest).state
  start_otel-state none c rest h = h
  start_otel-state (some e) c rest h = before

  launch_every-state :
      (c : Settings) (interval : Result ℤ) → P (launch_every pf p a c interval es s).state
  unfolding connect run_server
  launch_every-state c (err e) = before
  launch_every-state c (ok n) = start_otel-state (pf.init_otel a.otel) c _ (
      must-state (pf.new_context a.postgres) _
        (must-state (pf.listen _) _ (shut_down-state pf.serve_failed _ _ after)))

launch-Steps :
    (l : Library) (pf : Platform) (p : Process) (g : Environ) (es : List Event) (s : State)
    → AllMeetSteps p es s
    → Steps p.service s.jobs (launch l pf p g es s).state.jobs
unfolding launch
launch-Steps l pf p g es s meets =
    let c = settings l (raw_of g) in
    launch_every-state (λ s'. Steps p.service s.jobs s'.jobs) pf p (app_preset_default l c) es s
      here (serve-Steps p es s meets) c (reaper_interval pf.parse_duration c.raw_reaper_interval)

-- The table, where there is one, is one that the system's operations reach from an empty one.
abbrev pub IsReached : Process → Database → Type 0
IsReached p none = Unit {0}
IsReached p (some t) = Steps p.service [] t × IsWellFormed t

module _ (l : Library) (p : Process) where
  reached : (t : Table) → Steps p.service [] t → IsReached p (some t)
  reached t path = (path, reachable-IsWellFormed p.service t path)

  once_opened-IsReached :
      (x : Runner Database) (failed : Option GoError) (db : Database)
      → IsRunner l p x
      → IsReached p db
      → IsReached p (once_opened x failed db).1
  once_opened-IsReached x (some e) db runs h = h
  once_opened-IsReached x none none runs h = elim runs.creates [
    | inl made ↦ rw made (reached [] here)
    | inr (e, failed) ↦ rw failed tt
  ]
  once_opened-IsReached x none (some t) runs h = rw (runs.keeps t) h

  purge_if-IsReached :
      (scheduled : Bool) (clock : Readings) (t : Table)
      → p.service.purges ≡ scheduled
      → IsReached p (some t)
      → IsReached p (some (purge_if scheduled clock t))
  purge_if-IsReached true clock t e h = reached _ (next h.0 (expire clock e refl))
  purge_if-IsReached false clock t e h = h

  command-IsReached :
      (c : Command) (db : Database)
      → Meets l p c db
      → IsReached p db
      → IsReached p (run_command l p c db)
  unfolding run_command migrate
  command-IsReached (migrates g x) db m h =
      once_opened-IsReached x (x.new_context (new_postgres_preset (settings l (raw_of g)))) db m h
  command-IsReached (serves g pf es) none m h = tt
  command-IsReached (serves g pf es) (some t) m h =
      reached _ (Steps-append p.service h.0 (launch-Steps l pf p g es (booted t) m))
  command-IsReached (purges clock) none m h = tt
  command-IsReached (purges clock) (some t) m h = purge_if-IsReached p.service.purges clock t refl h

  commands-IsReached :
      (cs : List Command) (db : Database)
      → AllMeet l p cs db
      → IsReached p db
      → IsReached p (run_commands l p cs db)
  unfolding run_commands
  commands-IsReached [] db m h = h
  commands-IsReached (c ∷ cs) db m h =
      commands-IsReached cs (run_command l p c db) m.1 (command-IsReached c db m.0 h)

-- On a database that starts without a schema, run the migrations command, the service and the scheduled
-- purge in any order and as often as you like, each service in its own environment, whichever of its
-- parts start, and with an empty cache. Then there is no jobs table, or one that the system's
-- operations reach from an empty table, and it is well formed. It is assumed that the runner of
-- the migrations applies them or leaves the database, and leaves one that has them; and that other
-- sessions commit only steps of the system between a settle's read and its write, and none that
-- gives its worker the job anew.
pub restarts_reach :
    (l : Library) (p : Process) (cs : List Command)
    → AllMeet l p cs none
    → IsReached p (run_commands l p cs none)
restarts_reach l p cs m = commands-IsReached l p cs none m tt
