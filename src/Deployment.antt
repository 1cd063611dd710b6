-- ===== src/Deployment.antt =====
-- The commands of the repository on one database, one after the other: cmd/migrations/main.go,
-- cmd/grpc/main.go with its restarts, and the scheduled purge of builds/database.sql.
pub mod Restarts
use service_jobs.Prelude.{◌≡◌, ◌⊎◌, List, [], ◌∷◌, Option, some, none, Bool, true, false}
use service_jobs.Errors.{GoError}
use service_jobs.Dao.Table.{Table, Readings}
use service_jobs.Dao.Purge.{purge}
use service_jobs.Config.{Library, Environ, settings, raw_of}
use service_jobs.Config.App.{new_postgres_preset}
use service_jobs.Migrations.{Runner, migrations, migrate}
use service_jobs.Server.{Process, State, Event}
use service_jobs.Server.Launch.{Platform, launch}
use service_jobs.Server.Steps.{AllMeetSteps}

-- The jobs table, once there is one.
abbrev pub Database : Type 0
Database = Option Table

pub data Command : Type 0 where
  migrates : Environ → Runner Database → Command
  serves : Environ → Platform → List Event → Command
  purges : Readings → Command

-- A process starts with an empty cache.
abbrev pub booted : Table → State
booted t = record { jobs = t; cache = record { cached = none; cached_at = 0 } }

-- The purge runs where the database schedules it.
abbrev pub purge_if : Bool → Readings → Table → Table
purge_if true clock t = purge clock t
purge_if false clock t = t

module _ (l : Library) (p : Process) where
  -- Without the table, a process and a purge have nothing to write to.
  unfoldable pub run_command : Command → Database → Database
  run_command (migrates g x) db = (migrate x (new_postgres_preset (settings l (raw_of g))) db).1
  run_command (serves g pf es) none = none
  run_command (serves g pf es) (some t) = some (launch l pf p g es (booted t)).state.jobs
  run_command (purges clock) none = none
  run_command (purges clock) (some t) = some (purge_if p.service.purges clock t)

  unfoldable pub run_commands : List Command → Database → Database
  run_commands [] db = db
  run_commands (c ∷ cs) db = run_commands cs (run_command c db)

  -- What the runner documents: it applies the files to a database without them, or fails and leaves it;
  -- and where they are applied it changes nothing.
  pub record IsRunner (x : Runner Database) : Type 0 where
    pub creates :
        (x.run_migrations migrations none ≡ (none, some []))
        ⊎ ((e : GoError) × (x.run_migrations migrations none ≡ (some e, none)))
    pub keeps : (t : Table) → (x.run_migrations migrations (some t)).1 ≡ some t

  abbrev pub Meets : Command → Database → Type 0
  Meets (migrates g x) db = IsRunner x
  Meets (serves g pf es) none = Unit {0}
  Meets (serves g pf es) (some t) = AllMeetSteps p es (booted t)
  Meets (purges clock) db = Unit {0}

  -- The surroundings of each command.
  abbrev pub AllMeet : List Command → Database → Type 0
  AllMeet [] db = Unit {0}
  AllMeet (c ∷ cs) db = Meets c db × AllMeet cs (run_command c db)
