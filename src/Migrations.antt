-- ===== src/Migrations.antt =====
-- The migrations command (cmd/migrations/main.go) with the files that it embeds
-- (internal/models/migrations/migrations.go). The handle and the runner are golib's, and parameters.
use service_jobs.Prelude.{List, [], ◌∷◌, Option, some, none, String}
use service_jobs.Errors.{GoError}
use service_jobs.Config.App.{Postgres}

-- `migrations.Migrations`: the names of the files, in order.
abbrev pub migrations : List String
migrations = "20260722233602_jobs_table.down.sql" ∷ "20260722233602_jobs_table.up.sql" ∷ []

-- `postgres.NewContext` and `postgres.RunMigrationsContext`, on a database.
pub record Runner (Db : Type 0) : Type 0 where
  pub new_context : Postgres → Option GoError
  pub run_migrations : List String → Db → Option GoError × Db

abbrev pub once_opened : {Db : Type 0} → Runner Db → Option GoError → Db → Option GoError × Db
once_opened x (some e) db = (some e, db)
once_opened x none db = x.run_migrations migrations db

-- main: what it panics with, if it does, and the database that it leaves.
unfoldable pub migrate : {Db : Type 0} → Runner Db → Postgres → Db → Option GoError × Db
migrate x preset db = once_opened x (x.new_context preset) db
