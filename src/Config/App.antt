-- ===== src/Config/App.antt =====
-- The configuration that the process starts with (internal/config/app.config.go, app.config.default.go
-- and postgres.config.default.go).
use service_jobs.Prelude.{
  true, false, not, ◌≡◌, ◌≢◌, ◌⊎◌, inl, inr, String, str_eq, eq_iff, Bool-cases,
}
use service_jobs.Prelude.Int.{ℤ, pos}
use service_jobs.Config.{Library, IsDocumented, Environ, Settings, settings, raw_of}

-- The OpenTelemetry presets of golib; a time is in nanoseconds.
pub data Otel : Type 0 where
  disabled : Otel
  local : (flush_timeout : ℤ) → Otel
  gcloud : (project_id : String) (flush_timeout : ℤ) → Otel

-- The logging presets.
pub data Logger : Type 0 where
  grpc_local : Logger
  grpc_gcloud : (component : String) → Logger

pub record Main : Type 0 where
  pub name : String

pub record Grpc : Type 0 where
  pub port : ℤ
  pub ping : ℤ

-- The preset over the driver's options, with its two limits.
pub record Postgres : Type 0 where
  pub dsn : String
  pub max_open_conns : ℤ
  pub max_idle_conns : ℤ

pub record App : Type 0 where
  pub app : Main
  pub grpc : Grpc
  pub otel : Otel
  pub logger : Logger
  pub postgres : Postgres

-- `OtelFlushTimeout`, two seconds.
abbrev pub otel_flush_timeout : ℤ
otel_flush_timeout = pos 2000000000

abbrev pub logger_prod : Settings → Logger
logger_prod s = grpc_gcloud s.gcloud_project_id

abbrev pub logger_dev : Logger
logger_dev = grpc_local

-- `newPostgresPreset`.
abbrev pub new_postgres_preset : Settings → Postgres
new_postgres_preset s = record {
  dsn = s.postgres_dsn;
  max_open_conns = s.postgres_max_open_conns;
  max_idle_conns = s.postgres_max_idle_conns;
}

-- `AppPresetDefault`.
unfoldable pub app_preset_default : Library → Settings → App
app_preset_default l s = record {
  app = record { name = s.app_name };
  grpc = record { port = s.grpc_port; ping = s.grpc_ping };
  otel =
      l.if_else_if (not s.otel) disabled (str_eq s.gcloud_project_id "") (local otel_flush_timeout)
        (gcloud s.gcloud_project_id otel_flush_timeout);
  logger = l.ternary (str_eq s.gcloud_project_id "") logger_dev (logger_prod s);
  postgres = new_postgres_preset s;
}

-- The configuration of a process in an environment.
unfoldable pub configuration : Library → Environ → App
configuration l g = app_preset_default l (settings l (raw_of g))

-- The backends agree, over a library that does as documented. Without a project the logs go to the
-- console, and traces are disabled or kept locally as the switch says; with one the logs go to
-- that project, and the traces are disabled or go to the same project.
pub backends_agree :
    (l : Library) (s : Settings)
    → IsDocumented l
    → let a = app_preset_default l s in
      ((s.gcloud_project_id ≡ "")
        × (a.logger ≡ grpc_local)
        × (((s.otel ≡ false) × (a.otel ≡ disabled))
            ⊎ ((s.otel ≡ true) × (a.otel ≡ local otel_flush_timeout))))
      ⊎ ((s.gcloud_project_id ≢ "")
          × (a.logger ≡ grpc_gcloud s.gcloud_project_id)
          × (((s.otel ≡ false) × (a.otel ≡ disabled))
              ⊎ ((s.otel ≡ true) × (a.otel ≡ gcloud s.gcloud_project_id otel_flush_timeout))))
unfolding app_preset_default
backends_agree l s d = elim (Bool-cases (str_eq s.gcloud_project_id "")) [
  | inl local_run ↦ inl (
    (eq_iff s.gcloud_project_id "").0 local_run,
    rw local_run (d.ternary_true _ _),
    elim (Bool-cases s.otel) [
      | inl on ↦ inr (on, rw (local_run, on) (d.else_if_true _ _ _))
      | inr off ↦ inl (off, rw off (d.if_true _ _ _ _))
    ],
  )
  | inr cloud ↦ inr (
    (λ e. let hit = (eq_iff s.gcloud_project_id "").1 e in cc),
    rw cloud (d.ternary_false _ _),
    elim (Bool-cases s.otel) [
      | inl on ↦ inr (on, rw (cloud, on) (d.else_true _ _ _))
      | inr off ↦ inl (off, rw off (d.if_true _ _ _ _))
    ],
  )
]
