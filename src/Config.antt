-- ===== src/Config.antt =====
-- The settings that the process reads from its environment (internal/config/env/env.go). The environment
-- is what `os.Getenv` answers, the empty text for a name that is not set. The loader and the parsers
-- are library code.
pub mod App
pub mod Embedding
use Prim.Native.String.{◌++◌}
use service_jobs.Prelude.{Bool, true, false, ◌≡◌, ◌≢◌, List, [], ◌∷◌, String}
use service_jobs.Prelude.Int.{ℤ, pos}
use service_jobs.Errors.{GoError, Result, ok, err}

-- Library code: `config.LoadEnv` with its parsers, and the choices `lo.Ternary` and
-- `lo.If(…).ElseIf(…).Else(…)`.
pub record Library : Type 1 where
  pub load_env : {T : Type 0} → String → T → (String → Result T) → T
  pub int_parser : String → Result ℤ
  pub string_parser : String → Result String
  pub bool_parser : String → Result Bool
  pub duration_parser : String → Result ℤ
  pub ternary : {T : Type 0} → Bool → T → T → T
  pub if_else_if : {T : Type 0} → Bool → T → Bool → T → T → T

-- What its documentation says: the loader returns the default for an empty value and for one that the
-- parser refuses, and the choices choose.
pub record IsDocumented (l : Library) : Type 1 where
  pub unset :
      {T : Type 0} (fallback : T) (parse : String → Result T)
      → l.load_env "" fallback parse ≡ fallback
  pub misread :
      {T : Type 0} (s : String) (fallback : T) (parse : String → Result T) (e : GoError)
      → parse s ≡ err e
      → l.load_env s fallback parse ≡ fallback
  pub read :
      {T : Type 0} (s : String) (fallback : T) (parse : String → Result T) (x : T)
      → s ≢ ""
      → parse s ≡ ok x
      → l.load_env s fallback parse ≡ x
  pub ternary_true : {T : Type 0} (a b : T) → l.ternary true a b ≡ a
  pub ternary_false : {T : Type 0} (a b : T) → l.ternary false a b ≡ b
  pub if_true : {T : Type 0} (q : Bool) (a b c : T) → l.if_else_if true a q b c ≡ a
  pub else_if_true : {T : Type 0} (a b c : T) → l.if_else_if false a true b c ≡ b
  pub else_true : {T : Type 0} (a b c : T) → l.if_else_if false a false b c ≡ c

abbrev pub Environ : Type 0
Environ = String → String

-- `getEnv`: each name is read under the prefix of SERVICE_JOBS_ENV_PREFIX.
unfoldable pub get_env : Environ → String → String
get_env getenv name = getenv (getenv "SERVICE_JOBS_ENV_PREFIX" ++ name)

abbrev pub app_name_default : String
app_name_default = "service-jobs"

abbrev pub grpc_port_default : ℤ
grpc_port_default = pos 8080

-- Five seconds, in nanoseconds.
abbrev pub grpc_default_ping : ℤ
grpc_default_ping = pos 5000000000

abbrev pub postgres_max_open_conns_default : ℤ
postgres_max_open_conns_default = pos 20

abbrev pub postgres_max_idle_conns_default : ℤ
postgres_max_idle_conns_default = pos 20

-- The raw values, before parsing.
pub record Raw : Type 0 where
  pub postgres_dsn : String
  pub postgres_max_open_conns : String
  pub postgres_max_idle_conns : String
  pub app_name : String
  pub otel : String
  pub grpc_port : String
  pub grpc_url : String
  pub grpc_ping : String
  pub reaper_interval : String
  pub gcloud_project_id : String

unfoldable pub raw_of : Environ → Raw
raw_of g = record {
  postgres_dsn = get_env g "POSTGRES_DSN";
  postgres_max_open_conns = get_env g "POSTGRES_MAX_OPEN_CONNS";
  postgres_max_idle_conns = get_env g "POSTGRES_MAX_IDLE_CONNS";
  app_name = get_env g "APP_NAME";
  otel = get_env g "OTEL";
  grpc_port = get_env g "GRPC_PORT";
  grpc_url = get_env g "GRPC_URL";
  grpc_ping = get_env g "GRPC_PING";
  reaper_interval = get_env g "REAPER_INTERVAL";
  gcloud_project_id = get_env g "GCLOUD_PROJECT_ID";
}

-- The exported settings; the interval of the reaper stays raw, for the boot to check.
pub record Settings : Type 0 where
  pub postgres_dsn : String
  pub postgres_max_open_conns : ℤ
  pub postgres_max_idle_conns : ℤ
  pub app_name : String
  pub otel : Bool
  pub grpc_port : ℤ
  pub grpc_url : String
  pub grpc_ping : ℤ
  pub gcloud_project_id : String
  pub raw_reaper_interval : String

unfoldable pub settings : Library → Raw → Settings
settings l raw = record {
  postgres_dsn = raw.postgres_dsn;
  postgres_max_open_conns =
      l.load_env raw.postgres_max_open_conns postgres_max_open_conns_default l.int_parser;
  postgres_max_idle_conns =
      l.load_env raw.postgres_max_idle_conns postgres_max_idle_conns_default l.int_parser;
  app_name = l.load_env raw.app_name app_name_default l.string_parser;
  otel = l.load_env raw.otel false l.bool_parser;
  grpc_port = l.load_env raw.grpc_port grpc_port_default l.int_parser;
  grpc_url = raw.grpc_url;
  grpc_ping = l.load_env raw.grpc_ping grpc_default_ping l.duration_parser;
  gcloud_project_id = raw.gcloud_project_id;
  raw_reaper_interval = raw.reaper_interval;
}
