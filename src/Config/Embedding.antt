-- ===== src/Config/Embedding.antt =====
-- Running inside another project (the prefix of internal/config/env/env.go).
use Prim.Native.String.{◌++◌}
use Prim.Native.String.append.{nil}
use service_jobs.Prelude.{◌≡◌, refl, List, [], ◌∷◌, String, All, All-imp}
use service_jobs.Config.{Library, Environ, get_env, raw_of}
use service_jobs.Config.App.{configuration}

-- The names of the settings.
abbrev pub names : List String
names =
    "POSTGRES_DSN" ∷ "POSTGRES_MAX_OPEN_CONNS" ∷ "POSTGRES_MAX_IDLE_CONNS" ∷ "APP_NAME" ∷ "OTEL"
    ∷ "GRPC_PORT" ∷ "GRPC_URL" ∷ "GRPC_PING" ∷ "REAPER_INTERVAL" ∷ "GCLOUD_PROJECT_ID" ∷ []

prefixed :
    (g host : Environ) (prefix name : String)
    → g "SERVICE_JOBS_ENV_PREFIX" ≡ ""
    → host "SERVICE_JOBS_ENV_PREFIX" ≡ prefix
    → host (prefix ++ name) ≡ g name
    → get_env host name ≡ get_env g name
unfolding get_env
prefixed g host prefix name alone under same =
    let bare : "" ++ name ≡ name = nil name in rw (alone, under, same, bare) refl

raw-prefixed :
    (g host : Environ)
    → All (λ name. get_env host name ≡ get_env g name) names
    → raw_of host ≡ raw_of g
unfolding raw_of
raw-prefixed g host
      (dsn, (open_conns, (idle, (name, (otel, (port, (url, (ping, (interval, (project, _)))))))))) =
    rw (dsn, open_conns, idle, name, otel, port, url, ping, interval, project) refl

-- The service can be embedded in a host whose environment uses other names. If a host sets a prefix,
-- and under the prefix each setting has the value that it has in an environment of the service's
-- own, which sets none, then the configuration and the interval of the reaper are the same in both,
-- whatever else the host sets.
pub embedded_alike :
    (l : Library) (g host : Environ) (prefix : String)
    → g "SERVICE_JOBS_ENV_PREFIX" ≡ ""
    → host "SERVICE_JOBS_ENV_PREFIX" ≡ prefix
    → All (λ name. host (prefix ++ name) ≡ g name) names
    → (configuration l host ≡ configuration l g)
      × ((raw_of host).reaper_interval ≡ (raw_of g).reaper_interval)
unfolding configuration
embedded_alike l g host prefix alone under same =
    let same_each =
      All-imp (λ name. host (prefix ++ name) ≡ g name) (λ name. get_env host name ≡ get_env g name)
        names (λ name h. prefixed g host prefix name alone under h) same in
    let e : raw_of host ≡ raw_of g = raw-prefixed g host same_each in (rw e refl, rw e refl)
