-- ===== src/Tests/Settings.antt =====
-- The theorems on the configuration, applied to concrete environments.
use service_jobs.Prelude.{
  ◌≡◌, ◌≢◌, inl, inr, refl, String, str_eq, eq_iff, Bool-cases, if◌then◌else◌,
}
use service_jobs.Prelude.Int.{ℤ, pos}
use service_jobs.Errors.{Result, GoError, ok, err, foreign}
use service_jobs.Config.{Library, IsDocumented, Environ, raw_of}
use service_jobs.Config.App.{configuration}
use service_jobs.Config.Embedding.{embedded_alike}

abbrev parsed_or : {T : Type 0} → T → Result T → T
parsed_or fallback (ok x) = x
parsed_or fallback (err e) = fallback

abbrev load : {T : Type 0} → String → T → (String → Result T) → T
load s fallback parse = if str_eq s "" then fallback else parsed_or fallback (parse s)

abbrev read_int : String → Result ℤ
read_int s = if str_eq s "9090" then ok (pos 9090) else err (foreign "invalid syntax")

abbrev pub a_library : Library
a_library = record {
  load_env = load;
  int_parser = read_int;
  string_parser = λ s. ok s;
  bool_parser = λ s. ok (str_eq s "true");
  duration_parser = read_int;
  ternary = λ c a b. if c then a else b;
  if_else_if = λ c a d b e. if c then a else if d then b else e;
}

load-unset :
    {T : Type 0} (fallback : T) (parse : String → Result T) → load "" fallback parse ≡ fallback
load-unset fallback parse = refl

load-misread :
    {T : Type 0} (s : String) (fallback : T) (parse : String → Result T) (e : GoError)
    → parse s ≡ err e
    → load s fallback parse ≡ fallback
load-misread s fallback parse e h = elim (Bool-cases (str_eq s "")) [
  | inl empty ↦ rw empty refl
  | inr there ↦ rw (there, h) refl
]

load-read :
    {T : Type 0} (s : String) (fallback : T) (parse : String → Result T) (x : T)
    → s ≢ ""
    → parse s ≡ ok x
    → load s fallback parse ≡ x
load-read s fallback parse x named h = elim (Bool-cases (str_eq s "")) [
  | inl empty ↦ absurd (named ((eq_iff s "").0 empty))
  | inr there ↦ rw (there, h) refl
]

a_library-IsDocumented : IsDocumented a_library
a_library-IsDocumented = record {
  unset = load-unset;
  misread = load-misread;
  read = load-read;
  ternary_true = λ a b. refl;
  ternary_false = λ a b. refl;
  if_true = λ q a b c. refl;
  else_if_true = λ a b c. refl;
  else_true = λ a b c. refl;
}

-- The service on its own, and in a host that has a port of its own and a prefix.
abbrev pub own : Environ
own name =
    if str_eq name "GRPC_PORT"
    then "9090"
    else if str_eq name "GCLOUD_PROJECT_ID"
    then "acme"
    else if str_eq name "OTEL"
    then "true"
    else ""

abbrev host : Environ
host name =
    if str_eq name "SERVICE_JOBS_ENV_PREFIX"
    then "JOBS_"
    else if str_eq name "JOBS_GRPC_PORT"
    then "9090"
    else if str_eq name "JOBS_GCLOUD_PROJECT_ID"
    then "acme"
    else if str_eq name "JOBS_OTEL"
    then "true"
    else if str_eq name "GRPC_PORT"
    then "80"
    else ""

embedded_alike_example :
    (configuration a_library host ≡ configuration a_library own)
    × ((raw_of host).reaper_interval ≡ (raw_of own).reaper_interval)
embedded_alike_example =
    embedded_alike a_library own host "JOBS_" refl refl
      (refl, (refl, (refl, (refl, (refl, (refl, (refl, (refl, (refl, (refl, tt))))))))))
