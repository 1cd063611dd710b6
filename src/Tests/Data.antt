-- ===== src/Tests/Data.antt =====
-- A validator, a database and a driver that meet what the development assumes of them.
use service_jobs.Prelude.{
  ℕ, ◌+◌, ◌≡◌, ◌≢◌, ◌↔◌, refl, true, false, not, Bool-cases, inl, inr, String, str_eq, eq_iff, ◌==◌,
  none, some, arith, if◌then◌else◌,
}
use service_jobs.Prelude.Int.{ℤ, pos, ◌<ℤ◌, ltb_ℤ}
use service_jobs.Errors.{foreign, Result, ok, err}
use service_jobs.Dao.Table.{Engine, Readings}
use service_jobs.Dao.Exec.{Call}
use service_jobs.Core.Validate.{Validator}
use service_jobs.Core.Settle.{Session}
use service_jobs.Handlers.Job.{Formats}
use service_jobs.Invariant.Exec.{IsHealthy, Commits}
use service_jobs.Settling.{IsHealthySession}

pub required_text_iff : (s : String) → (not (str_eq s "") ≡ true) ↔ (s ≢ "")
required_text_iff s = elim (Bool-cases (str_eq s "")) [
  | inl same ↦ (λ h. absurd (ground (arith)), λ h. absurd (h ((eq_iff s "").0 same)))
  | inr other ↦ (λ h e. let hit = (eq_iff s "").1 e in cc, λ h. rw other refl)
]

pub required_id_iff : (n : ℕ) → (not (n == 0) ≡ true) ↔ (n ≢ 0)
required_id_iff n = ground arith

pub gt_zero_iff : (n : ℤ) → (ltb_ℤ (pos 0) n ≡ true) ↔ (pos 0 <ℤ n)
gt_zero_iff n = ground arith

pub gte_zero_iff : (n : ℤ) → (not (ltb_ℤ n (pos 0)) ≡ true) ↔ ¬ (n <ℤ pos 0)
gte_zero_iff n = ground arith

abbrev pub a_validator : Validator
a_validator = record {
  required_text = λ s. not (str_eq s "");
  required_id = λ n. not (n == 0);
  gt_zero = ltb_ℤ (pos 0);
  gte_zero = λ n. not (ltb_ℤ n (pos 0));
  failure = foreign "validation";
  required_text_iff = required_text_iff;
  required_id_iff = required_id_iff;
  gt_zero_iff = gt_zero_iff;
  gte_zero_iff = gte_zero_iff;
}

-- It stores each text as it is.
abbrev pub an_engine : Engine
an_engine = record { jsonb = λ b. some b }

abbrev pub a_clock : Readings
a_clock id site = 1000 + site

abbrev pub a_call : Call
a_call = record {
  no_context = none;
  refused = none;
  lost = none;
  clock = a_clock;
  locked = λ id. false;
}

-- Its answer is lost.
abbrev pub a_lost_call : Call
a_lost_call = record a_call { lost = some (foreign "connection reset") }

pub a_call-IsHealthy : IsHealthy a_call
a_call-IsHealthy = record { context = refl; runs = refl; answers = refl }

pub a_lost_call-Commits : Commits a_lost_call
a_lost_call-Commits = record { context = refl; runs = refl }

abbrev pub a_session : Session
a_session = record {
  read = a_call;
  write = a_call;
  begin_failed = none;
  commit_refused = none;
  commit_lost = none;
  between = λ t. t;
}

pub a_session-IsHealthy : IsHealthySession a_session
a_session-IsHealthy = record {
  reads = a_call-IsHealthy;
  writes = a_call-IsHealthy;
  begins = refl;
  commits = refl;
  confirms = refl;
}

abbrev read_id : String → Result ℕ
read_id s =
    if str_eq s "one" then ok 1 else if str_eq s "seven" then ok 7 else err (foreign "invalid UUID")

abbrev pub some_formats : Formats
some_formats = record {
  uuid_string = λ n. if n == 1 then "one" else "seven";
  uuid_parse = read_id;
  rfc3339 = λ t. "2026-01-01T00:00:00Z";
}
