-- ===== src/Reaper.antt =====
-- The background loop (internal/lib/reaper.go) and its cadence (ReaperInterval of
-- internal/config/env/env.go). Each wake of the loop's select is an event; a sweep's surroundings are
-- those of its statement.
use service_jobs.Prelude.{ℕ, List, [], ◌∷◌, String, str_eq, length, ltb, if◌then◌else◌}
use service_jobs.Prelude.Int.{ℤ, pos, ltb_ℤ}
use service_jobs.Errors.{GoError, Result, ok, err, wrap, sentinel, reaper_interval_non_positive}
use service_jobs.Core.Job as CoreJob

-- What a sweep logs.
pub data Log : Type 0 where
  sweep_failed : GoError → Log
  recovered : ℕ → Log

pub data Event (E : Type 0) : Type 0 where
  tick : E → Event E
  done : Event E

-- `ReaperIntervalDefault`, in nanoseconds.
abbrev pub reaper_interval_default : ℤ
reaper_interval_default = pos 30000000000

abbrev checked_interval : Result ℤ → String → Result ℤ
checked_interval (err e) raw = err (wrap "parse REAPER_INTERVAL" e)
checked_interval (ok n) raw =
    if ltb_ℤ (pos 0) n then ok n else err (wrap raw (sentinel reaper_interval_non_positive))

-- `ReaperInterval`, over `time.ParseDuration`.
unfoldable pub reaper_interval : (String → Result ℤ) → String → Result ℤ
reaper_interval parse_duration raw =
    if str_eq raw "" then ok reaper_interval_default else checked_interval (parse_duration raw) raw

-- The service of the loop, in surroundings E and on a state S.
abbrev pub JobReapService : Type 0 → Type 0 → Type 0
JobReapService E S = E → S → Result (List CoreJob.Job) × S

-- The struct, and NewReaper; the interval is in nanoseconds.
pub record Reaper (E S : Type 0) : Type 0 where
  pub service : JobReapService E S
  pub interval : ℤ

abbrev pub new_reaper : {E S : Type 0} → JobReapService E S → ℤ → Reaper E S
new_reaper service interval = record { service = service; interval = interval }

abbrev pub swept : Result (List CoreJob.Job) → Result ℕ
swept (err e) = err e
swept (ok jobs) = ok (length jobs)

abbrev pub log_of : Result ℕ → List Log
log_of (err e) = sweep_failed e ∷ []
log_of (ok n) = if ltb 0 n then recovered n ∷ [] else []

module _ {E S : Type 0} where
  -- The method Sweep.
  abbrev pub sweep : JobReapService E S → E → S → Result ℕ × S
  sweep service e s = let (jobs, s') = service e s in (swept jobs, s')

  -- The method sweep: it logs, and returns no error.
  abbrev pub sweep_logged : JobReapService E S → E → S → List Log × S
  sweep_logged service e s = let (n, s') = sweep service e s in (log_of n, s')

  -- The select loop of Run; the state it leaves and the events that it did not take.
  unfoldable pub loop : JobReapService E S → List (Event E) → S → S × List (Event E)
  loop service [] s = (s, [])
  loop service (done ∷ es) s = (s, es)
  loop service (tick e ∷ es) s = loop service es (sweep_logged service e s).1

  -- Run: one sweep at once, then the loop.
  unfoldable pub run : JobReapService E S → E → List (Event E) → S → S × List (Event E)
  unfolding loop
  run service first es s = loop service es (sweep_logged service first s).1
