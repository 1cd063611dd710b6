-- ===== src/Loop.antt =====
-- The reaper's loop over the sweeps of the service (internal/lib/reaper.go).
use service_jobs.Prelude.{
  ◌≡◌, refl, List, [], ◌∷◌, ◌++◌, String, str_eq, Bool-cases, inl, inr, arith,
}
use service_jobs.Prelude.Int.{ℤ, pos, ◌<ℤ◌, ltb_ℤ}
use service_jobs.Errors.{Result, ok, Result-cases}
use service_jobs.Dao.Exec.{Call}
use service_jobs.Dao.Table.{Table}
use service_jobs.Core.Reap as Reap
use service_jobs.Reaper.{Event, tick, done, loop, run, reaper_interval, reaper_interval_default}
use service_jobs.System.{Service, job_retention_days}

abbrev pub ticks : {E : Type 0} → List E → List (Event E)
ticks [] = []
ticks (e ∷ es) = tick e ∷ ticks es

-- One sweep after the other, the failed ones included.
abbrev pub sweeps : Service → List Call → Table → Table
sweeps x [] t = t
sweeps x (c ∷ cs) t = sweeps x cs (Reap.exec x.engine job_retention_days c t).1

loop-ticks :
    (x : Service) (cs : List Call) (rest : List (Event Call)) (t : Table)
    → loop (Reap.exec x.engine job_retention_days) (ticks cs ++ done ∷ rest) t
      ≡ (sweeps x cs t, rest)
unfolding loop
loop-ticks x [] rest t = refl
loop-ticks x (c ∷ cs) rest t = loop-ticks x cs rest (Reap.exec x.engine job_retention_days c t).1

-- The loop sweeps once at the start and once for each tick, in order and whether or not a sweep fails,
-- and it returns at the first end of its context, with later ticks not taken.
pub run-sweeps :
    (x : Service) (c : Call) (cs : List Call) (rest : List (Event Call)) (t : Table)
    → run (Reap.exec x.engine job_retention_days) c (ticks cs ++ done ∷ rest) t
      ≡ (sweeps x (c ∷ cs) t, rest)
unfolding run
run-sweeps x c cs rest t = loop-ticks x cs rest (Reap.exec x.engine job_retention_days c t).1

-- The cadence is a positive duration whenever `ReaperInterval` gives one: the default for an empty
-- setting, and the parsed one otherwise.
pub interval_positive :
    (parse_duration : String → Result ℤ) (raw : String) (n : ℤ)
    → reaper_interval parse_duration raw ≡ ok n
    → pos 0 <ℤ n
unfolding reaper_interval
interval_positive parse_duration raw n h = elim (Bool-cases (str_eq raw "")) [
  | inl unset ↦
      let e : ok reaper_interval_default ≡ ok n = rw unset at h in
      let it : reaper_interval_default ≡ n = cc in rw (← it) (omega arith)
  | inr set ↦ elim (Result-cases (parse_duration raw)) [
    | inl (x, bad) ↦ let e = rw (set, bad) at h in cc
    | inr (m, parsed) ↦ elim (Bool-cases (ltb_ℤ (pos 0) m)) [
      | inl positive ↦
          let e : ok m ≡ ok n = rw (set, parsed, positive) at h in
          let it : m ≡ n = cc in rw (← it) (ground arith)
      | inr other ↦ let e = rw (set, parsed, other) at h in cc
    ]
  ]
]
