-- ===== src/Server/Boot.antt =====
-- The whole run of the process, from its boot (cmd/grpc/main.go).
use service_jobs.Prelude.{◌≡◌, refl, ◌⊎◌, inl, inr, List, String}
use service_jobs.Prelude.Int.{ℤ, pos, ◌<ℤ◌}
use service_jobs.Errors.{GoError, Result, ok, err, Result-cases}
use service_jobs.Reaper.{reaper_interval}
use service_jobs.Loop.{interval_positive}
use service_jobs.Invariant.{IsWellFormed}
use service_jobs.System.{Steps-keeps}
use service_jobs.Server.{Process, State, Event, Trace, serve, main}
use service_jobs.Server.Steps.{AllMeetSteps, serve-Steps}

-- A process refuses to boot on a cadence that does not parse or is not positive, and touches nothing.
-- Otherwise it answers each event until the signal, and leaves a well-formed table well formed, if
-- other sessions commit only steps of the system between a settle's read and its write, and none
-- that gives its worker the job anew.
pub main_boots :
    (p : Process) (parse_duration : String → Result ℤ) (raw : String) (es : List Event) (s : State)
    → IsWellFormed s.jobs
    → AllMeetSteps p es s
    → ((e : GoError) × (reaper_interval parse_duration raw ≡ err e)
        × (main p parse_duration raw es s ≡ (err e, s)))
      ⊎ ((n : ℤ) × (pos 0 <ℤ n)
          × (reaper_interval parse_duration raw ≡ ok n)
          × ((trace : List Trace) × ((main p parse_duration raw es s).0 ≡ ok trace))
          × IsWellFormed (main p parse_duration raw es s).1.jobs)
unfolding main
main_boots p parse_duration raw es s w m =
    elim (Result-cases (reaper_interval parse_duration raw)) [
      | inl (e, bad) ↦ inl (e, bad, rw (bad, main) refl)
      | inr (n, good) ↦
          let kept = Steps-keeps p.service (serve-Steps p es s m) w in
          inr (
            n,
            interval_positive parse_duration raw n good,
            good,
            ((serve p es s).0, rw (good, main) refl),
            rw (good, main) kept,
          )
    ]
