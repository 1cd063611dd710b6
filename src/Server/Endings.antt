-- ===== src/Server/Endings.antt =====
-- How the process ends (cmd/grpc/main.go), after the comments on its boot and its shutdown.
use service_jobs.Prelude.{
  Bool, true, false, ◌≡◌, refl, ◌∙◌, ◌⊎◌, inl, inr, List, [], ◌∷◌, ◌++◌, Option, some, none, str_eq,
  any, Bool-cases,
}
use service_jobs.Prelude.Int.{ℤ, pos, ◌<ℤ◌}
use service_jobs.Errors.{GoError, Result, ok, err}
use service_jobs.Reaper.{reaper_interval}
use service_jobs.Loop.{interval_positive}
use service_jobs.Config.{Library, Environ, Settings, settings, raw_of}
use service_jobs.Config.App.{App, app_preset_default}
use service_jobs.Invariant.{IsWellFormed}
use service_jobs.System.{Steps-keeps}
use service_jobs.Server.{Process, State, Event, Trace, serve}
use service_jobs.Server.Steps.{AllMeetSteps, serve-Steps}
use service_jobs.Server.Launch.{
  Platform, Action, app_named, otel_started, served, flushed, Exit, fatal, panicked, crashed,
  returned, Launched, did, must, address, opened, pool_ready, shut_down, run_server, connect, flags,
  start_otel, launch_every, launch,
}

abbrev pub serves : Action → Bool
serves (served ts) = true
serves _ = false

abbrev pub flushes : Action → Bool
flushes flushed = true
flushes _ = false

-- Whether the flush is the last action.
abbrev pub ends_flushed : List Action → Bool
ends_flushed [] = false
ends_flushed (x ∷ []) = flushes x
ends_flushed (x ∷ y ∷ ys) = ends_flushed (y ∷ ys)

-- Every part has started.
abbrev pub IsStarted : Platform → App → Result ℤ → Type 0
IsStarted pf a interval =
    (n : ℤ) × (interval ≡ ok n)
    × (pos 0 <ℤ n)
    × (pf.init_otel a.otel ≡ none)
    × (pf.new_context a.postgres ≡ none)
    × (pf.listen (address pf a) ≡ none)

-- Nothing was served, and the state is the one from before.
abbrev pub IsIdle : State → Launched → Type 0
IsIdle s r = (any serves r.actions ≡ false) × (r.state ≡ s)

-- The handle did not open, or it did and the listener did not start.
abbrev pub Unconnected : Platform → App → GoError → Type 0
Unconnected pf a e =
    (pf.new_context a.postgres ≡ some e)
    ⊎ ((pf.new_context a.postgres ≡ none) × (pf.listen (address pf a) ≡ some e))

-- What each way to end says.
abbrev pub Ends : Platform → App → Result ℤ → State → Launched → Exit → Type 0
Ends pf a interval s r (fatal e) = (interval ≡ err e) × (any flushes r.actions ≡ false) × IsIdle s r
Ends pf a interval s r (panicked e) =
    (((pf.init_otel a.otel ≡ some e) × (any flushes r.actions ≡ false))
      ⊎ ((pf.init_otel a.otel ≡ none) × Unconnected pf a e × (ends_flushed r.actions ≡ true)))
    × IsIdle s r
Ends pf a interval s r (crashed e) =
    IsStarted pf a interval
    × (pf.serve_failed ≡ some e)
    × (any serves r.actions ≡ true)
    × (any flushes r.actions ≡ false)
    × IsWellFormed r.state.jobs
Ends pf a interval s r returned =
    IsStarted pf a interval
    × (pf.serve_failed ≡ none)
    × (any serves r.actions ≡ true)
    × (ends_flushed r.actions ≡ true)
    × IsWellFormed r.state.jobs

any-append_false :
    (p : Action → Bool) (xs ys : List Action) → any p xs ≡ false → any p (xs ++ ys) ≡ any p ys
any-append_false p [] ys h = refl
any-append_false p (x ∷ xs) ys h = elim (Bool-cases (p x)) [
  | inl hit ↦ let c = rw hit at h in cc
  | inr miss ↦ rw miss (any-append_false p xs ys (rw miss at h))
]

ends_flushed-append :
    (xs ys : List Action) → ends_flushed ys ≡ true → ends_flushed (xs ++ ys) ≡ true
ends_flushed-append [] ys h = h
ends_flushed-append (x ∷ []) [] h = cc
ends_flushed-append (x ∷ []) (y ∷ ys) h = h
ends_flushed-append (x ∷ z ∷ zs) ys h = ends_flushed-append (z ∷ zs) ys h

module _ (pf : Platform) (a : App) (interval : Result ℤ) (s : State) where
  -- Actions that neither serve nor flush come first without a difference.
  did-Ends :
      (before : List Action) (r : Launched) (x : Exit)
      → any serves before ≡ false
      → any flushes before ≡ false
      → Ends pf a interval s r x
      → Ends pf a interval s (did before r) x
  did-Ends before r (fatal e) quiet dry (bad, unflushed, (idle, same)) = (
    bad,
    any-append_false flushes before r.actions dry ∙ unflushed,
    (any-append_false serves before r.actions quiet ∙ idle, same),
  )
  did-Ends before r (panicked e) quiet dry (why, (idle, same)) = (
    elim why [
      | inl (otel, unflushed) ↦
          inl (otel, any-append_false flushes before r.actions dry ∙ unflushed)
      | inr (otel, down, last) ↦ inr (otel, down, ends_flushed-append before r.actions last)
    ],
    (any-append_false serves before r.actions quiet ∙ idle, same),
  )
  did-Ends before r (crashed e) quiet dry (started, why, ran, unflushed, w) = (
    started,
    why,
    any-append_false serves before r.actions quiet ∙ ran,
    any-append_false flushes before r.actions dry ∙ unflushed,
    w,
  )
  did-Ends before r returned quiet dry (started, why, ran, last, w) = (
    started,
    why,
    any-append_false serves before r.actions quiet ∙ ran,
    ends_flushed-append before r.actions last,
    w,
  )

  -- A part that starts once the flush is deferred.
  must-Ends :
      (part : Option GoError) (rest : Launched)
      → pf.init_otel a.otel ≡ none
      → ((e : GoError) → part ≡ some e → Unconnected pf a e)
      → (part ≡ none → Ends pf a interval s rest rest.exit)
      → let r = must part s rest in Ends pf a interval s r r.exit
  must-Ends none rest otel down h = h refl
  must-Ends (some e) rest otel down h = (inr (otel, down e refl, refl), (refl, refl))

  shut_down-Ends :
      (failed : Option GoError) (ts : List Trace) (s' : State)
      → pf.serve_failed ≡ failed
      → IsStarted pf a interval
      → IsWellFormed s'.jobs
      → let r = shut_down failed ts s' in Ends pf a interval s r r.exit
  shut_down-Ends (some e) ts s' why started w = (started, why, refl, refl, w)
  shut_down-Ends none ts s' why started w = (started, why, refl, refl, w)

  module _ (p : Process) (es : List Event) (w : IsWellFormed (serve p es s).1.jobs) where
    run_server-Ends :
        IsStarted pf a interval → let r = run_server pf p a es s in Ends pf a interval s r r.exit
    unfolding run_server
    run_server-Ends started =
        let (ts, s') = serve p es s in
        let down = shut_down pf.serve_failed ts s' in
        did-Ends (opened pf a) down down.exit refl refl
          (shut_down-Ends pf.serve_failed ts s' refl started w)

    connect-Ends :
        (n : ℤ)
        → interval ≡ ok n
        → pos 0 <ℤ n
        → pf.init_otel a.otel ≡ none
        → let r = connect pf p a n es s in Ends pf a interval s r r.exit
    unfolding connect
    connect-Ends n good positive otel =
        let rest = run_server pf p a es s in
        let heard = must (pf.listen (address pf a)) s rest in
        must-Ends (pf.new_context a.postgres) (did (pool_ready pf a n) heard) otel
          (λ e failed. inl failed)
          (λ pool. did-Ends (pool_ready pf a n) heard heard.exit refl refl (
            must-Ends (pf.listen (address pf a)) rest otel (λ e failed. inr (pool, failed))
              (λ free. run_server-Ends (n, good, positive, otel, pool, free))))

    flags-quiet : (c : Settings) → (any serves (flags c) ≡ false) × (any flushes (flags c) ≡ false)
    flags-quiet c = elim (Bool-cases (str_eq c.gcloud_project_id "")) [
      | inl local_run ↦ rw local_run (refl, refl)
      | inr cloud ↦ rw cloud (refl, refl)
    ]

    start_otel-Ends :
        (c : Settings) (started : Option GoError) (rest : Launched)
        → pf.init_otel a.otel ≡ started
        → (pf.init_otel a.otel ≡ none → Ends pf a interval s rest rest.exit)
        → let r = start_otel started a c s rest in Ends pf a interval s r r.exit
    start_otel-Ends c (some e) rest otel h = (inl (otel, refl), (refl, refl))
    start_otel-Ends c none rest otel h =
        let (quiet, dry) = flags-quiet c in
        did-Ends (otel_started a.otel ∷ flags c) rest rest.exit quiet dry (h otel)

    launch_every-Ends :
        (c : Settings) (cadence : Result ℤ)
        → interval ≡ cadence
        → ((n : ℤ) → cadence ≡ ok n → pos 0 <ℤ n)
        → let r = launch_every pf p a c cadence es s in Ends pf a interval s r r.exit
    unfolding connect
    launch_every-Ends c (err e) read positive = (read, refl, (refl, refl))
    launch_every-Ends c (ok n) read positive =
        let rest = connect pf p a n es s in
        let otel = start_otel (pf.init_otel a.otel) a c s rest in
        did-Ends (app_named a.app.name ∷ []) otel otel.exit refl refl (
          start_otel-Ends c (pf.init_otel a.otel) rest refl (connect-Ends n read (positive n refl)))

-- How main ends says what it has done. A fatal exit means that the cadence does not parse or is not
-- positive. A panic carries the error of the part that did not start: the tracing backend, or with it
-- started the database's handle, or with that opened the listener. In each case nothing was served, and the state is the one from before. With the backend started,
-- main flushes it last, but not when the serving goroutine fails: then the process crashes at once.
-- Otherwise main returns, after it has served, and in both cases every part had started, the cadence
-- is positive, and a table that was well formed is well formed, if other sessions commit only steps
-- of the system between a settle's read and its write, and none that gives its worker the job anew.
pub launch-Ends :
    (l : Library) (pf : Platform) (p : Process) (g : Environ) (es : List Event) (s : State)
    → IsWellFormed s.jobs
    → AllMeetSteps p es s
    → let c = settings l (raw_of g) in
      let r = launch l pf p g es s in
      Ends pf
        (app_preset_default l c)
        (reaper_interval pf.parse_duration c.raw_reaper_interval)
        s
        r
        r.exit
unfolding launch
launch-Ends l pf p g es s w meets =
    let c = settings l (raw_of g) in
    let interval = reaper_interval pf.parse_duration c.raw_reaper_interval in
    launch_every-Ends pf (app_preset_default l c) interval s p es
      (Steps-keeps p.service (serve-Steps p es s meets) w) c interval refl
      (interval_positive pf.parse_duration c.raw_reaper_interval)
