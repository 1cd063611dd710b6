-- ===== src/Unordered/Process.antt =====
-- A run of the process (cmd/grpc/main.go) on two tables of the same rows.
use mathlib.Core.Path.{ap₂}
use service_jobs.Prelude.{◌≡◌, refl, ap, List, [], ◌∷◌, filter}
use service_jobs.Errors.{Result, ok, err}
use service_jobs.Dao.Exec.{Call}
use service_jobs.Dao.Claim.{is_claimable}
use service_jobs.Core.Job as CoreJob
use service_jobs.Handlers.Status.{status}
use service_jobs.Handlers.Claim.{to_core}
use service_jobs.Reaper.{swept, log_of}
use service_jobs.Invariant.{IsWellFormed, Apart}
use service_jobs.System.{Steps-keeps, job_retention_days}
use service_jobs.Server.{
  Process, State, Rpc, Reply, Event, Trace, handle, sweep_once, serve, call, tick, interrupt,
  replied, logged, status_queue_cache_ttl,
}
use service_jobs.Server.Steps.{AllMeetSteps, MeetsSteps, after, event-Steps}
use service_jobs.Unordered.{SameRows, Alike}
use service_jobs.Unordered.Lists.{length-Perm}
use service_jobs.Unordered.Rows.{same_time}
use service_jobs.Unordered.Services.{
  SameJobs, claim-services, reap-services, depth-services, enqueue-services, get-services,
}
use service_jobs.Unordered.Settles.{settle-services}
use service_jobs.Unordered.Handlers.{
  SameClaimed, enqueue-handled, get-handled, settle-handled, claim-handled,
}

-- One reply, but for the order of the jobs that a claim hands out.
abbrev pub SameReply : Reply → Reply → Type 0
SameReply (Reply.claimed a) (Reply.claimed b) = SameClaimed a b
SameReply r r' = r ≡ r'

abbrev pub SameTraces : List Trace → List Trace → Type 0
SameTraces [] [] = Unit {0}
SameTraces (replied r ∷ ts) (replied r' ∷ ts') = SameReply r r' × SameTraces ts ts'
SameTraces (logged l ∷ ts) (logged l' ∷ ts') = (l ≡ l') × SameTraces ts ts'
SameTraces ts ts' = ⊥

-- Two states that differ in the order of the rows alone.
pub record SameState (s s' : State) : Type 0 where
  pub jobs : SameRows s.jobs s'.jobs
  pub cache : s.cache ≡ s'.cache

-- What an event needs: no two jobs that a claim may take are due at one time, and what other sessions
-- commit between a settle's read and its write does not depend on the order either.
abbrev pub IsUntied : Process → Event → State → State → Type 0
IsUntied p (call (Rpc.claim r c)) s s' =
    Apart same_time (filter (is_claimable c.clock c.locked r.kinds) s.jobs)
IsUntied p (call (Rpc.settle r session)) s s' =
    SameRows (session.between s.jobs) (session.between s'.jobs)
IsUntied p e s s' = Unit {0}

abbrev pub AllUntied : Process → List Event → State → State → Type 0
AllUntied p [] s s' = Unit {0}
AllUntied p (interrupt ∷ es) s s' = Unit {0}
AllUntied p (call m ∷ es) s s' =
    IsUntied p (call m) s s' × AllUntied p es (after p (call m) s) (after p (call m) s')
AllUntied p (tick c ∷ es) s s' = AllUntied p es (after p (tick c) s) (after p (tick c) s')

swept-same : (r r' : Result (List CoreJob.Job)) → Alike SameJobs r r' → swept r ≡ swept r'
swept-same (ok a) (ok b) h = ap ok (length-Perm h)
swept-same (ok a) (err y) h = absurd h
swept-same (err x) (ok b) h = absurd h
swept-same (err x) (err y) h = ap err h

module _ (p : Process) (s s' : State) (same : SameState s s') where
  handle-unordered :
      (m : Rpc)
      → IsWellFormed s.jobs
      → MeetsSteps p (call m) s
      → IsUntied p (call m) s s'
      → SameReply (handle p m s).0 (handle p m s').0 × SameState (handle p m s).1 (handle p m s').1
  unfolding handle to_core
  handle-unordered (Rpc.status_rpc h asked stored c) w meets untied =
      let both =
        ap₂ (status p.durationpb status_queue_cache_ttl h asked stored)
          (depth-services s.jobs s'.jobs same.jobs p.duration c) same.cache in
      (
        ap (λ a. Reply.status_reply a.0) both,
        record { jobs = same.jobs; cache = ap (λ a. a.1) both },
      )
  handle-unordered (Rpc.enqueue r minted c) w meets untied =
      let (reply, tables) = enqueue-handled p.formats s.jobs s'.jobs same.jobs _ r (
        enqueue-services s.jobs s'.jobs same.jobs w p.service.validator p.service.sha256
          p.service.engine minted c) in
      (ap Reply.enqueued reply, record { jobs = tables; cache = same.cache })
  handle-unordered (Rpc.get r c) w meets untied =
      let (reply, tables) =
        get-handled p.formats s.jobs s'.jobs same.jobs _ r
          (get-services s.jobs s'.jobs same.jobs w p.service.validator c) in
      (ap Reply.got reply, record { jobs = tables; cache = same.cache })
  handle-unordered (Rpc.claim r c) w meets untied =
      let (reply, tables) =
        claim-handled p.formats s.jobs s'.jobs same.jobs _ r
          (claim-services s.jobs s'.jobs same.jobs p.service.validator c (to_core r) untied) in
      (reply, record { jobs = tables; cache = same.cache })
  handle-unordered (Rpc.settle r session) w meets untied =
      let between = Steps-keeps p.service meets.0 w in
      let (reply, tables) = settle-handled p.formats s.jobs s'.jobs same.jobs _ r (λ q.
        settle-services p.service.engine job_retention_days q session s.jobs s'.jobs same.jobs
          untied w between p.service.validator) in
      (ap Reply.settled reply, record { jobs = tables; cache = same.cache })
  handle-unordered (Rpc.watch r c rounds) w meets untied = (refl, same)

  sweep-unordered :
      (c : Call)
      → ((sweep_once p c s).0 ≡ (sweep_once p c s').0)
        × SameState (sweep_once p c s).1 (sweep_once p c s').1
  unfolding sweep_once
  sweep-unordered c =
      let (jobs, tables) =
        reap-services s.jobs s'.jobs same.jobs p.service.engine job_retention_days c in
      (ap log_of (swept-same _ _ jobs), record { jobs = tables; cache = same.cache })

-- The order of the rows shows in nothing: from tables that hold the same rows in any order, and one
-- cache, a run of the process answers each call and logs each sweep alike, but for the order of the
-- jobs of one claim, and ends in tables of the same rows and one cache. The first table is well
-- formed; other sessions commit only steps of the system between a settle's read and its write, none
-- that gives its worker the job anew, and to the same rows from both tables; and no two jobs that a
-- claim may take are due at one time, since their order is the database's.
pub order_forgotten :
    (p : Process) (es : List Event) (s s' : State)
    → IsWellFormed s.jobs
    → SameState s s'
    → AllMeetSteps p es s
    → AllUntied p es s s'
    → SameTraces (serve p es s).0 (serve p es s').0 × SameState (serve p es s).1 (serve p es s').1
unfolding serve
order_forgotten p [] s s' w same meets untied = (tt, same)
order_forgotten p (interrupt ∷ es) s s' w same meets untied = (tt, same)
order_forgotten p (call m ∷ es) s s' w same meets untied =
    let (reply, next) = handle-unordered p s s' same m w meets.0 untied.0 in
    let kept = Steps-keeps p.service (event-Steps p (call m) s meets.0) w in
    let (traces, end) =
      order_forgotten p es (after p (call m) s) (after p (call m) s') kept next meets.1 untied.1 in
    ((reply, traces), end)
order_forgotten p (tick c ∷ es) s s' w same meets untied =
    let (log, next) = sweep-unordered p s s' same c in
    let kept = Steps-keeps p.service (event-Steps p (tick c) s tt) w in
    let (traces, end) =
      order_forgotten p es (after p (tick c) s) (after p (tick c) s') kept next meets untied in
    ((log, traces), end)
