-- ===== src/Recovery/Crashes.antt =====
-- A job whose every worker dies (the crash recovery that internal/lib/reaper.go and the README promise):
-- rounds of a claim whose runs all stop, and a sweep after the leases have lapsed.
use mathlib.Core.Path.{subst}
use service_jobs.Prelude.{
  ℕ, ◌+◌, ◌≤◌, ◌<◌, ◌≡◌, refl, sym, ap, ◌∙◌, ◌⊎◌, inl, inr, true, false, List, [], ◌∷◌, length,
  Memᴰ, All-mem, arith,
}
use service_jobs.Prelude.Int.{ℤ, pos}
use service_jobs.Errors.{ok}
use service_jobs.Dao.Job.{Job, RawMessage, pending, abandoned, is_pending, add_seconds}
use service_jobs.Dao.Table.{Table, to_jsonb}
use service_jobs.Dao.Exec.{Call}
use service_jobs.Dao.Claim.{kind_in, is_claimable, claim_row, chosen, claimable}
use service_jobs.Core.Claim as Claim
use service_jobs.Core.Claim.{JobClaimRequest}
use service_jobs.Core.Reap as Reap
use service_jobs.Core.Reap.{job_reap_error}
use service_jobs.Invariant.{IsWellFormed, IsSound}
use service_jobs.Invariant.Exec.{IsHealthy}
use service_jobs.Invariant.Services.{claim-keeps, reap-keeps}
use service_jobs.Invariant.Written.{mem-written_new}
use service_jobs.Claims.{exec-batch, claimed_table, length-map}
use service_jobs.Claims.Whole.{chosen-whole}
use service_jobs.System.{Service, Steps, Steps-append, here, next, claim, reap, job_retention_days}
use service_jobs.Lifecycle.Terminal.{terminal_stays}
use service_jobs.Recovery.{outcome, exec-swept, swept_table, IsSpared, IsRequeued, IsAbandoned}

-- A claim and the sweep after it; no worker reports in between.
pub record Round : Type 0 where
  pub claiming : Call
  pub sweeping : Call

abbrev pub crash : Service → JobClaimRequest → Round → Table → Table
crash x r round t =
    (Reap.exec x.engine job_retention_days round.sweeping
      (Claim.exec x.validator round.claiming r t).1).1

abbrev pub crashes : Service → JobClaimRequest → List Round → Table → Table
crashes x r [] t = t
crashes x r (round ∷ rounds) t = crashes x r rounds (crash x r round t)

-- The driver answers both calls, the job is due at the claim, its lease has lapsed at the sweep, and
-- no other transaction holds its row.
pub record IsCrash (r : JobClaimRequest) (id due : ℕ) (round : Round) : Type 0 where
  pub claims : IsHealthy round.claiming
  pub sweeps : IsHealthy round.sweeping
  pub ready : due ≤ round.claiming.clock id 0
  pub late : add_seconds (round.claiming.clock id 1) r.lease_seconds < round.sweeping.clock id 0
  pub free : round.claiming.locked id ≡ false
  pub free_after : round.sweeping.locked id ≡ false

-- Each round comes when the job, queued again by the sweep before, is due.
abbrev pub AreCrashes : JobClaimRequest → ℕ → ℕ → List Round → Type 0
AreCrashes r id due [] = Unit {0}
AreCrashes r id due (round ∷ rounds) =
    IsCrash r id due round × AreCrashes r id (round.sweeping.clock id 1) rounds

crash-Steps :
    (x : Service) (r : JobClaimRequest) (round : Round) (t : Table) → Steps x t (crash x r round t)
crash-Steps x r round t = next (next here (claim round.claiming r refl)) (reap round.sweeping refl)

crashes-Steps :
    (x : Service) (r : JobClaimRequest) (rounds : List Round) (t : Table)
    → Steps x t (crashes x r rounds t)
crashes-Steps x r [] t = here
crashes-Steps x r (round ∷ rounds) t =
    Steps-append x (crash-Steps x r round t) (crashes-Steps x r rounds (crash x r round t))

-- What a claimed row is to the sweep.
claim_row-lapses :
    (r : JobClaimRequest) (round : Round) (j : Job) (due : ℕ)
    → IsCrash r j.id due round
    → ¬ IsSpared round.sweeping (claim_row round.claiming.clock r.worker_id r.lease_seconds j)
unfolding claim_row
claim_row-lapses r round j due c (inl unclaimed) = cc
claim_row-lapses r round j due c (inr (inl alive)) = absurd (ground (arith, c.late))
claim_row-lapses r round j due c (inr (inr locked)) = let f = c.free_after in cc

-- What the sweep of a round makes of a job: it waits for one run less, or it is given up.
abbrev IsRetried : Round → Job → Job → Type 0
IsRetried round j z =
    (z.id ≡ j.id)
    × (z.kind ≡ j.kind)
    × (z.max_attempts ≡ j.max_attempts)
    × (z.attempt ≡ j.attempt + 1)
    × (z.status ≡ pending)
    × (z.run_at ≡ round.sweeping.clock j.id 1)

abbrev pub IsGivenUp : RawMessage → Job → Job → Type 0
IsGivenUp error j z = (z.id ≡ j.id) × (z.status ≡ abandoned) × (z.error ≡ error)

claim_row-IsRetried :
    (r : JobClaimRequest) (round : Round) (j z : Job)
    → IsRequeued round.sweeping (claim_row round.claiming.clock r.worker_id r.lease_seconds j) z
    → IsRetried round j z
unfolding claim_row
claim_row-IsRetried r round j z q = (q.id, q.kind, q.cap, q.attempt, q.status, q.due)

claim_row-IsGivenUp :
    (r : JobClaimRequest) (round : Round) (retention : ℤ) (error : RawMessage) (j z : Job)
    → IsAbandoned round.sweeping error retention
        (claim_row round.claiming.clock r.worker_id r.lease_seconds j)
        z
    → IsGivenUp error j z
unfolding claim_row
claim_row-IsGivenUp r round retention error j z a = (a.id, a.status, a.error)

module _ (x : Service) (r : JobClaimRequest) (n : ℕ) (error : RawMessage)
    (valid : Claim.is_valid x.validator r ≡ true) (limit : r.limit ≡ pos n)
    (stored : to_jsonb x.engine job_reap_error ≡ ok error) where
  module _ (round : Round) (t : Table) (w : IsWellFormed t) where
    crash-IsWellFormed : IsWellFormed (crash x r round t)
    crash-IsWellFormed =
        reap-keeps (Claim.exec x.validator round.claiming r t).1
          (claim-keeps t w round.claiming x.validator r) round.sweeping x.engine job_retention_days

    claimed-eq :
        IsHealthy round.claiming
        → (Claim.exec x.validator round.claiming r t).1 ≡ claimed_table round.claiming r n t
    claimed-eq h = ap (λ p. p.1) (exec-batch x.validator round.claiming r n t valid limit h w)

    claimed-IsWellFormed :
        IsHealthy round.claiming → IsWellFormed (claimed_table round.claiming r n t)
    claimed-IsWellFormed h = rw (claimed-eq h) at (claim-keeps t w round.claiming x.validator r)

    crash-eq :
        IsHealthy round.claiming
        → IsHealthy round.sweeping
        → crash x r round t
          ≡ swept_table round.sweeping error job_retention_days (claimed_table round.claiming r n t)
    crash-eq h h' =
        ap (λ u. (Reap.exec x.engine job_retention_days round.sweeping u).1) (claimed-eq h)
        ∙ ap (λ p. p.1)
            (exec-swept x.engine job_retention_days round.sweeping error _ (claimed-IsWellFormed h)
              h' stored)

    length-crash :
        IsHealthy round.claiming → IsHealthy round.sweeping → length (crash x r round t) ≡ length t
    length-crash h h' = ap length (crash-eq h h') ∙ length-map _ _ ∙ length-map _ t

    taken :
        (j : Job) (due : ℕ)
        → length t ≤ n
        → Memᴰ j t
        → is_pending j.status ≡ true
        → kind_in r.kinds j.kind ≡ true
        → j.run_at ≤ due
        → IsCrash r j.id due round
        → Memᴰ
            (claim_row round.claiming.clock r.worker_id r.lease_seconds j)
            (claimed_table round.claiming r n t)
    unfolding is_claimable
    taken j due room m waits wanted early c =
        let call = round.claiming in
        let ok_now : is_claimable call.clock call.locked r.kinds j ≡ true =
          ground (arith, c.ready, c.free) in
        mem-written_new (chosen (claimable call.clock call.locked r.kinds n t))
          (claim_row call.clock r.worker_id r.lease_seconds) t m
          (chosen-whole call.clock call.locked r.kinds n t j room m ok_now)

    crash-outcome :
        (j : Job) (due : ℕ)
        → length t ≤ n
        → Memᴰ j t
        → is_pending j.status ≡ true
        → kind_in r.kinds j.kind ≡ true
        → j.run_at ≤ due
        → IsCrash r j.id due round
        → (z : Job) × Memᴰ z (crash x r round t) × (IsRetried round j z ⊎ IsGivenUp error j z)
    crash-outcome j due room m waits wanted early c =
        let (z, stands, how) =
          outcome x.engine job_retention_days round.sweeping error _ _
            (claimed-IsWellFormed c.claims) (taken j due room m waits wanted early c) in
        let there = subst (λ u. Memᴰ z u) (sym (crash-eq c.claims c.sweeps)) stands in
        elim how [
          | inl (spared, _) ↦ absurd (claim_row-lapses r round j due c spared)
          | inr (inl again) ↦ (z, there, inl (claim_row-IsRetried r round j z again))
          | inr (inr over) ↦
              (z, there, inr (claim_row-IsGivenUp r round job_retention_days error j z over))
        ]

  given_up-stays :
      (rounds : List Round) (t : Table) (z : Job)
      → x.purges ≡ false
      → IsWellFormed t
      → Memᴰ z t
      → z.status ≡ abandoned
      → Memᴰ z (crashes x r rounds t)
  given_up-stays rounds t z off w m over =
      terminal_stays x z t (crashes x r rounds t) (crashes-Steps x r rounds t) off (rw over refl) w
        m

  crashes-give_up :
      (rounds : List Round) (t : Table) (j : Job) (due : ℕ)
      → x.purges ≡ false
      → IsWellFormed t
      → length t ≤ n
      → Memᴰ j t
      → is_pending j.status ≡ true
      → kind_in r.kinds j.kind ≡ true
      → j.run_at ≤ due
      → AreCrashes r j.id due rounds
      → j.max_attempts ≤ j.attempt + length rounds
      → (z : Job) × Memᴰ z (crashes x r rounds t) × IsGivenUp error j z
  crashes-give_up [] t j due off w room m waits wanted early c enough =
      let s = All-mem IsSound t w.sound m in absurd (omega (arith, s.attempt_left waits, enough))
  crashes-give_up (round ∷ rounds) t j due off w room m waits wanted early (c, cs) enough =
      let after = crash-IsWellFormed round t w in
      let (z, there, how) = crash-outcome round t w j due room m waits wanted early c in
      elim how [
        | inl (same, kind, most, attempt, status, at_once) ↦
            let (y, stands, (same_y, over, stored_error)) =
              crashes-give_up rounds (crash x r round t) z (round.sweeping.clock j.id 1) off after
                (rw (length-crash round t w c.claims c.sweeps) room) there (rw status refl)
                (rw kind wanted) (omega (arith, at_once)) (rw same cs)
                (omega (arith, enough, most, attempt)) in
            (y, stands, (same_y ∙ same, over, stored_error))
        | inr over ↦ (z, given_up-stays rounds (crash x r round t) z off after there over.1, over)
      ]

-- A worker pool that loses every run it takes does not keep a job forever. Rounds of a claim and a
-- later sweep run on a well-formed table, with no report in between. The claim is valid, asks for
-- the job's kind and for at least as many jobs as the table has rows; the engine can store the
-- sweep's error; in each round the driver answers both calls, the job is due at the claim, its lease
-- has lapsed at the sweep and no other transaction holds its row; finished jobs are not purged. Then
-- after at least as many rounds as the waiting job has attempts left, it stands abandoned with the
-- sweep's error recorded.
pub crashes_abandon :
    (x : Service) (r : JobClaimRequest) (n : ℕ) (error : RawMessage) (rounds : List Round)
    (t : Table) (j : Job)
    → Claim.is_valid x.validator r ≡ true
    → r.limit ≡ pos n
    → to_jsonb x.engine job_reap_error ≡ ok error
    → x.purges ≡ false
    → IsWellFormed t
    → length t ≤ n
    → Memᴰ j t
    → is_pending j.status ≡ true
    → kind_in r.kinds j.kind ≡ true
    → AreCrashes r j.id j.run_at rounds
    → j.max_attempts ≤ j.attempt + length rounds
    → (z : Job) × Memᴰ z (crashes x r rounds t) × IsGivenUp error j z
crashes_abandon x r n error rounds t j valid limit stored off w room m waits wanted falls enough =
    crashes-give_up x r n error valid limit stored rounds t j j.run_at off w room m waits wanted
      (omega arith) falls enough
