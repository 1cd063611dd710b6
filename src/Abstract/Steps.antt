-- ===== src/Abstract/Steps.antt =====
-- The steps of the service against the abstract life of a job.
use service_jobs.Prelude.{
  ℕ, ◌==◌, Bool, true, not, ◌≡◌, ◌⊎◌, refl, inl, inr, List, [], ◌∷◌, ◌++◌, Option, none, some,
  Bool-cases, arith, any, All-mem,
}
use service_jobs.Prelude.Int.{ℤ, pos, negsuc}
use service_jobs.Errors.{Result, ok, err, >>=-eq_ok}
use service_jobs.Dao.Job.{Job, JobStatus, RawMessage, Bytes, is_terminal, succeeded, failed}
use service_jobs.Dao.Table.{Table, Readings, Engine, to_jsonb, satisfies_checks}
use service_jobs.Dao.Exec.{Call, query_error}
use service_jobs.Dao.Enqueue as DaoEnqueue
use service_jobs.Dao.Claim as DaoClaim
use service_jobs.Dao.Settle as DaoSettle
use service_jobs.Dao.Settle.{holds}
use service_jobs.Dao.Requeue as DaoRequeue
use service_jobs.Dao.Reap as DaoReap
use service_jobs.Dao.Purge.{purge, is_expired}
use service_jobs.Core.Validate.{Validator}
use service_jobs.Core.Enqueue as Enqueue
use service_jobs.Core.Claim as Claim
use service_jobs.Core.Settle as Settle
use service_jobs.Core.Reap as Reap
use service_jobs.Invariant.{IsWellFormed, IsSound}
use service_jobs.Invariant.Exec.{run_query-keeps}
use service_jobs.Invariant.Update.{update_where-eq_ok}
use service_jobs.Invariant.Rows.{
  claim_row-KeepsIdentity, settle_row-KeepsIdentity, requeue_row-KeepsIdentity,
  reap_row-KeepsIdentity,
}
use service_jobs.Invariant.Chosen.{chosen-claimable, chosen-reapable}
use service_jobs.Invariant.Insert.{propose-eq_ok}
use service_jobs.Invariant.Statements.{holds-claimed}
use service_jobs.Invariant.Retry.{SameClaim}
use service_jobs.Settling.Rule.{settle_rule, Requeues}
use service_jobs.System.{
  Service, Step, Steps, here, next, enqueue, claim, settle, reap, expire, Steps-keeps,
  job_retention_days,
}
use service_jobs.Abstract.{
  Act, enqueuing, claiming, settling, sweeping, purging, absent, Move, Follows, submit, phase_of,
  phase_of_row,
}
use service_jobs.Abstract.Runs.{StepFollows, StepsFollow}
use service_jobs.Abstract.Rows.{
  written-Follows, claim_row-Move, requeue_row-Move, reap_row-Move, settle_row-Move, insert-Follows,
  filter-Follows,
}

new_row-Move :
    {b : Bool} (clock : Readings) (r : DaoEnqueue.JobEnqueueRequest) (payload : Bytes) (n : ℕ)
    → satisfies_checks (DaoEnqueue.new_row clock r payload n) ≡ true
    → Move b enqueuing absent (phase_of_row (DaoEnqueue.new_row clock r payload n))
unfolding DaoEnqueue.new_row satisfies_checks
new_row-Move clock r payload n pass = submit (ground arith)

expired-terminal :
    (clock : Readings) (j : Job)
    → IsSound j
    → is_expired clock j ≡ true
    → is_terminal j.status ≡ true
expired-terminal clock j s gone = ground arith

module _ (b : Bool) (id : ℕ) (t : Table) (w : IsWellFormed t) where
  abbrev FollowsTo : Act → Table → Type 0
  FollowsTo act u = Follows b act (phase_of id t) (phase_of id u)

  claim_statement-Follows :
      (c : Call) (r : DaoClaim.JobClaimRequest) (limit : ℤ) (rows : List Job) (u : Table)
      → DaoClaim.statement c.clock c.locked r limit t ≡ ok (rows, u)
      → FollowsTo claiming u
  unfolding DaoClaim.claim_up_to DaoClaim.is_claimable
  claim_statement-Follows c r (pos n) rows u h =
      let pick = DaoClaim.chosen (DaoClaim.claimable c.clock c.locked r.kinds n t) in
      let row = DaoClaim.claim_row c.clock r.worker_id r.lease_seconds in
      rw (update_where-eq_ok pick row t h).1 (
        written-Follows pick row (claim_row-KeepsIdentity c.clock r.worker_id r.lease_seconds) id t
          (λ j m hit.
            let due = chosen-claimable t w.ids_differ j m c.clock c.locked r.kinds n hit in
            claim_row-Move c.clock r.worker_id r.lease_seconds j (All-mem IsSound t w.sound m)
              (ground arith)))
  claim_statement-Follows c r (negsuc n) rows u h = cc

  claim-Follows :
      (v : Validator) (c : Call) (r : Claim.JobClaimRequest)
      → FollowsTo claiming (Claim.exec v c r t).1
  unfolding Claim.exec DaoClaim.exec
  claim-Follows v c r = elim (Bool-cases (Claim.is_valid v r)) [
    | inr invalid ↦ rw invalid (inl refl)
    | inl valid ↦
        let q = Claim.to_dao r in
        rw valid (
          run_query-keeps (FollowsTo claiming) c (DaoClaim.statement c.clock c.locked q q.limit)
            query_error t (inl refl) (claim_statement-Follows c q q.limit))
  ]

  reap_statement-Follows :
      (e : Engine) (c : Call) (r : DaoReap.JobReapRequest) (rows : List Job) (u : Table)
      → DaoReap.statement e c.clock c.locked r t ≡ ok (rows, u)
      → FollowsTo sweeping u
  unfolding DaoReap.statement DaoReap.is_reapable
  reap_statement-Follows e c r rows u h =
      let (error, _, h₁) = >>=-eq_ok (to_jsonb e r.error) _ h in
      let pick = DaoClaim.chosen (DaoReap.reapable c.clock c.locked t) in
      let row = DaoReap.reap_row c.clock error r.retention_days in
      rw (update_where-eq_ok pick row t h₁).1 (
        written-Follows pick row (reap_row-KeepsIdentity c.clock error r.retention_days) id t
          (λ j m hit.
            let due = chosen-reapable t w.ids_differ j m c.clock c.locked hit in
            reap_row-Move c.clock error r.retention_days j (ground arith)))

  reap-Follows :
      (e : Engine) (retention : ℤ) (c : Call) → FollowsTo sweeping (Reap.exec e retention c t).1
  unfolding Reap.exec DaoReap.exec
  reap-Follows e retention c =
      let q : DaoReap.JobReapRequest = record {
        error = Reap.job_reap_error;
        retention_days = retention;
      } in
      run_query-keeps (FollowsTo sweeping) c (DaoReap.statement e c.clock c.locked q) query_error t
        (inl refl) (reap_statement-Follows e c q)

  resolve-Follows :
      (new : Job) (found : Option Job) (row : Job) (u : Table)
      → Move b enqueuing absent (phase_of_row new)
      → DaoEnqueue.resolve new t found ≡ ok (row, u)
      → FollowsTo enqueuing u
  resolve-Follows new (some old) row u move h = let same : t ≡ u = cc in rw (← same) (inl refl)
  resolve-Follows new none row u move h = elim (Bool-cases (any (λ x. x.id == new.id) t)) [
    | inl clash ↦ let k = rw clash at h in cc
    | inr free ↦
        let k = rw free at h in
        let grown : t ++ new ∷ [] ≡ u = cc in rw (← grown) (insert-Follows id t new free move)
  ]

  enqueue_statement-Follows :
      (e : Engine) (clock : Readings) (r : DaoEnqueue.JobEnqueueRequest) (row : Job) (u : Table)
      → DaoEnqueue.statement e clock r t ≡ ok (row, u)
      → FollowsTo enqueuing u
  unfolding DaoEnqueue.statement
  enqueue_statement-Follows e clock r row u h =
      let (new, p, h₁) = >>=-eq_ok (DaoEnqueue.propose e clock r) _ h in
      let (payload, n, it, pass, _) = propose-eq_ok e clock r new p in
      resolve-Follows new _ row u (rw it (new_row-Move clock r payload n (rw it at pass))) h₁

  enqueue-Follows :
      (v : Validator) (sha256 : Bytes → Bytes) (e : Engine) (minted : Result ℕ) (c : Call)
      (r : Enqueue.JobEnqueueRequest)
      → FollowsTo enqueuing (Enqueue.exec v sha256 e minted c r t).1
  unfolding Enqueue.exec DaoEnqueue.exec
  enqueue-Follows v sha256 e (err x) c r = elim (Bool-cases (Enqueue.is_valid v r)) [
    | inl valid ↦ rw valid (inl refl)
    | inr invalid ↦ rw invalid (inl refl)
  ]
  enqueue-Follows v sha256 e (ok new) c r = elim (Bool-cases (Enqueue.is_valid v r)) [
    | inr invalid ↦ rw invalid (inl refl)
    | inl valid ↦
        let q = Enqueue.to_dao sha256 new r in
        rw valid (
          run_query-keeps (FollowsTo enqueuing) c (DaoEnqueue.statement e c.clock q) query_error t
            (inl refl) (enqueue_statement-Follows e c.clock q))
  ]

  purge-Follows : b ≡ true → (clock : Readings) → FollowsTo purging (purge clock t)
  unfolding purge
  purge-Follows on clock =
      filter-Follows on (λ j. not (is_expired clock j)) id t w.ids_differ
        (λ j m gone. expired-terminal clock j (All-mem IsSound t w.sound m) (ground arith))

-- The writes of a settle.
module _ (b : Bool) (id : ℕ) (e : Engine) (retention : ℤ) (s : Settle.Session)
    (r : Settle.JobSettleRequest) (t : Table) where
  -- The job moves as the settle says, from the table before it or from the one at its write.
  abbrev Settling : Table → Type 0
  Settling u =
      Follows b settling (phase_of id t) (phase_of id u)
      ⊎ Follows b settling (phase_of id (s.between t)) (phase_of id u)

  Settles-Follows :
      (base : Table) (status : JobStatus) (result error : RawMessage)
      → (status ≡ succeeded) ⊎ (status ≡ failed)
      → (rows : List Job) (u : Table)
      → DaoSettle.statement e s.write.clock (Settle.to_settle retention r status result error) base
        ≡ ok (rows, u)
      → Follows b settling (phase_of id base) (phase_of id u)
  unfolding DaoSettle.statement Settle.to_settle
  Settles-Follows base status result error how rows u h =
      let (result', _, h₁) = >>=-eq_ok (to_jsonb e result) _ h in
      let (error', _, h₂) = >>=-eq_ok (to_jsonb e error) _ h₁ in
      let q = Settle.to_settle retention r status result error in
      let row = DaoSettle.settle_row s.write.clock q result' error' in
      rw (update_where-eq_ok (holds r.id r.worker_id) row base h₂).1 (
        written-Follows (holds r.id r.worker_id) row
          (settle_row-KeepsIdentity s.write.clock q result' error') id base
          (λ j _ k.
            settle_row-Move s.write.clock q result' error' j (holds-claimed r.id r.worker_id j k)
              how))

  Requeues-Follows : SameClaim r t (s.between t) → Requeues Settling e retention s r t
  unfolding DaoRequeue.statement
  Requeues-Follows same j m mine left rows u h =
      let row = DaoRequeue.requeue_row s.write.clock in
      rw (update_where-eq_ok (holds r.id r.worker_id) row (s.between t) h).1 (
        inr (
          written-Follows (holds r.id r.worker_id) row (requeue_row-KeepsIdentity s.write.clock) id
            (s.between t)
            (λ k mk held.
              requeue_row-Move s.write.clock k (holds-claimed r.id r.worker_id k held)
                (omega (arith, same j k m mk mine held, left)))))

  settle-Follows :
      (v : Validator) → SameClaim r t (s.between t) → Settling (Settle.exec v e retention s r t).1
  settle-Follows v same =
      settle_rule Settling e retention s r t v (inl (inl refl)) (inr (inl refl))
        (λ status result error how rows u h.
          inl (Settles-Follows t status result error how rows u h))
        (λ status result error how rows u h.
          inr (Settles-Follows (s.between t) status result error how rows u h))
        (Requeues-Follows same)

mutual
  step-StepFollows :
      (x : Service) (id : ℕ) {t u : Table} (step : Step x t u)
      → IsWellFormed t
      → StepFollows x id step
  step-StepFollows x id {t} (enqueue minted c r e) w =
      rw e (enqueue-Follows x.purges id t w x.validator x.sha256 x.engine minted c r)
  step-StepFollows x id {t} (claim c r e) w = rw e (claim-Follows x.purges id t w x.validator c r)
  step-StepFollows x id {t} (settle s r between same e) w = (
    steps-StepsFollow x id between w,
    rw e (settle-Follows x.purges id x.engine job_retention_days s r t x.validator same),
  )
  step-StepFollows x id {t} (reap c e) w =
      rw e (reap-Follows x.purges id t w x.engine job_retention_days c)
  step-StepFollows x id {t} (expire clock on e) w = rw e (purge-Follows x.purges id t w on clock)

  pub steps-StepsFollow :
      (x : Service) (id : ℕ) {t u : Table} (path : Steps x t u)
      → IsWellFormed t
      → StepsFollow x id path
  steps-StepsFollow x id here w = tt
  steps-StepsFollow x id (next path step) w =
      (steps-StepsFollow x id path w, step-StepFollows x id step (Steps-keeps x path w))

-- In every run from a well-formed table, each single operation leaves each job where it stands or
-- moves it by one move of the abstract life that is that operation's: an enqueue records it with no
-- run begun; a claim begins a run, only while one is left, and counts it; a settle ends the run as
-- succeeded or failed, or lets the job wait again, only with a run left; a sweep lets a held job
-- wait again only with a run left, and gives it up only with none; a purge, where there is one,
-- forgets only a settled job. None ends as cancelled. A settle moves the job of the table before
-- it, or of the one that other sessions leave to its write, their own operations moving alike;
-- none of these may give the settling worker the job anew.
pub service_refines :
    (x : Service) (id : ℕ) (t u : Table) (path : Steps x t u)
    → IsWellFormed t
    → StepsFollow x id path
service_refines x id t u path w = steps-StepsFollow x id path w
