-- ===== src/Invariant/Services.antt =====
-- The services of internal/core and the well-formedness of the jobs table.
use service_jobs.Prelude.{ℕ, true, ◌≡◌, ◌<◌, sym, ◌∙◌, List, Memᴰ, Bool-cases, inl, inr}
use service_jobs.Prelude.Int.{ℤ, pos, negsuc}
use service_jobs.Errors.{Result, ok, err}
use service_jobs.Dao.Job.{Job, Bytes}
use service_jobs.Dao.Table.{Table, Engine}
use service_jobs.Dao.Exec.{Call, query_error}
use service_jobs.Dao.Enqueue as DaoEnqueue
use service_jobs.Dao.Claim as DaoClaim
use service_jobs.Dao.Settle as DaoSettle
use service_jobs.Dao.Settle.{holds}
use service_jobs.Dao.Requeue as DaoRequeue
use service_jobs.Dao.Reap as DaoReap
use service_jobs.Core.Validate.{Validator}
use service_jobs.Core.Enqueue as Enqueue
use service_jobs.Core.Claim as Claim
use service_jobs.Core.Reap as Reap
use service_jobs.Invariant.{IsWellFormed}
use service_jobs.Invariant.Rows.{IsOutcome}
use service_jobs.Invariant.Exec.{run_query-keeps}
use service_jobs.Invariant.Statements.{
  claim_up_to-accepted, claimed-IsWellFormed, settle-IsWellFormed, requeue-IsWellFormed,
  reap-IsWellFormed,
}
use service_jobs.Invariant.Insert.{enqueue-IsWellFormed}

snd-eq :
    {A : Type 0} {a b : A} {t u : Table}
    → ◌≡◌ {A = Result (A × Table)} (ok (a, t)) (ok (b, u))
    → t ≡ u
snd-eq h = cc

module _ (t : Table) (w : IsWellFormed t) (c : Call) where
  dao_enqueue-IsWellFormed :
      (e : Engine) (r : DaoEnqueue.JobEnqueueRequest) → IsWellFormed (DaoEnqueue.exec e c r t).1
  unfolding DaoEnqueue.exec
  dao_enqueue-IsWellFormed e r =
      run_query-keeps IsWellFormed c (DaoEnqueue.statement e c.clock r) query_error t w
        (enqueue-IsWellFormed e c.clock r t w)

  -- Enqueueing keeps the table well formed.
  pub enqueue-keeps :
      (v : Validator) (sha256 : Bytes → Bytes) (e : Engine) (minted : Result ℕ)
      (r : Enqueue.JobEnqueueRequest)
      → IsWellFormed (Enqueue.exec v sha256 e minted c r t).1
  unfolding Enqueue.exec
  enqueue-keeps v sha256 e (err x) r = elim (Bool-cases (Enqueue.is_valid v r)) [
    | inl valid ↦ rw (valid) w
    | inr invalid ↦ rw (invalid) w
  ]
  enqueue-keeps v sha256 e (ok id) r = elim (Bool-cases (Enqueue.is_valid v r)) [
    | inl valid ↦ rw (valid) (dao_enqueue-IsWellFormed e (Enqueue.to_dao sha256 id r))
    | inr invalid ↦ rw (invalid) w
  ]

  claim_statement-keeps :
      (r : DaoClaim.JobClaimRequest) (limit : ℤ) (rows : List Job) (u : Table)
      → DaoClaim.statement c.clock c.locked r limit t ≡ ok (rows, u)
      → IsWellFormed u
  claim_statement-keeps r (pos n) rows u h =
      let accepted = claim_up_to-accepted t w c.clock c.locked r n in
      rw (← snd-eq (sym accepted ∙ h)) (claimed-IsWellFormed t w c.clock c.locked r n)
  claim_statement-keeps r (negsuc n) rows u h = cc

  -- Claiming keeps the table well formed.
  pub claim-keeps :
      (v : Validator) (r : Claim.JobClaimRequest) → IsWellFormed (Claim.exec v c r t).1
  unfolding Claim.exec DaoClaim.exec
  claim-keeps v r = elim (Bool-cases (Claim.is_valid v r)) [
    | inl valid ↦
        let q = Claim.to_dao r in
        rw valid (
          run_query-keeps IsWellFormed c (DaoClaim.statement c.clock c.locked q q.limit) query_error
            t w (claim_statement-keeps q q.limit))
    | inr invalid ↦ rw invalid w
  ]

  -- A sweep keeps the table well formed.
  pub reap-keeps : (e : Engine) (retention : ℤ) → IsWellFormed (Reap.exec e retention c t).1
  unfolding Reap.exec DaoReap.exec
  reap-keeps e retention =
      let r : DaoReap.JobReapRequest = record {
        error = Reap.job_reap_error;
        retention_days = retention;
      } in
      run_query-keeps IsWellFormed c (DaoReap.statement e c.clock c.locked r) query_error t w
        (reap-IsWellFormed e c.clock c.locked r t w)

  pub dao_settle-keeps :
      (e : Engine) (r : DaoSettle.JobSettleRequest)
      → IsOutcome r.status r.result r.error
      → IsWellFormed (DaoSettle.exec e c r t).1
  unfolding DaoSettle.exec
  dao_settle-keeps e r o =
      run_query-keeps IsWellFormed c (DaoSettle.statement e c.clock r) DaoSettle.conclude t w
        (settle-IsWellFormed e c.clock r t w o)

  pub dao_requeue-keeps :
      (r : DaoRequeue.JobRequeueRequest)
      → ((j : Job) → Memᴰ j t → holds r.id r.worker_id j ≡ true → j.attempt < j.max_attempts)
      → IsWellFormed (DaoRequeue.exec c r t).1
  unfolding DaoRequeue.exec
  dao_requeue-keeps r left =
      run_query-keeps IsWellFormed c (DaoRequeue.statement c.clock r) DaoRequeue.conclude t w
        (requeue-IsWellFormed c.clock r t w left)
