-- ===== src/Lifecycle/Untouched.antt =====
-- A row through the steps of the running service that leave it alone (cmd/grpc/main.go).
use service_jobs.Prelude.{ℕ, false, ◌≡◌, Memᴰ, Bool-cases, inl, inr}
use service_jobs.Prelude.Int.{ℤ}
use service_jobs.Errors.{Result, ok, err}
use service_jobs.Dao.Job.{Job, Bytes}
use service_jobs.Dao.Table.{Table, Engine}
use service_jobs.Dao.Exec.{Call, query_error}
use service_jobs.Dao.Enqueue as DaoEnqueue
use service_jobs.Dao.Claim as DaoClaim
use service_jobs.Dao.Claim.{is_claimable}
use service_jobs.Dao.Settle.{holds}
use service_jobs.Dao.Reap as DaoReap
use service_jobs.Dao.Reap.{is_reapable}
use service_jobs.Dao.Purge.{is_expired}
use service_jobs.Core.Validate.{Validator}
use service_jobs.Core.Enqueue as Enqueue
use service_jobs.Core.Claim as Claim
use service_jobs.Core.Settle as Settle
use service_jobs.Core.Settle.{Session, JobSettleRequest}
use service_jobs.Core.Reap as Reap
use service_jobs.Invariant.{IsWellFormed, Apart, same_id}
use service_jobs.Invariant.Exec.{run_query-keeps}
use service_jobs.Lifecycle.{
  claim-spares, reap-spares, enqueue-spares, settle-spares, requeue-spares, purge-spares,
}
use service_jobs.Settling.Rule.{settle_rule}
use service_jobs.System.{
  Service, Step, Steps, here, next, enqueue, claim, settle, reap, expire, Steps-keeps,
}

-- A step leaves a row alone: a claim may not take it, a sweep does not find its lease lapsed, a settle
-- is by a worker that does not hold it, a purge does not find it expired.
abbrev mutual
  pub IsUntouched : (x : Service) (j : Job) {t u : Table} → Step x t u → Type 0
  IsUntouched x j (enqueue minted c r e) = Unit {0}
  IsUntouched x j (claim c r e) = is_claimable c.clock c.locked r.kinds j ≡ false
  IsUntouched x j (settle s r between same e) =
      AllUntouched x j between × (holds r.id r.worker_id j ≡ false)
  IsUntouched x j (reap c e) = is_reapable c.clock c.locked j ≡ false
  IsUntouched x j (expire clock scheduled e) = is_expired clock j ≡ false

  pub AllUntouched : (x : Service) (j : Job) {t u : Table} → Steps x t u → Type 0
  AllUntouched x j here = Unit {0}
  AllUntouched x j (next path step) = AllUntouched x j path × IsUntouched x j step

module _ (t : Table) (j : Job) (m : Memᴰ j t) where
  pub enqueue_exec-spares :
      (v : Validator) (sha256 : Bytes → Bytes) (e : Engine) (minted : Result ℕ) (c : Call)
      (r : Enqueue.JobEnqueueRequest)
      → Memᴰ j (Enqueue.exec v sha256 e minted c r t).1
  unfolding Enqueue.exec DaoEnqueue.exec
  enqueue_exec-spares v sha256 e (err x) c r = elim (Bool-cases (Enqueue.is_valid v r)) [
    | inl valid ↦ rw valid m
    | inr invalid ↦ rw invalid m
  ]
  enqueue_exec-spares v sha256 e (ok id) c r = elim (Bool-cases (Enqueue.is_valid v r)) [
    | inl valid ↦
        let q = Enqueue.to_dao sha256 id r in
        rw valid (
          run_query-keeps (Memᴰ j) c (DaoEnqueue.statement e c.clock q) query_error t m
            (enqueue-spares t j e c.clock q m))
    | inr invalid ↦ rw invalid m
  ]

  module _ (apart : Apart same_id t) where
    claim_exec-spares :
        (v : Validator) (c : Call) (r : Claim.JobClaimRequest)
        → is_claimable c.clock c.locked r.kinds j ≡ false
        → Memᴰ j (Claim.exec v c r t).1
    unfolding Claim.exec DaoClaim.exec Claim.to_dao
    claim_exec-spares v c r other = elim (Bool-cases (Claim.is_valid v r)) [
      | inl valid ↦
          let q = Claim.to_dao r in
          rw valid (
            run_query-keeps (Memᴰ j) c (DaoClaim.statement c.clock c.locked q q.limit) query_error t
              m (claim-spares t apart j m c q q.limit other))
      | inr invalid ↦ rw invalid m
    ]

    reap_exec-spares :
        (e : Engine) (retention : ℤ) (c : Call)
        → is_reapable c.clock c.locked j ≡ false
        → Memᴰ j (Reap.exec e retention c t).1
    unfolding Reap.exec DaoReap.exec
    reap_exec-spares e retention c other =
        let q : DaoReap.JobReapRequest = record {
          error = Reap.job_reap_error;
          retention_days = retention;
        } in
        run_query-keeps (Memᴰ j) c (DaoReap.statement e c.clock c.locked q) query_error t m
          (reap-spares t apart j m e c q other)

  settle_exec-spares :
      (v : Validator) (e : Engine) (retention : ℤ) (s : Session) (r : JobSettleRequest)
      → Memᴰ j (s.between t)
      → holds r.id r.worker_id j ≡ false
      → Memᴰ j (Settle.exec v e retention s r t).1
  unfolding Settle.to_settle
  settle_exec-spares v e retention s r between other =
      settle_rule (Memᴰ j) e retention s r t v m between
        (λ status result error how. settle-spares t j m e s.write.clock _ other)
        (λ status result error how. settle-spares (s.between t) j between e s.write.clock _ other)
        (λ k mk mine left. requeue-spares (s.between t) j between s.write.clock _ other)

-- A row stays as it is through steps that leave it alone.
mutual
  step-spares :
      (x : Service) (j : Job) {t u : Table} (step : Step x t u)
      → IsUntouched x j step
      → IsWellFormed t
      → Memᴰ j t
      → Memᴰ j u
  step-spares x j {t} (enqueue minted c r e) quiet w m =
      rw e (enqueue_exec-spares t j m x.validator x.sha256 x.engine minted c r)
  step-spares x j {t} (claim c r e) quiet w m =
      rw e (claim_exec-spares t j m w.ids_differ x.validator c r quiet)
  step-spares x j {t} (settle s r between same e) quiet w m = rw e (
      settle_exec-spares t j m x.validator x.engine _ s r (untouched-spares x j between quiet.0 w m)
        quiet.1)
  step-spares x j {t} (reap c e) quiet w m =
      rw e (reap_exec-spares t j m w.ids_differ x.engine _ c quiet)
  step-spares x j {t} (expire clock scheduled e) quiet w m = rw e (purge-spares clock t j m quiet)

  pub untouched-spares :
      (x : Service) (j : Job) {t u : Table} (path : Steps x t u)
      → AllUntouched x j path
      → IsWellFormed t
      → Memᴰ j t
      → Memᴰ j u
  untouched-spares x j here quiet w m = m
  untouched-spares x j (next path step) quiet w m =
      step-spares x j step quiet.1 (Steps-keeps x path w) (untouched-spares x j path quiet.0 w m)
