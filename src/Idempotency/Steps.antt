-- ===== src/Idempotency/Steps.antt =====
-- A recorded job through the steps of the running service (cmd/grpc/main.go).
use service_jobs.Prelude.{ℕ, false, ◌≡◌, ap, Memᴰ}
use service_jobs.Dao.Job.{Job}
use service_jobs.Dao.Table.{Table}
use service_jobs.Dao.Purge.{is_expired}
use service_jobs.Lifecycle.{purge-spares}
use service_jobs.Lifecycle.Untouched.{enqueue_exec-spares}
use service_jobs.Idempotency.Kept.{
  Submission, Recorded, claim_exec-Recorded, reap_exec-Recorded, settle_exec-Recorded,
}
use service_jobs.System.{
  Service, Step, Steps, here, next, enqueue, claim, settle, reap, expire, job_retention_days,
}

-- No purge of the run finds the job expired.
abbrev mutual
  IsRetained : (x : Service) (id : ℕ) {t u : Table} → Step x t u → Type 0
  IsRetained x id (enqueue minted c r e) = Unit {0}
  IsRetained x id (claim c r e) = Unit {0}
  IsRetained x id (settle s r between same e) = AllRetained x id between
  IsRetained x id (reap c e) = Unit {0}
  IsRetained x id {t} (expire clock scheduled e) =
      (k : Job) → Memᴰ k t → k.id ≡ id → is_expired clock k ≡ false

  pub AllRetained : (x : Service) (id : ℕ) {t u : Table} → Steps x t u → Type 0
  AllRetained x id here = Unit {0}
  AllRetained x id (next path step) = AllRetained x id path × IsRetained x id step

-- A recorded job stays recorded through every run that does not purge it.
mutual
  step-Recorded :
      (x : Service) (j : Job) {t u : Table} (step : Step x t u)
      → IsRetained x j.id step
      → Recorded j t
      → Recorded j u
  step-Recorded x j {t} (enqueue minted c r e) kept (k, m, same) =
      (k, rw e (enqueue_exec-spares t k m x.validator x.sha256 x.engine minted c r), same)
  step-Recorded x j {t} (claim c r e) kept there =
      rw e (claim_exec-Recorded t j there x.validator c r)
  step-Recorded x j {t} (settle s r between same e) kept there = rw e (
      settle_exec-Recorded t j there x.validator x.engine job_retention_days s r
        (steps-Recorded x j between kept there))
  step-Recorded x j {t} (reap c e) kept there =
      rw e (reap_exec-Recorded t j there x.engine job_retention_days c)
  step-Recorded x j {t} (expire clock scheduled e) kept (k, m, same) =
      let fresh = kept k m (ap (λ (s : Submission). s.id) same) in
      (k, rw e (purge-spares clock t k m fresh), same)

  pub steps-Recorded :
      (x : Service) (j : Job) {t u : Table} (path : Steps x t u)
      → AllRetained x j.id path
      → Recorded j t
      → Recorded j u
  steps-Recorded x j here kept there = there
  steps-Recorded x j (next path step) kept there =
      step-Recorded x j step kept.1 (steps-Recorded x j path kept.0 there)
