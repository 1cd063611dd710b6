-- ===== src/Abstract/Runs.antt =====
-- A run of the service, step by step, against the abstract life of a job.
use service_jobs.Prelude.{ℕ, ◌⊎◌}
use service_jobs.Dao.Table.{Table}
use service_jobs.System.{Service, Step, Steps, here, next, enqueue, claim, settle, reap, expire}
use service_jobs.Abstract.{Follows, enqueuing, claiming, settling, sweeping, purging, phase_of}

-- How each operation of a run moves a job, on the tables before and after it. A settle moves the job of
-- the table before it, or of the one that other sessions leave to its write.
abbrev mutual
  pub StepFollows : (x : Service) (id : ℕ) {t u : Table} → Step x t u → Type 0
  StepFollows x id {t} {u} (enqueue minted c r e) =
      Follows x.purges enqueuing (phase_of id t) (phase_of id u)
  StepFollows x id {t} {u} (claim c r e) = Follows x.purges claiming (phase_of id t) (phase_of id u)
  StepFollows x id {t} {u} (settle s r between same e) =
      StepsFollow x id between
      × (Follows x.purges settling (phase_of id t) (phase_of id u)
          ⊎ Follows x.purges settling (phase_of id (s.between t)) (phase_of id u))
  StepFollows x id {t} {u} (reap c e) = Follows x.purges sweeping (phase_of id t) (phase_of id u)
  StepFollows x id {t} {u} (expire clock scheduled e) =
      Follows x.purges purging (phase_of id t) (phase_of id u)

  pub StepsFollow : (x : Service) (id : ℕ) {t u : Table} → Steps x t u → Type 0
  StepsFollow x id here = Unit {0}
  StepsFollow x id (next path step) = StepsFollow x id path × StepFollows x id step
