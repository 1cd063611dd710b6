-- ===== src/Lifecycle/Terminal.antt =====
-- A settled job through the steps of the running service (after the comment of isTerminalStatus in
-- internal/handlers/grpc.jobWatch.go).
use service_jobs.Prelude.{ℕ, Bool, true, false, ◌≡◌, Memᴰ, String, List, arith}
use service_jobs.Dao.Job.{Job, is_terminal}
use service_jobs.Dao.Table.{Table, Readings}
use service_jobs.Dao.Claim.{is_claimable}
use service_jobs.Dao.Reap.{is_reapable}
use service_jobs.Invariant.{IsWellFormed}
use service_jobs.Lifecycle.Untouched.{IsUntouched, AllUntouched, untouched-spares}
use service_jobs.System.{Service, Step, Steps, here, next, enqueue, claim, settle, reap, expire}

claimable-not_terminal :
    (clock : Readings) (locked : ℕ → Bool) (kinds : List String) (j : Job)
    → is_terminal j.status ≡ true
    → is_claimable clock locked kinds j ≡ false
unfolding is_claimable
claimable-not_terminal clock locked kinds j h = ground arith

reapable-not_terminal :
    (clock : Readings) (locked : ℕ → Bool) (j : Job)
    → is_terminal j.status ≡ true
    → is_reapable clock locked j ≡ false
unfolding is_reapable
reapable-not_terminal clock locked j h = ground arith

mutual
  step-IsUntouched :
      (x : Service) (j : Job) {t u : Table} (step : Step x t u)
      → x.purges ≡ false
      → is_terminal j.status ≡ true
      → IsUntouched x j step
  step-IsUntouched x j (enqueue minted c r e) off over = tt
  step-IsUntouched x j (claim c r e) off over =
      claimable-not_terminal c.clock c.locked r.kinds j over
  step-IsUntouched x j (settle s r between same e) off over =
      (steps-AllUntouched x j between off over, ground arith)
  step-IsUntouched x j (reap c e) off over = reapable-not_terminal c.clock c.locked j over
  step-IsUntouched x j (expire clock scheduled e) off over = cc

  steps-AllUntouched :
      (x : Service) (j : Job) {t u : Table} (path : Steps x t u)
      → x.purges ≡ false
      → is_terminal j.status ≡ true
      → AllUntouched x j path
  steps-AllUntouched x j here off over = tt
  steps-AllUntouched x j (next path step) off over =
      (steps-AllUntouched x j path off over, step-IsUntouched x j step off over)

-- Where the database schedules no purge, a job with a terminal status stays in the table exactly as
-- it is, in every column, through every sequence of operations from a well-formed table.
pub terminal_stays :
    (x : Service) (j : Job) (t u : Table)
    → Steps x t u
    → x.purges ≡ false
    → is_terminal j.status ≡ true
    → IsWellFormed t
    → Memᴰ j t
    → Memᴰ j u
terminal_stays x j t u path off over w m =
    untouched-spares x j path (steps-AllUntouched x j path off over) w m
