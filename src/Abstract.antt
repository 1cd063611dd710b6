-- ===== src/Abstract.antt =====
-- The life of one job as its users see it, without the columns: what internal/dao/pg.job.go and the
-- README say of the statuses, of leases and of attempts.
pub mod Bounds
pub mod Rows
pub mod Runs
pub mod Steps
use service_jobs.Prelude.{
  ℕ, suc, ◌==◌, Bool, true, ◌≡◌, ◌≤◌, ◌<◌, ◌⊎◌, Option, none, some, String, find?,
}
use service_jobs.Dao.Job.{Job, JobStatus, pending, claimed, succeeded, failed, abandoned, cancelled}
use service_jobs.Dao.Table.{Table}

-- Where a job stands: not recorded, waiting or held with the runs begun and their cap, or settled.
pub data Phase : Type 0 where
  absent : Phase
  waiting : (attempt cap : ℕ) → Phase
  held : (worker : Option String) (attempt cap : ℕ) → Phase
  settled : JobStatus → Phase

-- Who moves it: an enqueue, a claim, a settle, a sweep or the purge.
pub data Act : Type 0 where
  enqueuing claiming settling sweeping purging : Act

-- One move, by an operation. A run that begins counts; a job waits again only with a run left; a sweep
-- gives it up only with none; nothing ends as cancelled; only a settled job is forgotten, by the purge,
-- where there is one.
pub data Move (b : Bool) : Act → Phase → Phase → Type 0 where
  submit : {m : ℕ} → 1 ≤ m → Move b enqueuing absent (waiting 0 m)
  begin :
      {a n m : ℕ} (w : String)
      → a < m
      → n ≡ suc a
      → Move b claiming (waiting a m) (held (some w) n m)
  hand_back : {w : Option String} {a m : ℕ} → a < m → Move b settling (held w a m) (waiting a m)
  succeed : {w : Option String} {a m : ℕ} → Move b settling (held w a m) (settled succeeded)
  fail : {w : Option String} {a m : ℕ} → Move b settling (held w a m) (settled failed)
  recover : {w : Option String} {a m : ℕ} → a < m → Move b sweeping (held w a m) (waiting a m)
  abandon : {w : Option String} {a m : ℕ} → m ≤ a → Move b sweeping (held w a m) (settled abandoned)
  forget : {s : JobStatus} → b ≡ true → Move b purging (settled s) absent

-- One move of the operation, or none.
abbrev pub Follows : Bool → Act → Phase → Phase → Type 0
Follows b act p q = (p ≡ q) ⊎ Move b act p q

abbrev pub phase_by : JobStatus → Option String → ℕ → ℕ → Phase
phase_by pending w a m = waiting a m
phase_by claimed w a m = held w a m
phase_by succeeded w a m = settled succeeded
phase_by failed w a m = settled failed
phase_by abandoned w a m = settled abandoned
phase_by cancelled w a m = settled cancelled

abbrev pub phase_of_row : Job → Phase
phase_of_row j = phase_by j.status j.claimed_by j.attempt j.max_attempts

abbrev pub phase_of_found : Option Job → Phase
phase_of_found none = absent
phase_of_found (some j) = phase_of_row j

-- The abstraction: how a job of the table stands.
abbrev pub phase_of : ℕ → Table → Phase
phase_of id t = phase_of_found (find? (λ (j : Job). j.id == id) t)
