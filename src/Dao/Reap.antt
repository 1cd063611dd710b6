-- ===== src/Dao/Reap.antt =====
-- The sweep that recovers lapsed claims (internal/dao/pg.jobReap.go and pg.jobReap.sql).
use service_jobs.Prelude.{
  ℕ, Bool, false, not, ◌&&◌, List, Option, none, some, ltb, if◌then◌else◌, filter,
}
use service_jobs.Prelude.Int.{ℤ}
use service_jobs.Errors.{Result, ◌>>=◌}
use service_jobs.Dao.Job.{Job, RawMessage, pending, abandoned, is_claimed, add_days}
use service_jobs.Dao.Table.{Table, Readings, Engine, update_where, to_jsonb}
use service_jobs.Dao.Exec.{Call, Statement, run_query, query_error}
use service_jobs.Dao.Claim.{chosen}

pub record JobReapRequest : Type 0 where
  pub error : RawMessage
  pub retention_days : ℤ

-- `lease_expires_at < clock_timestamp()`, which a null is not.
abbrev pub lapsed : Option ℕ → ℕ → Bool
lapsed none now = false
lapsed (some t) now = ltb t now

-- The WHERE of the `reapable` query, and SKIP LOCKED.
unfoldable pub is_reapable : Readings → (ℕ → Bool) → Job → Bool
is_reapable clock locked j =
    is_claimed j.status && lapsed j.lease_expires_at (clock j.id 0) && not (locked j.id)

-- The SET of the statement; each CASE tests whether an attempt is left.
unfoldable pub reap_row : Readings → RawMessage → ℤ → Job → Job
reap_row clock error retention j =
    let left = ltb j.attempt j.max_attempts in
    record j {
      status = if left then pending else abandoned;
      claimed_by = none;
      lease_expires_at = none;
      run_at = if left then clock j.id 1 else j.run_at;
      settled_at = if left then none else some (clock j.id 2);
      expires_at = if left then none else some (add_days (clock j.id 3) retention);
      error = if left then j.error else error;
      updated_at = clock j.id 4;
    }

-- The `reapable` query.
unfoldable pub reapable : Readings → (ℕ → Bool) → Table → List Job
unfolding is_reapable
reapable clock locked t = filter (is_reapable clock locked) t

unfoldable pub statement : Engine → Readings → (ℕ → Bool) → JobReapRequest → Statement (List Job)
unfolding reapable reap_row
statement e clock locked r t = do
  error ← to_jsonb e r.error
  update_where (chosen (reapable clock locked t)) (reap_row clock error r.retention_days) t

-- The Exec method.
unfoldable pub exec : Engine → Call → JobReapRequest → Table → Result (List Job) × Table
unfolding run_query
exec e c r = run_query c (statement e c.clock c.locked r) query_error

-- NewJobReap: an object of the empty struct is its method.
abbrev pub new_job_reap : Engine → Call → JobReapRequest → Table → Result (List Job) × Table
new_job_reap = exec
