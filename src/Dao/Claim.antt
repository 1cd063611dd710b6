-- ===== src/Dao/Claim.antt =====
-- Claiming a batch (internal/dao/pg.jobClaim.go and pg.jobClaim.sql).
use service_jobs.Prelude.{
  ℕ, ◌+◌, Bool, ◌&&◌, not, List, [], ◌∷◌, map, some, String, str_eq, leb, if◌then◌else◌, filter,
  take, elem, any,
}
use service_jobs.Prelude.Int.{ℤ, pos, negsuc}
use service_jobs.Errors.{Result, err, foreign}
use service_jobs.Dao.Job.{Job, claimed, is_pending, add_seconds}
use service_jobs.Dao.Table.{Table, Readings, update_where}
use service_jobs.Dao.Exec.{Call, Statement, run_query, query_error}

pub record JobClaimRequest : Type 0 where
  pub kinds : List String
  pub worker_id : String
  pub limit : ℤ
  pub lease_seconds : ℤ

-- `kind IN (…)`.
abbrev pub kind_in : List String → String → Bool
kind_in kinds kind = any (λ k. str_eq k kind) kinds

-- The WHERE of the `claimable` query, and SKIP LOCKED.
unfoldable pub is_claimable : Readings → (ℕ → Bool) → List String → Job → Bool
is_claimable clock locked kinds j =
    is_pending j.status && leb j.run_at (clock j.id 0) && kind_in kinds j.kind && not (locked j.id)

-- `ORDER BY run_at`: rows with one time keep the order in which they are scanned.
abbrev pub insert_by_run_at : Job → List Job → List Job
insert_by_run_at j [] = j ∷ []
insert_by_run_at j (x ∷ xs) =
    if leb j.run_at x.run_at then j ∷ x ∷ xs else x ∷ insert_by_run_at j xs

unfoldable pub sort_by_run_at : List Job → List Job
sort_by_run_at [] = []
sort_by_run_at (j ∷ js) = insert_by_run_at j (sort_by_run_at js)

-- The `claimable` query.
unfoldable pub claimable : Readings → (ℕ → Bool) → List String → ℕ → Table → List Job
unfolding is_claimable sort_by_run_at
claimable clock locked kinds limit t =
    take limit (sort_by_run_at (filter (is_claimable clock locked kinds) t))

-- The SET of the statement.
unfoldable pub claim_row : Readings → String → ℤ → Job → Job
claim_row clock worker lease j = record j {
  status = claimed;
  attempt = j.attempt + 1;
  claimed_by = some worker;
  lease_expires_at = some (add_seconds (clock j.id 1) lease);
  updated_at = clock j.id 2;
}

-- The rows of `claimable`, joined by their ids.
abbrev pub chosen : List Job → Job → Bool
chosen rows j = elem j.id (map (λ x. x.id) rows)

-- The whole statement, for a limit that is not negative.
unfoldable pub claim_up_to : Readings → (ℕ → Bool) → JobClaimRequest → ℕ → Statement (List Job)
unfolding claimable claim_row
claim_up_to clock locked r limit t =
    update_where (chosen (claimable clock locked r.kinds limit t))
      (claim_row clock r.worker_id r.lease_seconds) t

-- A negative limit never reaches the database: `make` panics on it.
abbrev pub statement : Readings → (ℕ → Bool) → JobClaimRequest → ℤ → Statement (List Job)
statement clock locked r (pos limit) t = claim_up_to clock locked r limit t
statement clock locked r (negsuc n) t = err (foreign "panic: makeslice: cap out of range")

-- The Exec method.
unfoldable pub exec : Call → JobClaimRequest → Table → Result (List Job) × Table
unfolding run_query
exec c r = run_query c (statement c.clock c.locked r r.limit) query_error

-- NewJobClaim: an object of the empty struct is its method.
abbrev pub new_job_claim : Call → JobClaimRequest → Table → Result (List Job) × Table
new_job_claim = exec
