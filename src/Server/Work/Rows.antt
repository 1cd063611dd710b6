-- ===== src/Server/Work/Rows.antt =====
-- The rows that a claim and a report of success make of a waiting job (internal/handlers/grpc.jobClaim.go
-- and grpc.jobSettle.go on the statements of internal/dao).
use mathlib.Core.List.Memᴰ
use text.Mathlib.TextPositions.{eq_refl}
use service_jobs.Prelude.{ℕ, ◌+◌, ◌≡◌, ◌≤◌, refl, ap, true, false, none, length, map, arith, Memᴰ}
use service_jobs.Prelude.Int.{pos}
use service_jobs.Errors.{ok}
use service_jobs.Dao.Job.{Job, RawMessage, is_pending}
use service_jobs.Dao.Job as DaoJob
use service_jobs.Dao.Table.{Table}
use service_jobs.Dao.Exec.{Call}
use service_jobs.Dao.Claim.{kind_in, is_claimable, claim_row, chosen, claimable}
use service_jobs.Dao.Settle.{settle_row, holds}
use service_jobs.Core.Claim as Claim
use service_jobs.Core.Settle as Settle
use service_jobs.Core.Settle.{to_settle}
use service_jobs.Core.Job.{job_to_core}
use service_jobs.Core.Validate.{Validator}
use service_jobs.Handlers.Job.{Formats, job_to_proto, succeeded}
use service_jobs.Handlers.Claim.{JobClaimRequest, to_core}
use service_jobs.Invariant.{IsWellFormed}
use service_jobs.Invariant.Exec.{IsHealthy}
use service_jobs.Invariant.Services.{claim-keeps}
use service_jobs.Invariant.Chosen.{mem-filter_of}
use service_jobs.Invariant.Written.{mem-written_new}
use service_jobs.Claims.{batch, claimed_table, exec-batch}
use service_jobs.Claims.Whole.{chosen-whole}
use service_jobs.System.{job_retention_days}

-- What the claim makes of the job, the table after it, the report of its success, and what that
-- makes of the job.
abbrev pub held_row : Call → JobClaimRequest → Job → Job
held_row c r j = claim_row c.clock r.worker_id r.lease_seconds j

abbrev pub middle : Call → JobClaimRequest → ℕ → Table → Table
middle c r n t = claimed_table c (to_core r) n t

abbrev pub report : JobClaimRequest → RawMessage → Job → Settle.JobSettleRequest
report r out j = record { id = j.id; worker_id = r.worker_id; result = out; failure = none }

abbrev pub done_row : Call → JobClaimRequest → Settle.Session → RawMessage → Job → RawMessage → Job
done_row c r session out j stored =
    settle_row session.write.clock
      (to_settle job_retention_days (report r out j) DaoJob.succeeded out none) stored none
      (held_row c r j)

module _ (c : Call) (r : JobClaimRequest) (j : Job) where
  pub held_row-holds : holds j.id r.worker_id (held_row c r j) ≡ true
  unfolding claim_row
  held_row-holds = ground (arith, eq_refl r.worker_id)

  -- The fields that the worker sees.
  pub held_row-shown :
      (f : Formats)
      → let z = job_to_proto f (job_to_core (held_row c r j)) in
        (z.id ≡ f.uuid_string j.id) × (z.payload ≡ j.payload) × (z.attempt ≡ j.attempt + 1)
  unfolding job_to_proto job_to_core claim_row
  held_row-shown f = (refl, refl, refl)

  module _ (session : Settle.Session) (out stored : RawMessage) where
    -- The fields that the owner sees.
    pub done_row-shown :
        (f : Formats)
        → let z = job_to_proto f (job_to_core (done_row c r session out j stored)) in
          (z.id ≡ f.uuid_string j.id)
          × (z.status ≡ succeeded)
          × (z.result ≡ stored)
          × (z.attempt ≡ j.attempt + 1)
    unfolding job_to_proto job_to_core settle_row claim_row to_settle
    done_row-shown f = (refl, refl, refl, refl)

    pub done_row-ids :
        ((done_row c r session out j stored).id ≡ j.id)
        × ((done_row c r session out j stored).owner_id ≡ j.owner_id)
    unfolding settle_row claim_row
    done_row-ids = (refl, refl)

module _ (c : Call) (r : JobClaimRequest) (n : ℕ) where
  -- The claimed row stands in the table and in the batch.
  pub held_row-claimed :
      (t : Table) (j : Job)
      → length t ≤ n
      → Memᴰ j t
      → is_pending j.status ≡ true
      → kind_in r.kinds j.kind ≡ true
      → j.run_at ≤ c.clock j.id 0
      → c.locked j.id ≡ false
      → Memᴰ (held_row c r j) (middle c r n t) × Memᴰ (held_row c r j) (batch c (to_core r) n t)
  unfolding to_core is_claimable
  held_row-claimed t j room m waits wanted due free =
      let pick = chosen (claimable c.clock c.locked r.kinds n t) in
      let row = claim_row c.clock r.worker_id r.lease_seconds in
      let now : is_claimable c.clock c.locked r.kinds j ≡ true = ground arith in
      let hit = chosen-whole c.clock c.locked r.kinds n t j room m now in
      (mem-written_new pick row t m hit, Memᴰ.map row (mem-filter_of pick t m hit))

  module _ (v : Validator) (valid : Claim.is_valid v (to_core r) ≡ true) (limit : r.limit ≡ pos n)
      (h : IsHealthy c) where
    pub claim-middle :
        (t : Table)
        → IsWellFormed t
        → Claim.exec v c (to_core r) t
          ≡ (ok (map job_to_core (batch c (to_core r) n t)), middle c r n t)
    unfolding to_core
    claim-middle t w = exec-batch v c (to_core r) n t valid limit h w

    pub middle-IsWellFormed : (t : Table) → IsWellFormed t → IsWellFormed (middle c r n t)
    middle-IsWellFormed t w =
        rw (ap (λ a. a.1) (claim-middle t w)) at (claim-keeps t w c v (to_core r))
