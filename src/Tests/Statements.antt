-- ===== src/Tests/Statements.antt =====
-- The theorems on enqueueing and claiming, applied to concrete calls.
use service_jobs.Prelude.{
  ℕ, true, false, ◌≡◌, ◌≢◌, ◌≤◌, ◌⊎◌, filter, ◌++◌, refl, List, [], ◌∷◌, map, length, All, Memᴰ,
  some, arith,
}
use service_jobs.Prelude.Int.{pos}
use service_jobs.Errors.{ok}
use service_jobs.Dao.Job.{Job}
use service_jobs.Dao.Enqueue as DaoEnqueue
use service_jobs.Dao.Claim.{claimable, chosen, is_claimable, claim_row, sort_by_run_at}
use service_jobs.Core.Validate.{validate_not_blank}
use service_jobs.Core.Job.{job_to_core}
use service_jobs.Core.Enqueue as Enqueue
use service_jobs.Core.Claim as Claim
use service_jobs.Idempotency.{enqueue_again, attached}
use service_jobs.Invariant.{IsWellFormed}
use service_jobs.Claims.{claim_batch, IsHandedOut, Waited, batch, claimed_table}
use service_jobs.Claims.Disjoint.{batches_disjoint}
use service_jobs.Claims.Oldest.{claim_oldest}
use service_jobs.Claims.Size.{claim_fills}
use service_jobs.Claims.Drain.{claims, is_waiting, IsPrompt, claims_drain}
use service_jobs.Tests.Data.{
  a_validator, an_engine, a_call, a_lost_call, a_call-IsHealthy, a_lost_call-Commits, a_clock,
}
use service_jobs.Tests.Tables.{
  waiting, waiting_longer, jobs, jobs-IsWellFormed, waiting-in, waiting_longer-in,
}

abbrev submission : Enqueue.JobEnqueueRequest
submission = record {
  kind = "mail";
  payload = some (b'{' ∷ b'}' ∷ []);
  owner_id = 7;
  idempotency_key = some "fresh";
  max_attempts = pos 3;
}

abbrev hash : List ℕ → List ℕ
hash b = b

abbrev recorded : Job
recorded = DaoEnqueue.new_row a_clock (Enqueue.to_dao hash 20 submission) (b'{' ∷ b'}' ∷ []) 3

submission-valid : Enqueue.is_valid a_validator submission ≡ true
unfolding Enqueue.is_valid validate_not_blank
submission-valid = refl

submission-runs :
    DaoEnqueue.statement an_engine a_clock (Enqueue.to_dao hash 20 submission) jobs
    ≡ ok (recorded, jobs ++ recorded ∷ [])
unfolding DaoEnqueue.statement Enqueue.to_dao
submission-runs = refl

recorded-id : recorded.id ≡ 20
unfolding DaoEnqueue.new_row Enqueue.to_dao
recorded-id = refl

recorded-other : recorded.id ≢ 21
recorded-other e = absurd (ground (arith, recorded-id))

-- The first answer is lost, and the second call attaches to the recorded job.
enqueue_again_example :
    ((Enqueue.exec a_validator hash an_engine (ok 20) a_lost_call submission jobs).1
      ≡ jobs ++ recorded ∷ [])
    × (Enqueue.exec a_validator hash an_engine (ok 21) a_call submission (jobs ++ recorded ∷ []) ≡ (
      attached (Enqueue.fingerprint_of hash submission.payload) recorded,
      jobs ++ recorded ∷ [],
    ))
enqueue_again_example =
    enqueue_again a_validator hash an_engine 20 21 a_lost_call a_call submission "fresh" jobs
      (jobs ++ recorded ∷ []) recorded submission-valid refl a_lost_call-Commits a_call-IsHealthy
      submission-runs recorded-other

abbrev pub one_mail : Claim.JobClaimRequest
one_mail = record { kinds = "mail" ∷ []; worker_id = "x"; limit = pos 1; lease_seconds = pos 60 }

one_mail-valid : Claim.is_valid a_validator one_mail ≡ true
unfolding Claim.is_valid
one_mail-valid = refl

claim_batch_example :
    (rows : List Job) × ((Claim.exec a_validator a_call one_mail jobs).0
      ≡ ok (map job_to_core rows))
    × (length rows ≤ 1)
    × IsWellFormed (Claim.exec a_validator a_call one_mail jobs).1
    × All
        (λ j.
          Memᴰ j (Claim.exec a_validator a_call one_mail jobs).1
          × Waited jobs j
          × IsHandedOut a_clock one_mail j)
        rows
claim_batch_example =
    claim_batch a_validator a_call one_mail 1 jobs one_mail-valid refl a_call-IsHealthy
      jobs-IsWellFormed

abbrev first_batch : Job
first_batch = claim_row a_clock "x" (pos 60) waiting_longer

abbrev second_batch : Job
second_batch = claim_row a_clock "x" (pos 60) waiting

first-in : Memᴰ first_batch (batch a_call one_mail 1 jobs)
unfolding claimable is_claimable sort_by_run_at
first-in = Memᴰ.head refl

second-in : Memᴰ second_batch (batch a_call one_mail 1 (claimed_table a_call one_mail 1 jobs))
unfolding claimable is_claimable sort_by_run_at claim_row
second-in = Memᴰ.head refl

batches_disjoint_example : first_batch.id ≢ second_batch.id
batches_disjoint_example =
    batches_disjoint a_call a_call one_mail one_mail 1 1 jobs first_batch second_batch
      jobs-IsWellFormed first-in second-in

picked-longer : chosen (claimable a_clock (λ id. false) ("mail" ∷ []) 1 jobs) waiting_longer ≡ true
unfolding claimable is_claimable sort_by_run_at
picked-longer = refl

due-waiting : is_claimable a_clock (λ id. false) ("mail" ∷ []) waiting ≡ true
unfolding is_claimable
due-waiting = refl

left-waiting : chosen (claimable a_clock (λ id. false) ("mail" ∷ []) 1 jobs) waiting ≡ false
unfolding claimable is_claimable sort_by_run_at
left-waiting = refl

claim_oldest_example : 3 ≤ 5
claim_oldest_example =
    claim_oldest a_clock (λ id. false) ("mail" ∷ []) 1 jobs waiting_longer waiting jobs-IsWellFormed
      waiting_longer-in waiting-in picked-longer due-waiting left-waiting

claim_fills_example :
    (rows : List Job) × ((Claim.exec a_validator a_call one_mail jobs).0
      ≡ ok (map job_to_core rows))
    × (((length rows ≡ 1)
          × (1 ≤ length (filter (is_claimable a_call.clock a_call.locked one_mail.kinds) jobs)))
        ⊎ ((length rows
              ≡ length (filter (is_claimable a_call.clock a_call.locked one_mail.kinds) jobs))
            × (length (filter (is_claimable a_call.clock a_call.locked one_mail.kinds) jobs) ≤ 1)))
claim_fills_example =
    claim_fills a_validator a_call one_mail 1 jobs one_mail-valid refl a_call-IsHealthy
      jobs-IsWellFormed

a_call-IsPrompt : IsPrompt 5 a_call
a_call-IsPrompt = record { healthy = a_call-IsHealthy; free = λ id. refl; late = λ id. omega arith }

claims_drain_example :
    length (
      filter
        (is_waiting one_mail.kinds 5)
        (claims a_validator one_mail (a_call ∷ a_call ∷ []) jobs))
    ≡ 0
claims_drain_example =
    claims_drain a_validator one_mail 1 5 (a_call ∷ a_call ∷ []) jobs one_mail-valid refl
      (a_call-IsPrompt, (a_call-IsPrompt, tt)) jobs-IsWellFormed (omega arith)
