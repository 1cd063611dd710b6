-- ===== src/Tests/Keys.antt =====
-- The theorem on idempotency keys after a run, applied to a concrete one.
use service_jobs.Prelude.{◌≡◌, refl, true, false, [], ◌∷◌, some, Memᴰ, All, All-mem, arith}
use service_jobs.Prelude.Int.{pos}
use service_jobs.Errors.{ok}
use service_jobs.Dao.Job.{Job}
use service_jobs.Dao.Table.{Table, update_where, satisfies_checks}
use service_jobs.Dao.Exec.{Call}
use service_jobs.Dao.Enqueue as DaoEnqueue
use service_jobs.Dao.Claim as DaoClaim
use service_jobs.Dao.Claim.{claim_row}
use service_jobs.Dao.Purge.{purge, is_expired}
use service_jobs.Core.Validate.{validate_not_blank}
use service_jobs.Core.Enqueue as Enqueue
use service_jobs.Core.Claim as Claim
use service_jobs.Idempotency.{attached}
use service_jobs.Idempotency.Kept.{SameJob}
use service_jobs.Idempotency.Steps.{AllRetained}
use service_jobs.Idempotency.Forever.{key_forever}
use service_jobs.System.{Service, Steps, here, next, claim, expire}
use service_jobs.Tests.Data.{a_validator, an_engine, a_call, a_call-IsHealthy}
use service_jobs.Tests.Tables.{jobs, jobs-IsWellFormed, waiting, waiting-in}
use service_jobs.Tests.Runs.{a_service, all_mail}

abbrev purging : Service
purging = record a_service { sha256 = λ b. []; purges = true }

abbrev early : Call
early = record a_call { clock = λ id site. 7 }

abbrev all_claimed : Table
all_claimed = (Claim.exec a_validator early all_mail jobs).1

abbrev after_purge : Table
after_purge = purge early.clock all_claimed

abbrev claim_and_purge : Steps purging jobs after_purge
claim_and_purge = next (next here (claim early all_mail refl)) (expire early.clock refl refl)

none_expired : All (λ k. is_expired early.clock k ≡ false) all_claimed
unfolding claim_row Claim.exec DaoClaim.exec DaoClaim.claim_up_to update_where satisfies_checks
none_expired = (refl, (refl, (refl, (refl, tt))))

claim_and_purge-AllRetained : AllRetained purging 1 claim_and_purge
claim_and_purge-AllRetained = (
  (tt, tt),
  λ k m named. All-mem (λ x. is_expired early.clock x ≡ false) all_claimed none_expired m,
)

-- The key of `waiting` again.
abbrev again : Enqueue.JobEnqueueRequest
again = record {
  kind = "mail";
  payload = some (b'{' ∷ b'}' ∷ []);
  owner_id = 7;
  idempotency_key = some "k";
  max_attempts = pos 3;
}

again-valid : Enqueue.is_valid a_validator again ≡ true
unfolding Enqueue.is_valid validate_not_blank
again-valid = refl

abbrev proposed : Job
proposed = DaoEnqueue.new_row a_call.clock (Enqueue.to_dao (λ b. []) 20 again) (b'{' ∷ b'}' ∷ []) 3

again-proposed :
    DaoEnqueue.propose an_engine a_call.clock (Enqueue.to_dao (λ b. []) 20 again) ≡ ok proposed
unfolding DaoEnqueue.propose DaoEnqueue.new_row satisfies_checks Enqueue.to_dao
again-proposed = refl

key_forever_example :
    (k : Job) × Memᴰ k after_purge
    × SameJob waiting k
    × (Enqueue.exec a_validator (λ b. []) an_engine (ok 20) a_call again after_purge
        ≡ (attached (Enqueue.fingerprint_of (λ b. []) again.payload) k, after_purge))
key_forever_example =
    key_forever purging jobs after_purge claim_and_purge waiting "k" a_call again 20 proposed
      jobs-IsWellFormed waiting-in claim_and_purge-AllRetained refl refl refl refl again-valid
      a_call-IsHealthy again-proposed (omega arith)
