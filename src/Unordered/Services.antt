-- ===== src/Unordered/Services.antt =====
-- The services of internal/core on two tables of the same rows.
use mathlib.Core.List.{Permᴰ}
use mathlib.Core.List.Permᴰ
use service_jobs.Prelude.{ℕ, ◌≡◌, refl, ap, List, filter, Bool-cases, inl, inr}
use service_jobs.Prelude.Int.{ℤ}
use service_jobs.Errors.{Result, ok, err, wrap}
use service_jobs.Dao.Job.{Bytes, RawMessage, JobStatus}
use service_jobs.Dao.Job as DaoJob
use service_jobs.Dao.Table.{Table, Engine}
use service_jobs.Dao.Exec.{Call}
use service_jobs.Dao.Claim.{is_claimable}
use service_jobs.Core.Validate.{Validator}
use service_jobs.Core.Job.{Job, job_to_core}
use service_jobs.Core.Enqueue as Enqueue
use service_jobs.Core.Claim as Claim
use service_jobs.Core.Reap as Reap
use service_jobs.Core.Get as Get
use service_jobs.Core.Depth.{queue_depth, depth_result}
use service_jobs.Invariant.{IsWellFormed, Apart}
use service_jobs.Unordered.{SameRows, Alike, AlikeRuns}
use service_jobs.Unordered.Rows.{same_time}
use service_jobs.Unordered.Methods.{
  SameRuns, enqueue-runs, get-runs, reap-runs, claim-runs, depth-runs,
}

-- The same jobs, in any order.
abbrev pub SameJobs : List Job → List Job → Type 0
SameJobs xs ys = Permᴰ xs ys

claim_conclude-Alike :
    (r r' : Result (List DaoJob.Job))
    → Alike SameRows r r'
    → Alike SameJobs (Claim.conclude r) (Claim.conclude r')
claim_conclude-Alike (ok a) (ok b) h = Permᴰ.map job_to_core h
claim_conclude-Alike (ok a) (err y) h = absurd h
claim_conclude-Alike (err x) (ok b) h = absurd h
claim_conclude-Alike (err x) (err y) h = ap (wrap "claim jobs") h

reap_conclude-Alike :
    (r r' : Result (List DaoJob.Job))
    → Alike SameRows r r'
    → Alike SameJobs (Reap.conclude r) (Reap.conclude r')
reap_conclude-Alike (ok a) (ok b) h = Permᴰ.map job_to_core h
reap_conclude-Alike (ok a) (err y) h = absurd h
reap_conclude-Alike (err x) (ok b) h = absurd h
reap_conclude-Alike (err x) (err y) h = ap (wrap "reap jobs") h

module _ (t t' : Table) (d : SameRows t t') where
  pub claim-services :
      (v : Validator) (c : Call) (r : Claim.JobClaimRequest)
      → Apart same_time (filter (is_claimable c.clock c.locked r.kinds) t)
      → AlikeRuns SameJobs (Claim.exec v c r t) (Claim.exec v c r t')
  unfolding Claim.exec Claim.to_dao
  claim-services v c r apart = elim (Bool-cases (Claim.is_valid v r)) [
    | inr invalid ↦ rw invalid (refl, d)
    | inl valid ↦
        let (rows, tables) = claim-runs c t t' d (Claim.to_dao r) apart in
        rw valid (claim_conclude-Alike _ _ rows, tables)
  ]

  pub reap-services :
      (e : Engine) (retention : ℤ) (c : Call)
      → AlikeRuns SameJobs (Reap.exec e retention c t) (Reap.exec e retention c t')
  unfolding Reap.exec
  reap-services e retention c =
      let (rows, tables) = reap-runs c t t' d e _ in (reap_conclude-Alike _ _ rows, tables)

  pub depth-services :
      (duration : ℤ → ℤ) (c : Call) → (queue_depth duration c t).0 ≡ (queue_depth duration c t').0
  unfolding queue_depth
  depth-services duration c = ap depth_result (depth-runs c t t' d duration).0

  module _ (w : IsWellFormed t) where
    pub enqueue-services :
        (v : Validator) (sha256 : Bytes → Bytes) (e : Engine) (minted : Result ℕ) (c : Call)
        (r : Enqueue.JobEnqueueRequest)
        → SameRuns (Enqueue.exec v sha256 e minted c r t) (Enqueue.exec v sha256 e minted c r t')
    unfolding Enqueue.exec
    enqueue-services v sha256 e (err x) c r = elim (Bool-cases (Enqueue.is_valid v r)) [
      | inr invalid ↦ rw invalid (refl, d)
      | inl valid ↦ rw valid (refl, d)
    ]
    enqueue-services v sha256 e (ok id) c r = elim (Bool-cases (Enqueue.is_valid v r)) [
      | inr invalid ↦ rw invalid (refl, d)
      | inl valid ↦
          let (row, tables) = enqueue-runs c t t' d w e (Enqueue.to_dao sha256 id r) in
          rw valid (ap (Enqueue.conclude id (Enqueue.fingerprint_of sha256 r.payload)) row, tables)
    ]

    pub get-services :
        (v : Validator) (c : Call) (r : Get.JobGetRequest)
        → SameRuns (Get.exec v c r t) (Get.exec v c r t')
    unfolding Get.exec
    get-services v c r = elim (Bool-cases (Get.is_valid v r)) [
      | inr invalid ↦ rw invalid (refl, d)
      | inl valid ↦
          let (row, tables) = get-runs c t t' d w _ in rw valid (ap Get.conclude row, tables)
    ]
