-- ===== src/Unordered/Handlers.antt =====
-- The RPCs of internal/handlers on two tables of the same rows.
use service_jobs.Prelude.{◌≡◌, refl, ap, Bool-cases, inl, inr, List}
use service_jobs.Errors.{Result, ok, err, Result-cases}
use service_jobs.Dao.Table.{Table}
use service_jobs.Core.Job as CoreJob
use service_jobs.Core.Enqueue as Enqueue
use service_jobs.Core.Get as Get
use service_jobs.Core.Claim as Claim
use service_jobs.Core.Settle as Settle
use service_jobs.Handlers.Job.{
  Formats, job_to_proto, Response, answered, refused, respond, map_job_error,
}
use service_jobs.Handlers.Enqueue as EnqueueRpc
use service_jobs.Handlers.Enqueue.{JobEnqueueRequest, job_enqueue, out_of_range}
use service_jobs.Handlers.Get as GetRpc
use service_jobs.Handlers.Get.{JobGetRequest, job_get}
use service_jobs.Handlers.Claim as ClaimRpc
use service_jobs.Handlers.Claim.{JobClaimRequest, JobClaimResponse, job_claim}
use service_jobs.Handlers.Settle as SettleRpc
use service_jobs.Handlers.Settle.{JobSettleRequest, job_settle, settle_request}
use service_jobs.Unordered.{SameRows, Alike, AlikeRuns}
use service_jobs.Unordered.Methods.{SameRuns}
use service_jobs.Unordered.Services.{SameJobs}
use mathlib.Core.List.{Permᴰ}
use mathlib.Core.List.Permᴰ

-- One answer, and tables of the same rows.
abbrev pub SameHandled : {A : Type 0} → A × Table → A × Table → Type 0
SameHandled p q = (p.0 ≡ q.0) × SameRows p.1 q.1

-- The same jobs handed out, in any order, or one refusal.
abbrev pub SameClaimed : Response JobClaimResponse → Response JobClaimResponse → Type 0
SameClaimed (answered a) (answered b) = Permᴰ a.jobs b.jobs
SameClaimed (answered a) (refused y) = ⊥
SameClaimed (refused x) (answered b) = ⊥
SameClaimed (refused x) (refused y) = x ≡ y

claimed-respond :
    (f : Formats) (r r' : Result (List CoreJob.Job))
    → Alike SameJobs r r'
    → SameClaimed (respond (ClaimRpc.to_response f) r) (respond (ClaimRpc.to_response f) r')
claimed-respond f (ok a) (ok b) h = Permᴰ.map (job_to_proto f) h
claimed-respond f (ok a) (err y) h = absurd h
claimed-respond f (err x) (ok b) h = absurd h
claimed-respond f (err x) (err y) h = ap map_job_error h

module _ (f : Formats) (t t' : Table) (d : SameRows t t') where
  pub enqueue-handled :
      (service : EnqueueRpc.EnqueueService Table) (r : JobEnqueueRequest)
      → ((q : Enqueue.JobEnqueueRequest) → SameRuns (service q t) (service q t'))
      → SameHandled (job_enqueue f service r t) (job_enqueue f service r t')
  unfolding job_enqueue
  enqueue-handled service r same = elim (Result-cases (f.uuid_parse r.owner_id)) [
    | inl (e, bad) ↦ rw bad (refl, d)
    | inr (owner, good) ↦ elim (Bool-cases (out_of_range r.max_attempts)) [
      | inl out ↦ rw (good, out) (refl, d)
      | inr fits ↦
          let (result, tables) = same (EnqueueRpc.to_core r owner) in
          rw (good, fits) (ap (respond (EnqueueRpc.to_response f)) result, tables)
    ]
  ]

  pub get-handled :
      (service : GetRpc.GetService Table) (r : JobGetRequest)
      → ((q : Get.JobGetRequest) → SameRuns (service q t) (service q t'))
      → SameHandled (job_get f service r t) (job_get f service r t')
  unfolding job_get
  get-handled service r same = elim (Result-cases (f.uuid_parse r.id)) [
    | inl (e, bad) ↦ rw bad (refl, d)
    | inr (id, good) ↦ elim (Result-cases (f.uuid_parse r.owner_id)) [
      | inl (e, bad) ↦ rw (good, bad) (refl, d)
      | inr (owner, good') ↦
          let (result, tables) = same (record { id = id; owner_id = owner }) in
          rw (good, good') (ap (respond (GetRpc.to_response f)) result, tables)
    ]
  ]

  pub settle-handled :
      (service : SettleRpc.SettleService Table) (r : JobSettleRequest)
      → ((q : Settle.JobSettleRequest) → SameRuns (service q t) (service q t'))
      → SameHandled (job_settle f service r t) (job_settle f service r t')
  unfolding job_settle
  settle-handled service r same = elim (Result-cases (f.uuid_parse r.id)) [
    | inl (e, bad) ↦ rw bad (refl, d)
    | inr (id, good) ↦
        let (result, tables) = same (settle_request id r.worker_id r.outcome) in
        rw good (ap (respond (SettleRpc.to_response f)) result, tables)
  ]

  pub claim-handled :
      (service : Claim.JobClaimRequest → Table → Result (List CoreJob.Job) × Table)
      (r : JobClaimRequest)
      → AlikeRuns SameJobs (service (ClaimRpc.to_core r) t) (service (ClaimRpc.to_core r) t')
      → SameClaimed (job_claim f service r t).0 (job_claim f service r t').0
        × SameRows (job_claim f service r t).1 (job_claim f service r t').1
  unfolding job_claim
  claim-handled service r same = (claimed-respond f _ _ same.0, same.1)
