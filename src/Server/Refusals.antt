-- ===== src/Server/Refusals.antt =====
-- What a refused RPC leaves (cmd/grpc/main.go with the handlers of internal/handlers).
use service_jobs.Prelude.{ℕ, ◌≡◌, refl, Bool, true, false, none, inl, inr, Bool-cases}
use service_jobs.Errors.{Result, Result-cases}
use service_jobs.Dao.Table.{Table}
use service_jobs.Dao.Exec.{Call}
use service_jobs.Core.Enqueue as Enqueue
use service_jobs.Core.Claim as Claim
use service_jobs.Core.Settle as Settle
use service_jobs.Handlers.Job.{Response, answered, refused}
use service_jobs.Handlers.Enqueue.{JobEnqueueRequest, job_enqueue, out_of_range, to_core}
use service_jobs.Handlers.Claim as Wire
use service_jobs.Handlers.Claim.{JobClaimRequest, job_claim}
use service_jobs.Handlers.Settle.{JobSettleRequest, job_settle, settle_request}
use service_jobs.System.{job_retention_days}
use service_jobs.Atomic.Services.{enqueue_exec-IsAtomic, claim_exec-IsAtomic, settle_exec-IsAtomic}
use service_jobs.Server.{
  Process, State, Rpc, Reply, status_reply, enqueued, got, claimed, settled, watched, handle,
}
use service_jobs.Server.Steps.{get-jobs}

abbrev pub is_refused : {A : Type 0} → Response A → Bool
is_refused (answered a) = false
is_refused (refused e) = true

-- Whether a reply is a status in place of a response. A stream is not.
abbrev pub refuses : Reply → Bool
refuses (status_reply r) = false
refuses (enqueued r) = is_refused r
refuses (got r) = is_refused r
refuses (claimed r) = is_refused r
refuses (settled r) = is_refused r
refuses (watched sent end) = false

-- No answer of the database is lost on the way, and no other session writes between the read and the
-- write of a settle.
abbrev pub IsCertain : Rpc → Table → Type 0
IsCertain (Rpc.status_rpc h asked stored c) t = Unit {0}
IsCertain (Rpc.enqueue r minted c) t = c.lost ≡ none
IsCertain (Rpc.get r c) t = Unit {0}
IsCertain (Rpc.claim r c) t = c.lost ≡ none
IsCertain (Rpc.settle r session) t =
    (session.write.lost ≡ none) × (session.commit_lost ≡ none) × (session.between t ≡ t)
IsCertain (Rpc.watch r c rounds) t = Unit {0}

module _ (p : Process) (s : State) where
  enqueue-unchanged :
      (r : JobEnqueueRequest) (minted : Result ℕ) (c : Call)
      → c.lost ≡ none
      → refuses (handle p (Rpc.enqueue r minted c) s).0 ≡ true
      → (handle p (Rpc.enqueue r minted c) s).1.jobs ≡ s.jobs
  unfolding handle job_enqueue
  enqueue-unchanged r minted c kept h = elim (Result-cases (p.formats.uuid_parse r.owner_id)) [
    | inl (e, bad) ↦ rw bad refl
    | inr (owner, good) ↦ elim (Bool-cases (out_of_range r.max_attempts)) [
      | inl out ↦ rw (good, out) refl
      | inr fits ↦
          let result =
            Enqueue.exec p.service.validator p.service.sha256 p.service.engine minted c
              (to_core r owner) s.jobs in
          elim (Result-cases result.0) [
            | inl (e, lost) ↦
                rw (good, fits)
                  (enqueue_exec-IsAtomic p.service.engine p.service.sha256 c s.jobs kept
                    p.service.validator minted (to_core r owner) e lost)
            | inr (a, done) ↦ let k = rw (good, fits, done) at h in cc
          ]
    ]
  ]

  claim-unchanged :
      (r : JobClaimRequest) (c : Call)
      → c.lost ≡ none
      → refuses (handle p (Rpc.claim r c) s).0 ≡ true
      → (handle p (Rpc.claim r c) s).1.jobs ≡ s.jobs
  unfolding handle job_claim
  claim-unchanged r c kept h =
      elim (Result-cases (Claim.exec p.service.validator c (Wire.to_core r) s.jobs).0) [
        | inl (e, lost) ↦
            claim_exec-IsAtomic c s.jobs kept p.service.validator (Wire.to_core r) e lost
        | inr (a, done) ↦ let k = rw done at h in cc
      ]

  settle-unchanged :
      (r : JobSettleRequest) (session : Settle.Session)
      → IsCertain (Rpc.settle r session) s.jobs
      → refuses (handle p (Rpc.settle r session) s).0 ≡ true
      → (handle p (Rpc.settle r session) s).1.jobs ≡ s.jobs
  unfolding handle job_settle
  settle-unchanged r session (kept, confirmed, alone) h =
      elim (Result-cases (p.formats.uuid_parse r.id)) [
        | inl (e, bad) ↦ rw bad refl
        | inr (id, good) ↦
            let q = settle_request id r.worker_id r.outcome in
            let result =
              Settle.exec p.service.validator p.service.engine job_retention_days session q
                s.jobs in
            elim (Result-cases result.0) [
              | inl (e, lost) ↦ rw good (
                  settle_exec-IsAtomic p.service.engine job_retention_days session q s.jobs kept
                    confirmed alone p.service.validator e lost)
              | inr (a, done) ↦ let k = rw (good, done) at h in cc
            ]
      ]

-- A refusal is whole: an RPC that is answered with an error status has written nothing to the jobs
-- table, if no answer of the database was lost on its way and, for a settle, no other session wrote
-- between its read and its write.
pub refused_unchanged :
    (p : Process) (m : Rpc) (s : State)
    → IsCertain m s.jobs
    → refuses (handle p m s).0 ≡ true
    → (handle p m s).1.jobs ≡ s.jobs
unfolding handle
refused_unchanged p (Rpc.status_rpc x asked stored c) s sure h = refl
refused_unchanged p (Rpc.enqueue r minted c) s sure h = enqueue-unchanged p s r minted c sure h
refused_unchanged p (Rpc.get r c) s sure h = get-jobs p.formats p.service.validator c r s.jobs
refused_unchanged p (Rpc.claim r c) s sure h = claim-unchanged p s r c sure h
refused_unchanged p (Rpc.settle r session) s sure h = settle-unchanged p s r session sure h
refused_unchanged p (Rpc.watch r c rounds) s sure h = refl
