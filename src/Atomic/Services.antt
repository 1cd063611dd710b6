-- ===== src/Atomic/Services.antt =====
-- What an error of a service of internal/core leaves of the table.
use service_jobs.Prelude.{
  ◌≡◌, ◌≢◌, ◌==◌, refl, sym, ap, ◌∙◌, Option-cases, Option, none, some, inl, inr, Bool-cases, ◌⊎◌,
  any, ℕ, ltb,
}
use service_jobs.Prelude.Int.{ℤ}
use service_jobs.Errors.{GoError, Result, ok, err, Result-cases, >>=-eq_ok}
use service_jobs.Dao.Job.{Job, Bytes, RawMessage, JobStatus, succeeded, failed}
use service_jobs.Dao.Table.{Table, Engine, Readings}
use service_jobs.Dao.Exec.{Call, query_error}
use service_jobs.Dao.Enqueue as DaoEnqueue
use service_jobs.Dao.Claim as DaoClaim
use service_jobs.Dao.GetById as GetById
use service_jobs.Core.Validate.{Validator}
use service_jobs.Core.Job as CoreJob
use service_jobs.Core.Enqueue as Enqueue
use service_jobs.Core.Claim as Claim
use service_jobs.Core.Settle as Settle
use service_jobs.Core.Settle.{Session, JobSettleRequest, JobFailure}
use service_jobs.Invariant.Exec.{run_query-eq_ok}
use service_jobs.Invariant.Insert.{propose-eq_ok}
use service_jobs.Invariant.Retry.{get_by_id-reads}
use service_jobs.Idempotency.First.{conclude-created}
use service_jobs.Atomic.{IsAtomic, enqueue-IsAtomic, claim-IsAtomic, settle-IsAtomic}

-- A conclusion that fails only where its statement did.
map-IsAtomic :
    {A B : Type 0} (f : Result A → Result B) (t : Table) (r : Result A × Table)
    → ((a : A) (e : GoError) → f (ok a) ≢ err e)
    → IsAtomic t r
    → IsAtomic t (f r.0, r.1)
map-IsAtomic f t (err x, u) never h e lost = h x refl
map-IsAtomic f t (ok a, u) never h e lost = absurd (never a e lost)

module _ (c : Call) (t : Table) (kept : c.lost ≡ none) where
  pub claim_exec-IsAtomic :
      (v : Validator) (r : Claim.JobClaimRequest) → IsAtomic t (Claim.exec v c r t)
  unfolding Claim.exec
  claim_exec-IsAtomic v r = elim (Bool-cases (Claim.is_valid v r)) [
    | inr invalid ↦ rw invalid (λ e h. refl)
    | inl valid ↦ rw valid (
        map-IsAtomic Claim.conclude t (DaoClaim.exec c (Claim.to_dao r) t) (λ a e h. cc)
          (claim-IsAtomic c t kept (Claim.to_dao r)))
  ]

  settle_once-IsAtomic :
      (e : Engine) (retention : ℤ) (r : JobSettleRequest) (status : JobStatus)
      (result error : RawMessage)
      → IsAtomic t (Settle.settle (Settle.service_job_settle e retention) c r status result error t)
  unfolding Settle.settle
  settle_once-IsAtomic e retention r status result error =
      map-IsAtomic Settle.settled t _ (λ a x h. cc)
        (settle-IsAtomic c t kept e (Settle.to_settle retention r status result error))

finish-IsAtomic :
    (s : Session) (outcome : Result CoreJob.Job) (base changed : Table)
    → s.commit_lost ≡ none
    → IsAtomic base (Settle.finish s outcome base changed)
finish-IsAtomic s (err x) base changed kept = λ e h. refl
finish-IsAtomic s (ok job) base changed kept = elim (Option-cases s.commit_refused) [
  | inr (x, p) ↦ rw (p, Settle.finish) (λ e h. refl)
  | inl p ↦ rw (p, kept, Settle.finish) (λ e h. cc)
]

decide-base :
    (e : Engine) (retention : ℤ) (c : Call) (r : JobSettleRequest) (error : RawMessage)
    (read : Result Job) (base : Table)
    → (Settle.decide (Settle.service_job_settle e retention) c r error read base).base ≡ base
unfolding Settle.decide Settle.give_back
decide-base e retention c r error (err x) base = refl
decide-base e retention c r error (ok j) base = elim (Bool-cases (Settle.is_mine r j)) [
  | inr other ↦ rw other refl
  | inl mine ↦ elim (Bool-cases (ltb j.attempt j.max_attempts)) [
    | inl left ↦ rw (mine, left) refl
    | inr spent ↦ rw (mine, spent) refl
  ]
]

module _ (e : Engine) (retention : ℤ) (s : Session) (r : JobSettleRequest) (t : Table)
    (kept : s.write.lost ≡ none) (confirmed : s.commit_lost ≡ none) (alone : s.between t ≡ t) where
  retry-IsAtomic :
      (error : RawMessage)
      → IsAtomic t (Settle.retry (Settle.service_job_settle e retention) s r error t)
  unfolding Settle.retry
  retry-IsAtomic error = elim (Option-cases s.begin_failed) [
    | inr (x, p) ↦ rw (p, Settle.retry) (λ x h. refl)
    | inl p ↦
        let read = GetById.exec s.read (record { id = r.id }) t in
        let reads = get_by_id-reads s.read (record { id = r.id }) t in
        let work =
          Settle.decide (Settle.service_job_settle e retention) s.write r error read.0
            (s.between read.1) in
        let back : work.base ≡ t =
          decide-base e retention s.write r error read.0 (s.between read.1)
          ∙ ap s.between reads
          ∙ alone in
        let done = finish-IsAtomic s work.outcome work.base work.changed confirmed in
        rw (p, Settle.retry) (λ x h. done x h ∙ back)
  ]

  dispatch-IsAtomic :
      (failure : Option JobFailure)
      → IsAtomic t (Settle.dispatch (Settle.service_job_settle e retention) s r failure t)
  unfolding Settle.dispatch
  dispatch-IsAtomic none = settle_once-IsAtomic s.write t kept e retention r succeeded r.result none
  dispatch-IsAtomic (some f) = elim (Bool-cases f.retryable) [
    | inl again ↦ rw again (retry-IsAtomic f.error)
    | inr final ↦ rw final (settle_once-IsAtomic s.write t kept e retention r failed none f.error)
  ]

  pub settle_exec-IsAtomic : (v : Validator) → IsAtomic t (Settle.exec v e retention s r t)
  unfolding Settle.exec
  settle_exec-IsAtomic v = elim (Bool-cases (Settle.is_valid v r)) [
    | inr invalid ↦ rw invalid (λ x h. refl)
    | inl valid ↦ rw valid (dispatch-IsAtomic r.failure)
  ]

-- The row that an insert answers with is the proposed one, unless it changed nothing.
resolve-rows :
    (j : Job) (t : Table) (found : Option Job) (row : Job) (u : Table)
    → DaoEnqueue.resolve j t found ≡ ok (row, u)
    → (u ≡ t) ⊎ (row ≡ j)
resolve-rows j t (some old) row u h = inl cc
resolve-rows j t none row u h = elim (Bool-cases (any (λ (x : Job). x.id == j.id) t)) [
  | inl clash ↦ let k = rw clash at h in cc
  | inr free ↦ let k = rw free at h in inr cc
]

new_row-id :
    (clock : Readings) (q : DaoEnqueue.JobEnqueueRequest) (payload : Bytes) (n : ℕ)
    → (DaoEnqueue.new_row clock q payload n).id ≡ q.id
unfolding DaoEnqueue.new_row
new_row-id clock q payload n = refl

to_dao-id :
    (sha256 : Bytes → Bytes) (id : ℕ) (r : Enqueue.JobEnqueueRequest)
    → (Enqueue.to_dao sha256 id r).id ≡ id
unfolding Enqueue.to_dao
to_dao-id sha256 id r = refl

-- A conflict is found only where an older row answers.
conflict-clean :
    (e : Engine) (c : Call) (q : DaoEnqueue.JobEnqueueRequest) (id : ℕ) (fingerprint : Bytes)
    (t : Table) (row : Job) (x : GoError)
    → q.id ≡ id
    → (DaoEnqueue.exec e c q t).0 ≡ ok row
    → Enqueue.conclude id fingerprint (ok row) ≡ err x
    → (DaoEnqueue.exec e c q t).1 ≡ t
unfolding DaoEnqueue.exec DaoEnqueue.statement
conflict-clean e c q id fingerprint t row x named done conflict =
    let (a, h, same) =
      run_query-eq_ok c (DaoEnqueue.statement e c.clock q) query_error t row (λ z h. cc) done in
    let (new, p, h₁) = >>=-eq_ok (DaoEnqueue.propose e c.clock q) _ h in
    let (payload, n, it, pass, again) = propose-eq_ok e c.clock q new p in
    elim (resolve-rows new t _ a _ h₁) [
      | inl kept ↦ kept
      | inr fresh ↦
          let it_is : a ≡ row = cc in
          let own : row.id ≡ id =
            ap (λ (z : Job). z.id) (sym it_is ∙ fresh ∙ it)
            ∙ new_row-id c.clock q payload n
            ∙ named in
          let created = conclude-created id fingerprint row own in cc
    ]

module _ (e : Engine) (sha256 : Bytes → Bytes) (c : Call) (t : Table) (kept : c.lost ≡ none) where
  enqueue_minted-IsAtomic :
      (minted : Result ℕ) (r : Enqueue.JobEnqueueRequest)
      → IsAtomic t (Enqueue.enqueue_minted (Enqueue.service_job_enqueue e) sha256 minted c r t)
  enqueue_minted-IsAtomic (err x) r y h = refl
  enqueue_minted-IsAtomic (ok id) r y h =
      let q = Enqueue.to_dao sha256 id r in
      elim (Result-cases (DaoEnqueue.exec e c q t).0) [
        | inl (x, lost) ↦ enqueue-IsAtomic c t kept e q x lost
        | inr (row, done) ↦
            conflict-clean e c q id (Enqueue.fingerprint_of sha256 r.payload) t row y
              (to_dao-id sha256 id r) done (rw done at h)
      ]

  pub enqueue_exec-IsAtomic :
      (v : Validator) (minted : Result ℕ) (r : Enqueue.JobEnqueueRequest)
      → IsAtomic t (Enqueue.exec v sha256 e minted c r t)
  unfolding Enqueue.exec
  enqueue_exec-IsAtomic v minted r = elim (Bool-cases (Enqueue.is_valid v r)) [
    | inr invalid ↦ rw invalid (λ x h. refl)
    | inl valid ↦ rw valid (enqueue_minted-IsAtomic minted r)
  ]
