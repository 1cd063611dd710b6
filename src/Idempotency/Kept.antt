-- ===== src/Idempotency/Kept.antt =====
-- What a submission wrote of its job, through the steps of the running service (cmd/grpc/main.go).
use service_jobs.Prelude.{ℕ, Bool, ◌≡◌, refl, ◌∙◌, List, Option, String, Memᴰ, Bool-cases, inl, inr}
use service_jobs.Prelude.Int.{ℤ, pos, negsuc}
use service_jobs.Errors.{ok, >>=-eq_ok}
use service_jobs.Dao.Job.{Job, Bytes, RawMessage}
use service_jobs.Dao.Table.{Table, Readings, Engine, to_jsonb, update_where}
use service_jobs.Dao.Exec.{Call, query_error}
use service_jobs.Dao.Claim as DaoClaim
use service_jobs.Dao.Claim.{claim_row}
use service_jobs.Dao.Settle as DaoSettle
use service_jobs.Dao.Settle.{settle_row}
use service_jobs.Dao.Requeue as DaoRequeue
use service_jobs.Dao.Requeue.{requeue_row}
use service_jobs.Dao.Reap as DaoReap
use service_jobs.Dao.Reap.{reap_row}
use service_jobs.Core.Validate.{Validator}
use service_jobs.Core.Claim as Claim
use service_jobs.Core.Settle as Settle
use service_jobs.Core.Settle.{Session, JobSettleRequest}
use service_jobs.Core.Reap as Reap
use service_jobs.Invariant.Exec.{run_query-keeps}
use service_jobs.Invariant.Update.{update_where-eq_ok}
use service_jobs.Invariant.Written.{mem-written_kept, mem-written_new}
use service_jobs.Settling.Rule.{settle_rule}

-- The columns that a submission writes once.
pub record Submission : Type 0 where
  pub id : ℕ
  pub kind : String
  pub payload : Bytes
  pub owner_id : ℕ
  pub idempotency_key : Option String
  pub request_fingerprint : Bytes
  pub max_attempts : ℕ
  pub created_at : ℕ

abbrev pub submission_of : Job → Submission
submission_of j = record {
  id = j.id;
  kind = j.kind;
  payload = j.payload;
  owner_id = j.owner_id;
  idempotency_key = j.idempotency_key;
  request_fingerprint = j.request_fingerprint;
  max_attempts = j.max_attempts;
  created_at = j.created_at;
}

-- Two states of one job.
abbrev pub SameJob : Job → Job → Type 0
SameJob j k = submission_of k ≡ submission_of j

-- The job is in the table, in one state or another.
abbrev pub Recorded : Job → Table → Type 0
Recorded j t = (k : Job) × Memᴰ k t × SameJob j k

-- A SET that leaves what the submission wrote.
abbrev KeepsSubmission : (Job → Job) → Type 0
KeepsSubmission f = (j : Job) → SameJob j (f j)

claim_row-KeepsSubmission :
    (clock : Readings) (worker : String) (lease : ℤ)
    → KeepsSubmission (claim_row clock worker lease)
unfolding claim_row
claim_row-KeepsSubmission clock worker lease j = refl

settle_row-KeepsSubmission :
    (clock : Readings) (r : DaoSettle.JobSettleRequest) (result error : RawMessage)
    → KeepsSubmission (settle_row clock r result error)
unfolding settle_row
settle_row-KeepsSubmission clock r result error j = refl

requeue_row-KeepsSubmission : (clock : Readings) → KeepsSubmission (requeue_row clock)
unfolding requeue_row
requeue_row-KeepsSubmission clock j = refl

reap_row-KeepsSubmission :
    (clock : Readings) (error : RawMessage) (retention : ℤ)
    → KeepsSubmission (reap_row clock error retention)
unfolding reap_row
reap_row-KeepsSubmission clock error retention j = refl

-- An update whose SET leaves what the submission wrote, whichever rows it selects.
update-Recorded :
    (p : Job → Bool) (f : Job → Job) (t : Table) (j : Job)
    → KeepsSubmission f
    → Recorded j t
    → (rows : List Job) (u : Table) → update_where p f t ≡ ok (rows, u)
    → Recorded j u
update-Recorded p f t j keeps (k, m, same) rows u e = elim (Bool-cases (p k)) [
  | inl hit ↦ (f k, rw (update_where-eq_ok p f t e).1 (mem-written_new p f t m hit), keeps k ∙ same)
  | inr miss ↦ (k, rw (update_where-eq_ok p f t e).1 (mem-written_kept p f t m miss), same)
]

module _ (t : Table) (j : Job) (there : Recorded j t) where
  claim-Recorded :
      (clock : Readings) (locked : ℕ → Bool) (r : DaoClaim.JobClaimRequest) (limit : ℤ)
      (rows : List Job) (u : Table)
      → DaoClaim.statement clock locked r limit t ≡ ok (rows, u)
      → Recorded j u
  unfolding DaoClaim.claim_up_to
  claim-Recorded clock locked r (pos n) rows u h =
      update-Recorded _ _ t j (claim_row-KeepsSubmission clock r.worker_id r.lease_seconds) there
        rows u h
  claim-Recorded clock locked r (negsuc n) rows u h = cc

  reap-Recorded :
      (e : Engine) (clock : Readings) (locked : ℕ → Bool) (r : DaoReap.JobReapRequest)
      (rows : List Job) (u : Table)
      → DaoReap.statement e clock locked r t ≡ ok (rows, u)
      → Recorded j u
  unfolding DaoReap.statement
  reap-Recorded e clock locked r rows u h =
      let (error, _, h₁) = >>=-eq_ok (to_jsonb e r.error) _ h in
      update-Recorded _ _ t j (reap_row-KeepsSubmission clock error r.retention_days) there rows u
        h₁

  settle-Recorded :
      (e : Engine) (clock : Readings) (r : DaoSettle.JobSettleRequest) (rows : List Job) (u : Table)
      → DaoSettle.statement e clock r t ≡ ok (rows, u)
      → Recorded j u
  unfolding DaoSettle.statement
  settle-Recorded e clock r rows u h =
      let (result, _, h₁) = >>=-eq_ok (to_jsonb e r.result) _ h in
      let (error, _, h₂) = >>=-eq_ok (to_jsonb e r.error) _ h₁ in
      update-Recorded _ _ t j (settle_row-KeepsSubmission clock r result error) there rows u h₂

  requeue-Recorded :
      (clock : Readings) (r : DaoRequeue.JobRequeueRequest) (rows : List Job) (u : Table)
      → DaoRequeue.statement clock r t ≡ ok (rows, u)
      → Recorded j u
  unfolding DaoRequeue.statement
  requeue-Recorded clock r rows u h =
      update-Recorded _ _ t j (requeue_row-KeepsSubmission clock) there rows u h

module _ (t : Table) (j : Job) (there : Recorded j t) where
  pub claim_exec-Recorded :
      (v : Validator) (c : Call) (r : Claim.JobClaimRequest) → Recorded j (Claim.exec v c r t).1
  unfolding Claim.exec DaoClaim.exec Claim.to_dao
  claim_exec-Recorded v c r = elim (Bool-cases (Claim.is_valid v r)) [
    | inl valid ↦
        let q = Claim.to_dao r in
        rw valid (
          run_query-keeps (Recorded j) c (DaoClaim.statement c.clock c.locked q q.limit) query_error
            t there (claim-Recorded t j there c.clock c.locked q q.limit))
    | inr invalid ↦ rw invalid there
  ]

  pub reap_exec-Recorded :
      (e : Engine) (retention : ℤ) (c : Call) → Recorded j (Reap.exec e retention c t).1
  unfolding Reap.exec DaoReap.exec
  reap_exec-Recorded e retention c =
      let q : DaoReap.JobReapRequest = record {
        error = Reap.job_reap_error;
        retention_days = retention;
      } in
      run_query-keeps (Recorded j) c (DaoReap.statement e c.clock c.locked q) query_error t there
        (reap-Recorded t j there e c.clock c.locked q)

  pub settle_exec-Recorded :
      (v : Validator) (e : Engine) (retention : ℤ) (s : Session) (r : JobSettleRequest)
      → Recorded j (s.between t)
      → Recorded j (Settle.exec v e retention s r t).1
  unfolding Settle.to_settle
  settle_exec-Recorded v e retention s r between =
      settle_rule (Recorded j) e retention s r t v there between
        (λ status result error how. settle-Recorded t j there e s.write.clock _)
        (λ status result error how. settle-Recorded (s.between t) j between e s.write.clock _)
        (λ k mk mine left. requeue-Recorded (s.between t) j between s.write.clock _)
