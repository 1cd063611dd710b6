-- ===== src/Atomic.antt =====
-- What an error of a statement of internal/dao leaves of the table.
pub mod Services
use service_jobs.Prelude.{
  ◌≡◌, refl, sym, ap, ◌∙◌, Option-cases, Option, none, some, inl, inr, List, [], ◌∷◌, map, filter,
  Bool, Bool-cases, true, false,
}
use service_jobs.Errors.{
  GoError, Result, ok, err, Result-cases, Sentinel, job_settle_not_claimed, job_requeue_not_claimed,
  >>=-eq_ok,
}
use service_jobs.Dao.Job.{Job}
use service_jobs.Dao.Table.{Table, Engine, Readings, written, update_where, to_jsonb}
use service_jobs.Dao.Exec.{
  Call, Statement, scan, answer, run_query, one_row, join_no_rows, query_error,
}
use service_jobs.Dao.Enqueue as Enqueue
use service_jobs.Dao.Claim as Claim
use service_jobs.Dao.Settle as Settle
use service_jobs.Dao.Settle.{holds}
use service_jobs.Dao.Requeue as Requeue
use service_jobs.Dao.Reap as Reap
use service_jobs.Invariant.Exec.{run_query-eq_ok}
use service_jobs.Invariant.Update.{update_where-eq_ok}

-- An operation that fails leaves the table that it had.
abbrev pub IsAtomic : {A : Type 0} → Table → Result A × Table → Type 0
IsAtomic t r = (e : GoError) → r.0 ≡ err e → r.1 ≡ t

-- A statement whose rows the method takes for an error has written nothing.
abbrev FailsClean : {A B : Type 0} → Statement A → (Result A → Result B) → Table → Type 0
FailsClean {A} query conclude t =
    (a : A) (u : Table) (e : GoError) → query t ≡ ok (a, u) → conclude (ok a) ≡ err e → u ≡ t

answer-IsAtomic :
    {A B : Type 0} (conclude : Result A → Result B) (t : Table) (r : Result (A × Table))
    → ((a : A) (u : Table) (e : GoError) → r ≡ ok (a, u) → conclude (ok a) ≡ err e → u ≡ t)
    → IsAtomic t (conclude (answer none t r).0, (answer none t r).1)
answer-IsAtomic conclude t (err x) clean e h = refl
answer-IsAtomic conclude t (ok (a, u)) clean e h = clean a u e refl h

pub run_query-IsAtomic :
    {A B : Type 0} (c : Call) (query : Statement A) (conclude : Result A → Result B) (t : Table)
    → c.lost ≡ none
    → FailsClean query conclude t
    → IsAtomic t (run_query c query conclude t)
unfolding run_query scan
run_query-IsAtomic c query conclude t kept clean = elim (Option-cases c.no_context) [
  | inr (x, p) ↦ rw (p, run_query) (λ e h. refl)
  | inl p ↦ elim (Option-cases c.refused) [
    | inr (x, q) ↦ rw (p, q, run_query, scan) (λ e h. refl)
    | inl q ↦ rw (p, q, kept, run_query, scan) (answer-IsAtomic conclude t (query t) clean)
  ]
]

none_picked :
    (p : Job → Bool) (f : Job → Job) (t : Table) → map f (filter p t) ≡ [] → written p f t ≡ t
none_picked p f [] h = refl
none_picked p f (x ∷ xs) h = elim (Bool-cases (p x)) [
  | inl hit ↦ let k = rw hit at h in cc
  | inr miss ↦ rw (miss, none_picked p f xs (rw miss at h)) refl
]

-- One row that is not there is the only error that rows give.
no_row :
    (s : Sentinel) (rows : List Job) (e : GoError)
    → query_error (join_no_rows s (one_row (ok rows))) ≡ err e
    → rows ≡ []
no_row s [] e h = refl
no_row s (j ∷ js) e h = cc

no_rows-clean :
    (p : Job → Bool) (f : Job → Job) (t : Table) (rows : List Job) (u : Table)
    → update_where p f t ≡ ok (rows, u)
    → rows ≡ []
    → u ≡ t
no_rows-clean p f t rows u h empty =
    let (new, same) = update_where-eq_ok p f t h in same ∙ none_picked p f t (sym new ∙ empty)

module _ (c : Call) (t : Table) (kept : c.lost ≡ none) where
  pub enqueue-IsAtomic :
      (e : Engine) (r : Enqueue.JobEnqueueRequest) → IsAtomic t (Enqueue.exec e c r t)
  unfolding Enqueue.exec
  enqueue-IsAtomic e r =
      run_query-IsAtomic c (Enqueue.statement e c.clock r) query_error t kept (λ a u x h failed. cc)

  pub claim-IsAtomic : (r : Claim.JobClaimRequest) → IsAtomic t (Claim.exec c r t)
  unfolding Claim.exec
  claim-IsAtomic r =
      run_query-IsAtomic c (Claim.statement c.clock c.locked r r.limit) query_error t kept
        (λ a u x h failed. cc)

  pub settle-IsAtomic :
      (e : Engine) (r : Settle.JobSettleRequest) → IsAtomic t (Settle.exec e c r t)
  unfolding Settle.exec Settle.statement
  settle-IsAtomic e r =
      run_query-IsAtomic c (Settle.statement e c.clock r) Settle.conclude t kept
        (λ rows u x h failed.
          let (result, p, h₁) = >>=-eq_ok (to_jsonb e r.result) _ h in
          let (error, q, h₂) = >>=-eq_ok (to_jsonb e r.error) _ h₁ in
          no_rows-clean (holds r.id r.worker_id) (Settle.settle_row c.clock r result error) t rows u
            h₂ (no_row job_settle_not_claimed rows x failed))

  pub requeue-IsAtomic : (r : Requeue.JobRequeueRequest) → IsAtomic t (Requeue.exec c r t)
  unfolding Requeue.exec Requeue.statement
  requeue-IsAtomic r =
      run_query-IsAtomic c (Requeue.statement c.clock r) Requeue.conclude t kept
        (λ rows u x h failed.
          no_rows-clean (holds r.id r.worker_id) (Requeue.requeue_row c.clock) t rows u h
            (no_row job_requeue_not_claimed rows x failed))

  pub reap-IsAtomic : (e : Engine) (r : Reap.JobReapRequest) → IsAtomic t (Reap.exec e c r t)
  unfolding Reap.exec
  reap-IsAtomic e r =
      run_query-IsAtomic c (Reap.statement e c.clock c.locked r) query_error t kept
        (λ a u x h failed. cc)
