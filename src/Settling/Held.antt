-- ===== src/Settling/Held.antt =====
-- A worker that holds the job: what its report makes of it.
use service_jobs.Prelude.{
  true, ◌&&◌, ltb→lt, ◌<◌, ◌≡◌, refl, [], ◌∷◌, Option, none, some, Memᴰ, Bool-cases, inl, inr,
  if◌then◌else◌, arith, ltb,
}
use service_jobs.Prelude.Int.{ℤ}
use service_jobs.Errors.{ok}
use service_jobs.Dao.Job.{Job, JobStatus, RawMessage, succeeded, failed}
use service_jobs.Dao.Table.{Table, Engine, to_jsonb, written}
use service_jobs.Dao.Settle as DaoSettle
use service_jobs.Dao.Settle.{holds, settle_row}
use service_jobs.Dao.Requeue as DaoRequeue
use service_jobs.Dao.Requeue.{requeue_row}
use service_jobs.Dao.GetById as GetById
use service_jobs.Core.Validate.{Validator}
use service_jobs.Core.Job.{job_to_core}
use service_jobs.Core.Settle.{
  service_job_settle, JobSettleRequest, JobFailure, Session, to_settle, settle, give_back, is_mine,
  decide, retry, dispatch, exec, is_valid,
}
use service_jobs.Invariant.{IsWellFormed}
use service_jobs.Invariant.Exec.{run_query-healthy}
use service_jobs.Invariant.Rows.{IsOutcome, settle_row-IsSound, requeue_row-IsSound}
use service_jobs.Invariant.Statements.{holds-claimed}
use service_jobs.Invariant.Chosen.{same_id-eq}
use service_jobs.Invariant.Retry.{failed-IsOutcome, succeeded-IsOutcome}
use service_jobs.Invariant.Written.{mem-written_new, filter-id}
use service_jobs.Settling.{IsHealthySession, update-held}

-- The row that a reported outcome makes of a job, the stored JSON given.
abbrev pub outcome_row :
    ℤ → Session → JobSettleRequest → Option JobFailure → RawMessage → RawMessage → Job → Job
outcome_row retention s r none result error j =
    settle_row s.write.clock (to_settle retention r succeeded r.result none) result none j
outcome_row retention s r (some f) result error j =
    if f.retryable && ltb j.attempt j.max_attempts
    then requeue_row s.write.clock j
    else settle_row s.write.clock (to_settle retention r failed none f.error) none error j

module _ (e : Engine) (retention : ℤ) (r : JobSettleRequest) (j : Job) (t : Table)
    (w : IsWellFormed t) (m : Memᴰ j t) (mine : holds r.id r.worker_id j ≡ true) where
  dao_settle-held :
      (s : Session) (status : JobStatus) (result error : RawMessage) (result' error' : RawMessage)
      → IsHealthySession s
      → IsOutcome status result' error'
      → to_jsonb e result ≡ ok result'
      → to_jsonb e error ≡ ok error'
      → let row =
          settle_row s.write.clock (to_settle retention r status result error) result' error' in
        DaoSettle.exec e s.write (to_settle retention r status result error) t
        ≡ (ok (row j), written (holds r.id r.worker_id) row t)
  unfolding DaoSettle.exec DaoSettle.statement to_settle
  dao_settle-held s status result error result' error' h o p q =
      let request = to_settle retention r status result error in
      let row = settle_row s.write.clock request result' error' in
      run_query-healthy s.write (DaoSettle.statement e s.write.clock request) DaoSettle.conclude t
        (row j ∷ []) (written (holds r.id r.worker_id) row t) h.writes
        (rw p (
          rw q (
            update-held r.id r.worker_id t j w m mine row (λ x _ k sound.
              settle_row-IsSound s.write.clock request result' error' x o
                (holds-claimed r.id r.worker_id x k) sound))))

  settle-held :
      (s : Session) (status : JobStatus) (result error : RawMessage) (result' error' : RawMessage)
      → IsHealthySession s
      → IsOutcome status result' error'
      → to_jsonb e result ≡ ok result'
      → to_jsonb e error ≡ ok error'
      → let row =
          settle_row s.write.clock (to_settle retention r status result error) result' error' j in
        ((settle (service_job_settle e retention) s.write r status result error t).0
          ≡ ok (job_to_core row))
        × Memᴰ row (settle (service_job_settle e retention) s.write r status result error t).1
  unfolding settle
  settle-held s status result error result' error' h o p q =
      rw (dao_settle-held s status result error result' error' h o p q)
        (refl, mem-written_new (holds r.id r.worker_id) _ t m mine)

  dao_requeue-held :
      (s : Session)
      → IsHealthySession s
      → j.attempt < j.max_attempts
      → DaoRequeue.exec s.write (record { id = r.id; worker_id = r.worker_id }) t ≡ (
        ok (requeue_row s.write.clock j),
        written (holds r.id r.worker_id) (requeue_row s.write.clock) t,
      )
  unfolding DaoRequeue.exec DaoRequeue.statement
  dao_requeue-held s h left =
      let row = requeue_row s.write.clock in
      run_query-healthy s.write
        (DaoRequeue.statement s.write.clock (record { id = r.id; worker_id = r.worker_id }))
        DaoRequeue.conclude t (row j ∷ []) (written (holds r.id r.worker_id) row t) h.writes
        (update-held r.id r.worker_id t j w m mine row (λ x mx k sound.
          requeue_row-IsSound s.write.clock x (holds-claimed r.id r.worker_id x k)
            (rw (same_id-eq t j x w.ids_differ m mx (ground arith)) left) sound))

  pub read-held :
      (s : Session) → IsHealthySession s → GetById.exec s.read (record { id = r.id }) t ≡ (ok j, t)
  unfolding GetById.exec GetById.statement
  read-held s h =
      run_query-healthy s.read (GetById.statement (record { id = r.id })) GetById.conclude t
        (j ∷ []) t h.reads (rw (filter-id r.id t j w.ids_differ m (ground arith)))

  retry-held :
      (s : Session) (error error' : RawMessage)
      → IsHealthySession s
      → s.between t ≡ t
      → to_jsonb e error ≡ ok error'
      → let row =
          if ltb j.attempt j.max_attempts
          then requeue_row s.write.clock j
          else settle_row s.write.clock (to_settle retention r failed none error) none error' j in
        ((retry (service_job_settle e retention) s r error t).0 ≡ ok (job_to_core row))
        × Memᴰ row (retry (service_job_settle e retention) s r error t).1
  unfolding retry decide give_back
  retry-held s error error' h alone q =
      let own : is_mine r j ≡ true = ground arith in
      elim (Bool-cases (ltb j.attempt j.max_attempts)) [
        | inl left ↦
            let done = dao_requeue-held s h (ltb→lt j.attempt j.max_attempts left) in
            rw (h.begins, retry)
              (rw (read-held s h, alone, own, left, done, h.commits, h.confirms)
                (refl, mem-written_new (holds r.id r.worker_id) _ t m mine))
        | inr spent ↦
            let done =
              dao_settle-held s failed none error none error' h (failed-IsOutcome error') refl q in
            rw (h.begins, retry)
              (rw (read-held s h, alone, own, spent, done, h.commits, h.confirms)
                (refl, mem-written_new (holds r.id r.worker_id) _ t m mine))
      ]

-- `between` matters to a retryable failure only.
abbrev pub RunsAlone : Session → Option JobFailure → Table → Type 0
RunsAlone s none t = Unit {0}
RunsAlone s (some f) t = s.between t ≡ t

abbrev pub reported_error : Option JobFailure → RawMessage
reported_error none = none
reported_error (some f) = f.error

dispatch-held :
    (e : Engine) (retention : ℤ) (s : Session) (r : JobSettleRequest) (failure : Option JobFailure)
    (t : Table) (j : Job) (result error : RawMessage)
    → IsWellFormed t
    → IsHealthySession s
    → RunsAlone s failure t
    → to_jsonb e r.result ≡ ok result
    → to_jsonb e (reported_error failure) ≡ ok error
    → Memᴰ j t
    → holds r.id r.worker_id j ≡ true
    → let row = outcome_row retention s r failure result error j in
      ((dispatch (service_job_settle e retention) s r failure t).0 ≡ ok (job_to_core row))
      × Memᴰ row (dispatch (service_job_settle e retention) s r failure t).1
unfolding dispatch
dispatch-held e retention s r none t j result error w h alone p q m mine =
    settle-held e retention r j t w m mine s succeeded r.result none result none h
      (succeeded-IsOutcome result) p refl
dispatch-held e retention s r (some f) t j result error w h alone p q m mine =
    elim (Bool-cases f.retryable) [
      | inl again ↦ rw again (retry-held e retention r j t w m mine s f.error error h alone q)
      | inr final ↦ rw final (
          settle-held e retention r j t w m mine s failed none f.error none error h
            (failed-IsOutcome error) refl q)
    ]

pub settle_decides :
    (v : Validator) (e : Engine) (retention : ℤ) (s : Session) (r : JobSettleRequest) (t : Table)
    (j : Job) (result error : RawMessage)
    → is_valid v r ≡ true
    → IsWellFormed t
    → IsHealthySession s
    → RunsAlone s r.failure t
    → to_jsonb e r.result ≡ ok result
    → to_jsonb e (reported_error r.failure) ≡ ok error
    → Memᴰ j t
    → holds r.id r.worker_id j ≡ true
    → let row = outcome_row retention s r r.failure result error j in
      ((exec v e retention s r t).0 ≡ ok (job_to_core row)) × Memᴰ row (exec v e retention s r t).1
unfolding exec
settle_decides v e retention s r t j result error valid w h alone p q m mine =
    rw valid (dispatch-held e retention s r r.failure t j result error w h alone p q m mine)
