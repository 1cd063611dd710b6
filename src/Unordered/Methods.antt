-- ===== src/Unordered/Methods.antt =====
-- The Exec methods of internal/dao on two tables of the same rows.
use service_jobs.Prelude.{◌≡◌, ap, List}
use service_jobs.Prelude.Int.{ℤ}
use service_jobs.Errors.{GoError, Result, ok, err, wrap, Sentinel, map_ok}
use service_jobs.Dao.Job.{Job}
use service_jobs.Dao.Table.{Table, Engine}
use service_jobs.Dao.Exec.{Call, Statement, run_query, one_row, query_error, join_no_rows}
use service_jobs.Dao.Enqueue as Enqueue
use service_jobs.Dao.Claim as Claim
use service_jobs.Dao.Claim.{is_claimable}
use service_jobs.Dao.Settle as Settle
use service_jobs.Dao.Requeue as Requeue
use service_jobs.Dao.Reap as Reap
use service_jobs.Dao.Get as Get
use service_jobs.Dao.GetById as GetById
use service_jobs.Dao.QueueDepth as Depth
use service_jobs.Dao.QueueDepth.{to_depth}
use service_jobs.Invariant.{IsWellFormed, Apart}
use service_jobs.Unordered.{SameRows, Alike, AlikeRuns}
use service_jobs.Unordered.Exec.{AlikeAnswers, run_query-Alike}
use service_jobs.Unordered.Rows.{SameFirst, same_time}
use service_jobs.Unordered.Statements.{
  enqueue-Alike, settle-Alike, requeue-Alike, get-Alike, get_by_id-Alike, reap-Alike, claim-Alike,
  depth-Alike,
}
use service_jobs.Prelude.{filter}

-- Two runs with one result.
abbrev pub SameRuns : {A : Type 0} → Result A × Table → Result A × Table → Type 0
SameRuns p q = (p.0 ≡ q.0) × SameRows p.1 q.1

Alike-eq : {A : Type 0} (r r' : Result A) → Alike (λ a b. a ≡ b) r r' → r ≡ r'
Alike-eq (ok a) (ok b) h = ap ok h
Alike-eq (ok a) (err y) h = absurd h
Alike-eq (err x) (ok b) h = absurd h
Alike-eq (err x) (err y) h = ap err h

Alike-of_eq : {A : Type 0} (r r' : Result A) → r ≡ r' → Alike (λ a b. a ≡ b) r r'
Alike-of_eq (ok a) (ok b) e = cc
Alike-of_eq (ok a) (err y) e = cc
Alike-of_eq (err x) (ok b) e = cc
Alike-of_eq (err x) (err y) e = cc

query_error-Alike :
    {A : Type 0} (R : A → A → Type 0) (r r' : Result A)
    → Alike R r r'
    → Alike R (query_error r) (query_error r')
query_error-Alike R (ok a) (ok b) h = h
query_error-Alike R (ok a) (err y) h = absurd h
query_error-Alike R (err x) (ok b) h = absurd h
query_error-Alike R (err x) (err y) h = ap (wrap "execute query") h

-- The one row of a method, or its sentinel.
conclude_one-Alike :
    (s : Sentinel) (r r' : Result (List Job))
    → Alike SameFirst r r'
    → Alike
        (λ a b. a ≡ b)
        (query_error (join_no_rows s (one_row r)))
        (query_error (join_no_rows s (one_row r')))
conclude_one-Alike s (ok a) (ok b) h = Alike-of_eq _ _ (ap (λ r. query_error (join_no_rows s r)) h)
conclude_one-Alike s (ok a) (err y) h = absurd h
conclude_one-Alike s (err x) (ok b) h = absurd h
conclude_one-Alike s (err x) (err y) h =
    Alike-of_eq _ _ (ap (λ (z : GoError). query_error {A = Job} (join_no_rows s (err z))) h)

-- A method whose result does not depend on the order.
same-runs :
    {A B : Type 0} (R : A → A → Type 0) (c : Call) (query : Statement A)
    (conclude : Result A → Result B) (t t' : Table)
    → SameRows t t'
    → AlikeAnswers R (query t) (query t')
    → ((r r' : Result A) → Alike R r r' → Alike (λ a b. a ≡ b) (conclude r) (conclude r'))
    → SameRuns (run_query c query conclude t) (run_query c query conclude t')
same-runs R c query conclude t t' d h respects =
    let (result, rows) = run_query-Alike R (λ a b. a ≡ b) c query conclude t t' d h respects in
    (Alike-eq _ _ result, rows)

module _ (c : Call) (t t' : Table) (d : SameRows t t') where
  module _ (w : IsWellFormed t) where
    pub enqueue-runs :
        (e : Engine) (r : Enqueue.JobEnqueueRequest)
        → SameRuns (Enqueue.exec e c r t) (Enqueue.exec e c r t')
    unfolding Enqueue.exec
    enqueue-runs e r =
        same-runs (λ a b. a ≡ b) c (Enqueue.statement e c.clock r) query_error t t' d
          (enqueue-Alike t t' d w e c.clock r) (query_error-Alike (λ a b. a ≡ b))

    pub settle-runs :
        (e : Engine) (r : Settle.JobSettleRequest)
        → SameRuns (Settle.exec e c r t) (Settle.exec e c r t')
    unfolding Settle.exec
    settle-runs e r =
        same-runs SameFirst c (Settle.statement e c.clock r) Settle.conclude t t' d
          (settle-Alike t t' d w e c.clock r) (conclude_one-Alike _)

    pub requeue-runs :
        (r : Requeue.JobRequeueRequest) → SameRuns (Requeue.exec c r t) (Requeue.exec c r t')
    unfolding Requeue.exec
    requeue-runs r =
        same-runs SameFirst c (Requeue.statement c.clock r) Requeue.conclude t t' d
          (requeue-Alike t t' d w c.clock r) (conclude_one-Alike _)

    pub get-runs : (r : Get.JobGetRequest) → SameRuns (Get.exec c r t) (Get.exec c r t')
    unfolding Get.exec
    get-runs r =
        same-runs SameFirst c (Get.statement r) Get.conclude t t' d (get-Alike t t' d w r)
          (conclude_one-Alike _)

    pub get_by_id-runs :
        (r : GetById.JobGetByIdRequest) → SameRuns (GetById.exec c r t) (GetById.exec c r t')
    unfolding GetById.exec
    get_by_id-runs r =
        same-runs SameFirst c (GetById.statement r) GetById.conclude t t' d
          (get_by_id-Alike t t' d w r) (conclude_one-Alike _)

  pub reap-runs :
      (e : Engine) (r : Reap.JobReapRequest)
      → AlikeRuns SameRows (Reap.exec e c r t) (Reap.exec e c r t')
  unfolding Reap.exec
  reap-runs e r =
      run_query-Alike SameRows SameRows c (Reap.statement e c.clock c.locked r) query_error t t' d
        (reap-Alike t t' d e c.clock c.locked r) (query_error-Alike SameRows)

  pub claim-runs :
      (r : Claim.JobClaimRequest)
      → Apart same_time (filter (is_claimable c.clock c.locked r.kinds) t)
      → AlikeRuns SameRows (Claim.exec c r t) (Claim.exec c r t')
  unfolding Claim.exec
  claim-runs r apart =
      run_query-Alike SameRows SameRows c (Claim.statement c.clock c.locked r r.limit) query_error t
        t' d (claim-Alike t t' d c.clock c.locked r r.limit apart) (query_error-Alike SameRows)

  pub depth-runs :
      (duration : ℤ → ℤ) → SameRuns (Depth.exec duration c t) (Depth.exec duration c t')
  unfolding Depth.exec
  depth-runs duration =
      same-runs (λ a b. a ≡ b) c (Depth.statement c.clock)
        (λ row. map_ok (to_depth duration) (query_error row)) t t' d (depth-Alike t t' d c.clock)
        (λ r r' h.
          Alike-of_eq _ _
            (ap (λ row. map_ok (to_depth duration) (query_error row)) (Alike-eq r r' h)))
