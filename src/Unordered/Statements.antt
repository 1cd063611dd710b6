-- ===== src/Unordered/Statements.antt =====
-- The statements of internal/dao on two tables of the same rows.
use mathlib.Core.Path.{ap₂}
use mathlib.Core.List.Permᴰ
use service_jobs.Prelude.{
  ℕ, ◌==◌, Bool, ◌≡◌, refl, sym, ap, ◌∙◌, inl, inr, Option, none, some, String, List, [], ◌∷◌,
  filter, find?, take, Option-cases, any, leb, if◌then◌else◌, Bool-cases, arith,
}
use service_jobs.Prelude.Int.{ℤ, pos, negsuc}
use service_jobs.Errors.{Result-cases}
use service_jobs.Dao.Job.{Job}
use service_jobs.Dao.Table.{Table, Readings, Engine, to_jsonb}
use service_jobs.Dao.Enqueue as Enqueue
use service_jobs.Dao.Enqueue.{conflicts, same_key, resolve, insert, propose}
use service_jobs.Dao.Claim as Claim
use service_jobs.Dao.Claim.{claimable, is_claimable, claim_row}
use service_jobs.Dao.Settle as Settle
use service_jobs.Dao.Settle.{holds, settle_row}
use service_jobs.Dao.Requeue as Requeue
use service_jobs.Dao.Requeue.{requeue_row}
use service_jobs.Dao.Reap as Reap
use service_jobs.Dao.Reap.{reapable, is_reapable, reap_row}
use service_jobs.Dao.Get as Get
use service_jobs.Dao.Get.{owns}
use service_jobs.Dao.GetById as GetById
use service_jobs.Dao.QueueDepth as Depth
use service_jobs.Dao.QueueDepth.{min_run_at, age_at, is_due}
use service_jobs.Invariant.{IsWellFormed, Apart}
use service_jobs.Unordered.{SameRows}
use service_jobs.Unordered.Exec.{AlikeAnswers}
use service_jobs.Unordered.Lists.{fold-Perm, filter-Perm, find?-Perm, any-Perm, length-Perm}
use service_jobs.Unordered.Unique.{IsUnique-id, IsUnique-conflicts}
use service_jobs.Unordered.Rows.{
  SameFirst-selected, IsUnique, SameFirst, update_one-Alike, update_chosen-Alike, same_time,
  sort-Perm,
}

-- `min(run_at)` takes in one row after the other.
abbrev min_step : Job → Option ℕ → Option ℕ
min_step j none = some j.run_at
min_step j (some m) = some (if leb j.run_at m then j.run_at else m)

min_run_at-cons : (j : Job) (js : List Job) → min_run_at (j ∷ js) ≡ min_step j (min_run_at js)
min_run_at-cons j js = elim (Option-cases (min_run_at js)) [
  | inl nowhere ↦ rw nowhere refl
  | inr (m, there) ↦ rw there refl
]

min_step-swap : (x y : Job) (o : Option ℕ) → min_step x (min_step y o) ≡ min_step y (min_step x o)
min_step-swap x y none = ground arith
min_step-swap x y (some m) = ground arith

min_run_at-Perm : {xs ys : List Job} → SameRows xs ys → min_run_at xs ≡ min_run_at ys
min_run_at-Perm = fold-Perm min_run_at min_step min_run_at-cons min_step-swap

module _ (t t' : Table) (d : SameRows t t') where
  resolve-Alike :
      (j : Job) (found : Option Job)
      → AlikeAnswers (λ a b. a ≡ b) (resolve j t found) (resolve j t' found)
  resolve-Alike j (some old) = (refl, d)
  resolve-Alike j none =
      let same = any-Perm (λ (x : Job). x.id == j.id) d in
      elim (Bool-cases (any (λ (x : Job). x.id == j.id) t)) [
        | inl clash ↦ rw (clash, sym same ∙ clash) refl
        | inr free ↦ rw (free, sym same ∙ free) (refl, Permᴰ.append_right (j ∷ []) d)
      ]

  module _ (w : IsWellFormed t) where
    insert-Alike : (j : Job) → AlikeAnswers (λ a b. a ≡ b) (insert j t) (insert j t')
    insert-Alike j =
        let p = conflicts j.owner_id j.kind j.idempotency_key in
        let same =
          find?-Perm p (IsUnique-conflicts j.owner_id j.kind j.idempotency_key t w.keys_differ) d in
        rw (← same) (resolve-Alike j (find? p t))

    pub enqueue-Alike :
        (e : Engine) (clock : Readings) (r : Enqueue.JobEnqueueRequest)
        → AlikeAnswers
            (λ a b. a ≡ b)
            (Enqueue.statement e clock r t)
            (Enqueue.statement e clock r t')
    unfolding Enqueue.statement
    enqueue-Alike e clock r = elim (Result-cases (propose e clock r)) [
      | inl (x, bad) ↦ rw bad refl
      | inr (j, good) ↦ rw good (insert-Alike j)
    ]

    holds-IsUnique : (id : ℕ) (worker : String) → IsUnique (holds id worker) t
    holds-IsUnique id worker =
        IsUnique-id id (holds id worker) t (λ j h. ground (arith, h)) w.ids_differ

    pub settle-Alike :
        (e : Engine) (clock : Readings) (r : Settle.JobSettleRequest)
        → AlikeAnswers SameFirst (Settle.statement e clock r t) (Settle.statement e clock r t')
    unfolding Settle.statement
    settle-Alike e clock r = elim (Result-cases (to_jsonb e r.result)) [
      | inl (x, bad) ↦ rw bad refl
      | inr (result, good) ↦ elim (Result-cases (to_jsonb e r.error)) [
        | inl (x, bad) ↦ rw (good, bad) refl
        | inr (error, good') ↦
            rw (good, good')
              (update_one-Alike (holds r.id r.worker_id) (settle_row clock r result error) t t'
                (holds-IsUnique r.id r.worker_id) d)
      ]
    ]

    pub requeue-Alike :
        (clock : Readings) (r : Requeue.JobRequeueRequest)
        → AlikeAnswers SameFirst (Requeue.statement clock r t) (Requeue.statement clock r t')
    unfolding Requeue.statement
    requeue-Alike clock r =
        update_one-Alike (holds r.id r.worker_id) (requeue_row clock) t t'
          (holds-IsUnique r.id r.worker_id) d

    pub get-Alike :
        (r : Get.JobGetRequest) → AlikeAnswers SameFirst (Get.statement r t) (Get.statement r t')
    unfolding Get.statement
    get-Alike r = (
      SameFirst-selected (owns r) t t'
          (IsUnique-id r.id (owns r) t (λ j h. ground (arith, h)) w.ids_differ) d,
      d,
    )

    pub get_by_id-Alike :
        (r : GetById.JobGetByIdRequest)
        → AlikeAnswers SameFirst (GetById.statement r t) (GetById.statement r t')
    unfolding GetById.statement
    get_by_id-Alike r = (
      SameFirst-selected (λ j. j.id == r.id) t t'
          (IsUnique-id r.id (λ j. j.id == r.id) t (λ j h. ground (arith, h)) w.ids_differ) d,
      d,
    )

  pub reap-Alike :
      (e : Engine) (clock : Readings) (locked : ℕ → Bool) (r : Reap.JobReapRequest)
      → AlikeAnswers SameRows
          (Reap.statement e clock locked r t)
          (Reap.statement e clock locked r t')
  unfolding Reap.statement reapable
  reap-Alike e clock locked r = elim (Result-cases (to_jsonb e r.error)) [
    | inl (x, bad) ↦ rw bad refl
    | inr (error, good) ↦ rw good (
        update_chosen-Alike (reapable clock locked t) (reapable clock locked t')
          (reap_row clock error r.retention_days) t t' (filter-Perm (is_reapable clock locked) d) d)
  ]

  -- With no two claimable jobs due at one time, the limit cuts the same rows.
  pub claim-Alike :
      (clock : Readings) (locked : ℕ → Bool) (r : Claim.JobClaimRequest) (limit : ℤ)
      → Apart same_time (filter (is_claimable clock locked r.kinds) t)
      → AlikeAnswers SameRows
          (Claim.statement clock locked r limit t)
          (Claim.statement clock locked r limit t')
  unfolding Claim.claim_up_to claimable
  claim-Alike clock locked r (negsuc n) apart = refl
  claim-Alike clock locked r (pos n) apart =
      let same : claimable clock locked r.kinds n t ≡ claimable clock locked r.kinds n t' =
        ap (take n) (sort-Perm (filter-Perm (is_claimable clock locked r.kinds) d) apart) in
      update_chosen-Alike (claimable clock locked r.kinds n t) (claimable clock locked r.kinds n t')
        (claim_row clock r.worker_id r.lease_seconds) t t' (rw (← same) (Permᴰ.refl _)) d

  pub depth-Alike :
      (clock : Readings)
      → AlikeAnswers (λ a b. a ≡ b) (Depth.statement clock t) (Depth.statement clock t')
  unfolding Depth.statement
  depth-Alike clock =
      let due = filter-Perm (is_due clock) d in
      (ap₂ (λ n m. (n, age_at (clock 0 1) m)) (length-Perm due) (min_run_at-Perm due), d)
