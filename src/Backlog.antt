-- ===== src/Backlog.antt =====
-- The measured backlog (internal/core/jobQueueDepth.go, internal/dao/pg.jobQueueDepth.go and
-- pg.jobQueueDepth.sql).
use service_jobs.Prelude.{
  ◌≡◌, refl, ◌≤◌, ◌⊎◌, inl, inr, Bool-cases, List, [], ◌∷◌, none, some, leb, filter, length, Memᴰ,
  All, All-imp, arith,
}
use service_jobs.Prelude.Int.{ℤ, sub_ℕ}
use service_jobs.Errors.{ok, map_ok}
use service_jobs.Dao.Job.{Job}
use service_jobs.Dao.Table.{Table}
use service_jobs.Dao.Exec.{Call, query_error}
use service_jobs.Dao.QueueDepth as Dao
use service_jobs.Dao.QueueDepth.{min_run_at, is_due, to_depth, age_at}
use service_jobs.Core.Depth.{QueueDepth, queue_depth}
use service_jobs.Invariant.Exec.{IsHealthy, run_query-healthy}

-- A job of a list than which none became due earlier.
abbrev pub IsOldest : List Job → Job → Type 0
IsOldest xs j = Memᴰ j xs × All (λ x. j.run_at ≤ x.run_at) xs

min_run_at-cases :
    (xs : List Job)
    → ((xs ≡ []) × (min_run_at xs ≡ none))
      ⊎ ((j : Job) × IsOldest xs j × (min_run_at xs ≡ some j.run_at))
min_run_at-cases [] = inl (refl, refl)
min_run_at-cases (x ∷ xs) = elim (min_run_at-cases xs) [
  | inl (empty, nothing) ↦ inr (x, (Memᴰ.head refl, (omega arith, rw empty tt)), rw nothing refl)
  | inr (j, oldest, least) ↦ elim (Bool-cases (leb x.run_at j.run_at)) [
    | inl first ↦
        let le : x.run_at ≤ j.run_at = ground arith in
        inr (
          x,
          (
            Memᴰ.head refl,
            (
              omega arith,
              All-imp (λ (y : Job). j.run_at ≤ y.run_at) (λ y. x.run_at ≤ y.run_at) xs
                  (λ y h. omega (arith, h, le)) oldest.1,
            ),
          ),
          rw (least, first) refl,
        )
    | inr later ↦ inr (j, (Memᴰ.tail oldest.0, (ground arith, oldest.1)), rw (least, later) refl)
  ]
]

-- A measurement that the driver answers counts the pending jobs that are due. With none there is no
-- age; otherwise the age is that of the one due for the longest time.
pub backlog_measured :
    (duration : ℤ → ℤ) (c : Call) (t : Table)
    → IsHealthy c
    → let due = filter (is_due c.clock) t in
      (d : QueueDepth) × (queue_depth duration c t ≡ (ok d, t))
      × (d.pending ≡ length due)
      × (((due ≡ []) × (d.oldest_pending_age ≡ none))
          ⊎ ((j : Job) × IsOldest due j
              × (d.oldest_pending_age ≡ some (duration (sub_ℕ (c.clock 0 1) j.run_at)))))
unfolding queue_depth Dao.exec Dao.statement
backlog_measured duration c t h =
    let due = filter (is_due c.clock) t in
    let run =
      run_query-healthy c (Dao.statement c.clock)
        (λ row. map_ok (to_depth duration) (query_error row)) t
        (length due, age_at (c.clock 0 1) (min_run_at due)) t h refl in
    elim (min_run_at-cases due) [
      | inl (empty, nothing) ↦ (
        record { pending = length due; oldest_pending_age = none },
        rw (run, nothing) refl,
        refl,
        inl (empty, refl),
      )
      | inr (j, oldest, least) ↦ (
        record {
          pending = length due;
          oldest_pending_age = some (duration (sub_ℕ (c.clock 0 1) j.run_at));
        },
        rw (run, least) refl,
        refl,
        inr (j, oldest, refl),
      )
    ]
