-- ===== src/Claims/Whole.antt =====
-- A claim with a large limit (internal/dao/pg.jobClaim.sql) beside the backlog probe
-- (internal/dao/pg.jobQueueDepth.sql).
use service_jobs.Prelude.{
  ℕ, zero, suc, ◌≤◌, ◌≡◌, ap, refl, Bool, true, false, String, List, [], ◌∷◌, Memᴰ, Bool-cases, inl,
  inr, leb, arith, take, filter, length, map,
}
use service_jobs.Prelude.Int.{ℤ, pos}
use service_jobs.Errors.{ok}
use service_jobs.Dao.Job.{Job}
use service_jobs.Dao.Table.{Table, Readings}
use service_jobs.Dao.Exec.{Call}
use service_jobs.Dao.Claim as Dao
use service_jobs.Dao.Claim.{
  chosen, claimable, is_claimable, kind_in, insert_by_run_at, sort_by_run_at,
}
use service_jobs.Dao.QueueDepth.{is_due}
use service_jobs.Core.Validate.{Validator}
use service_jobs.Core.Job.{job_to_core}
use service_jobs.Core.Claim.{JobClaimRequest, exec, is_valid}
use service_jobs.Core.Depth.{QueueDepth, queue_depth}
use service_jobs.Invariant.{IsWellFormed}
use service_jobs.Invariant.Exec.{IsHealthy}
use service_jobs.Invariant.Chosen.{chosen_of_mem, mem-filter_of, chosen-claimable}
use service_jobs.Claims.{batch, exec-batch, length-map}
use service_jobs.Claims.Oldest.{mem-sort_of}
use service_jobs.Backlog.{backlog_measured}

length-insert : (j : Job) (xs : List Job) → length (insert_by_run_at j xs) ≡ suc (length xs)
length-insert j [] = refl
length-insert j (x ∷ xs) = elim (Bool-cases (leb j.run_at x.run_at)) [
  | inl first ↦ rw first refl
  | inr later ↦ rw later (ap suc (length-insert j xs))
]

pub length-sort : (xs : List Job) → length (sort_by_run_at xs) ≡ length xs
unfolding sort_by_run_at
length-sort [] = refl
length-sort (x ∷ xs) = omega (arith, length-insert x (sort_by_run_at xs), length-sort xs)

length-filter-le : (p : Job → Bool) (t : Table) → length (filter p t) ≤ length t
length-filter-le p [] = omega arith
length-filter-le p (x ∷ xs) = ground (arith, length-filter-le p xs)

take-all : (n : ℕ) (xs : List Job) → length xs ≤ n → take n xs ≡ xs
take-all zero [] h = refl
take-all zero (x ∷ xs) h = absurd (omega arith)
take-all (suc n) [] h = refl
take-all (suc n) (x ∷ xs) h = ap (λ (ys : List Job). x ∷ ys) (take-all n xs (omega arith))

-- With room for every row, each claimable job is picked.
pub chosen-whole :
    (clock : Readings) (locked : ℕ → Bool) (kinds : List String) (n : ℕ) (t : Table) (j : Job)
    → length t ≤ n
    → Memᴰ j t
    → is_claimable clock locked kinds j ≡ true
    → chosen (claimable clock locked kinds n t) j ≡ true
unfolding claimable
chosen-whole clock locked kinds n t j room m due =
    let passed = filter (is_claimable clock locked kinds) t in
    let room' : length (sort_by_run_at passed) ≤ n =
      omega
        (arith, room, length-sort passed, length-filter-le (is_claimable clock locked kinds) t) in
    rw (take-all n (sort_by_run_at passed) room') (
      chosen_of_mem (sort_by_run_at passed) j
        (mem-sort_of passed (mem-filter_of (is_claimable clock locked kinds) t m due)))

-- Tests that agree on the rows select the same rows.
pub filter-same :
    (p q : Job → Bool) (t : Table) → ((j : Job) → Memᴰ j t → p j ≡ q j) → filter p t ≡ filter q t
filter-same p q [] h = refl
filter-same p q (x ∷ xs) h =
    rw (h x (Memᴰ.head refl), filter-same p q xs (λ j m. h j (Memᴰ.tail m))) refl

-- On a well-formed table, a claim of every kind that is there, with room for every row and no row
-- locked, hands out as many jobs as the backlog probe counts when both read the same clock and
-- the driver answers both.
pub claims_backlog :
    (v : Validator) (c c' : Call) (duration : ℤ → ℤ) (r : JobClaimRequest) (n : ℕ) (t : Table)
    → is_valid v r ≡ true
    → r.limit ≡ pos n
    → length t ≤ n
    → IsHealthy c
    → IsHealthy c'
    → IsWellFormed t
    → ((j : Job)
        → Memᴰ j t
        → (kind_in r.kinds j.kind ≡ true)
          × (c.locked j.id ≡ false)
          × (c'.clock j.id 0 ≡ c.clock j.id 0))
    → (rows : List Job) × (d : QueueDepth) × ((exec v c r t).0 ≡ ok (map job_to_core rows))
      × (queue_depth duration c' t ≡ (ok d, t))
      × (length rows ≡ d.pending)
unfolding is_claimable
claims_backlog v c c' duration r n t valid limit room h h' w each =
    let (d, measured, counted, _) = backlog_measured duration c' t h' in
    let pick = chosen (claimable c.clock c.locked r.kinds n t) in
    let same : filter pick t ≡ filter (is_due c'.clock) t =
      filter-same pick (is_due c'.clock) t (λ j m.
        let (wanted, free, clock) = each j m in
        elim (Bool-cases (is_claimable c.clock c.locked r.kinds j)) [
          | inl due ↦
              let picked = chosen-whole c.clock c.locked r.kinds n t j room m due in
              ground (arith, clock)
          | inr other ↦ elim (Bool-cases (pick j)) [
            | inl picked ↦
                let due = chosen-claimable t w.ids_differ j m c.clock c.locked r.kinds n picked in
                cc
            | inr left ↦ rw left (ground (arith, clock))
          ]
        ]) in
    (
      batch c r n t,
      d,
      ap (λ p. p.0) (exec-batch v c r n t valid limit h w),
      measured,
      omega (
        arith,
        length-map (Dao.claim_row c.clock r.worker_id r.lease_seconds) (filter pick t),
        ap length same,
        counted,
      ),
    )
