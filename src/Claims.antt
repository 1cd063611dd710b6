-- ===== src/Claims.antt =====
-- What a claim hands out (internal/core/jobClaim.go, internal/dao/pg.jobClaim.sql).
pub mod Disjoint
pub mod Oldest
pub mod Whole
pub mod Counted
pub mod Size
pub mod Drain
use mathlib.Core.List.Memᴰ
use service_jobs.Prelude.{
  ℕ, suc, ◌+◌, ◌≤◌, ◌<◌, ◌==◌, Bool, true, false, ◌||◌, ◌≡◌, refl, sym, ap, ◌∙◌, List, [], ◌∷◌,
  some, String, map, filter, Memᴰ, All, All-of_mem, All-mem, All-imp, Bool-cases, inl, inr,
  if◌then◌else◌, arith, length, elem, length-take-le, take,
}
use service_jobs.Prelude.Int.{ℤ, pos}
use service_jobs.Errors.{Result, ok}
use service_jobs.Dao.Job.{Job, pending, claimed, is_pending, add_seconds}
use service_jobs.Dao.Table.{Table, Readings, written}
use service_jobs.Dao.Exec.{Call, query_error}
use service_jobs.Dao.Claim as Dao
use service_jobs.Dao.Claim.{
  chosen, claimable, claim_row, claim_up_to, kind_in, is_claimable, sort_by_run_at,
}
use service_jobs.Core.Validate.{Validator}
use service_jobs.Core.Job.{job_to_core}
use service_jobs.Core.Claim.{JobClaimRequest, exec, is_valid, to_dao}
use service_jobs.Invariant.{IsWellFormed, IsSound, Apart, same_id}
use service_jobs.Invariant.Exec.{IsHealthy, run_query-healthy}
use service_jobs.Invariant.Chosen.{chosen-claimable}
use service_jobs.Invariant.Rows.{claim_row-IsSound}
use service_jobs.Invariant.Statements.{claim_up_to-accepted}
use service_jobs.Invariant.Services.{claim-keeps}
use service_jobs.Invariant.Written.{mem-returned, mem-written_new, filter_none}

pub length-map {ℓ κ} :
    {A : Type ℓ} {B : Type κ} (f : A → B) (xs : List A) → length (map f xs) ≡ length xs
length-map f [] = refl
length-map f (x ∷ xs) = ap suc (length-map f xs)

length-filter-or :
    (p q : Job → Bool) (t : Table)
    → length (filter (λ j. p j || q j) t) ≤ length (filter p t) + length (filter q t)
length-filter-or p q [] = omega arith
length-filter-or p q (x ∷ xs) = ground (arith, length-filter-or p q xs)

others-differ :
    (id : ℕ) (t : Table) (j : Job)
    → All (λ x. same_id j x ≡ false) t
    → id ≡ j.id
    → All (λ x. id == x.id ≡ false) t
others-differ id [] j h e = tt
others-differ id (x ∷ xs) j h e = (ground arith, others-differ id xs j h.1 e)

-- One id picks one row at most.
length-filter-id :
    (id : ℕ) (t : Table) → Apart same_id t → length (filter (λ (j : Job). id == j.id) t) ≤ 1
length-filter-id id [] apart = omega arith
length-filter-id id (x ∷ xs) apart = elim (Bool-cases (id == x.id)) [
  | inr miss ↦ rw miss (length-filter-id id xs apart.1)
  | inl hit ↦
      rw
        (
          hit,
          filter_none (λ (j : Job). id == j.id) xs (others-differ id xs x apart.0 (ground arith)),
        )
        (omega arith)
]

length-filter-chosen :
    (rows : List Job) (t : Table) → Apart same_id t → length (filter (chosen rows) t) ≤ length rows
length-filter-chosen [] t apart =
    rw (filter_none (chosen []) t (All-of_mem (λ x. chosen [] x ≡ false) t (λ a m. refl)))
      (omega arith)
length-filter-chosen (x ∷ rows) t apart = omega (
  arith,
  length-filter-or (λ (j : Job). x.id == j.id) (chosen rows) t,
  length-filter-id x.id t apart,
  length-filter-chosen rows t apart,
)

-- What a claimed row of a batch is: one of a kind that was asked for, held by the worker under a lease
-- from the database's clock, its run counted and within its cap.
pub record IsHandedOut (clock : Readings) (r : JobClaimRequest) (j : Job) : Type 0 where
  pub status : j.status ≡ claimed
  pub holder : j.claimed_by ≡ some r.worker_id
  pub lease : j.lease_expires_at ≡ some (add_seconds (clock j.id 1) r.lease_seconds)
  pub kind : kind_in r.kinds j.kind ≡ true
  pub counted : 1 ≤ j.attempt
  pub capped : j.attempt ≤ j.max_attempts

claim_row-IsHandedOut :
    (clock : Readings) (locked : ℕ → Bool) (r : JobClaimRequest) (j : Job)
    → is_claimable clock locked r.kinds j ≡ true
    → IsSound j
    → IsHandedOut clock r (claim_row clock r.worker_id r.lease_seconds j)
unfolding claim_row is_claimable
claim_row-IsHandedOut clock locked r j h s = record {
  status = refl;
  holder = refl;
  lease = refl;
  kind = ground arith;
  counted = omega arith;
  capped = ground arith;
}

-- The job stood in the table, waiting, with one run less begun.
abbrev pub Waited : Table → Job → Type 0
Waited t j =
    (k : Job) × Memᴰ k t
    × (k.id ≡ j.id)
    × (k.kind ≡ j.kind)
    × (k.payload ≡ j.payload)
    × (k.status ≡ pending)
    × (k.attempt + 1 ≡ j.attempt)

claim_row-Waited :
    (clock : Readings) (locked : ℕ → Bool) (r : JobClaimRequest) (t : Table) (j : Job)
    → Memᴰ j t
    → is_claimable clock locked r.kinds j ≡ true
    → Waited t (claim_row clock r.worker_id r.lease_seconds j)
unfolding claim_row is_claimable
claim_row-Waited clock locked r t j m h = (j, m, refl, refl, refl, ground arith, refl)

length-claimable-le :
    (clock : Readings) (locked : ℕ → Bool) (kinds : List String) (n : ℕ) (t : Table)
    → length (claimable clock locked kinds n t) ≤ n
unfolding claimable
length-claimable-le clock locked kinds n t =
    length-take-le n (sort_by_run_at (filter (is_claimable clock locked kinds) t))

-- The rows that a batch returns, and the table with them.
abbrev pub batch : Call → JobClaimRequest → ℕ → Table → List Job
batch c r n t =
    map (claim_row c.clock r.worker_id r.lease_seconds)
      (filter (chosen (claimable c.clock c.locked r.kinds n t)) t)

abbrev pub claimed_table : Call → JobClaimRequest → ℕ → Table → Table
claimed_table c r n t =
    written (chosen (claimable c.clock c.locked r.kinds n t))
      (claim_row c.clock r.worker_id r.lease_seconds) t

pub exec-batch :
    (v : Validator) (c : Call) (r : JobClaimRequest) (n : ℕ) (t : Table)
    → is_valid v r ≡ true
    → r.limit ≡ pos n
    → IsHealthy c
    → IsWellFormed t
    → exec v c r t ≡ (ok (map job_to_core (batch c r n t)), claimed_table c r n t)
unfolding exec Dao.exec to_dao
exec-batch v c r n t valid limit h w =
    let q = to_dao r in
    let accepted : Dao.statement c.clock c.locked q q.limit t
        ≡ ok (batch c r n t, claimed_table c r n t) =
      ap (λ l. Dao.statement c.clock c.locked q l t) limit
      ∙ claim_up_to-accepted t w c.clock c.locked q n in
    rw valid (
      rw (
        run_query-healthy c (Dao.statement c.clock c.locked q q.limit) query_error t (batch c r n t)
          (claimed_table c r n t) h accepted))

-- A valid claim of a well-formed table that the driver answers always succeeds. It hands out at most
-- `limit` jobs, and answers with rows that the table then has, in which no two rows share an id: each
-- is a job that waited before, of a kind that was asked for, now held by the worker under the lease
-- asked for, with its run counted and within its cap.
pub claim_batch :
    (v : Validator) (c : Call) (r : JobClaimRequest) (n : ℕ) (t : Table)
    → is_valid v r ≡ true
    → r.limit ≡ pos n
    → IsHealthy c
    → IsWellFormed t
    → (rows : List Job) × ((exec v c r t).0 ≡ ok (map job_to_core rows))
      × (length rows ≤ n)
      × IsWellFormed (exec v c r t).1
      × All (λ j. Memᴰ j (exec v c r t).1 × Waited t j × IsHandedOut c.clock r j) rows
claim_batch v c r n t valid limit h w =
    let picked_rows = claimable c.clock c.locked r.kinds n t in
    let pick = chosen picked_rows in
    let row = claim_row c.clock r.worker_id r.lease_seconds in
    (
      batch c r n t,
      ap (λ p. p.0) (exec-batch v c r n t valid limit h w),
      omega (
        arith,
        length-map row (filter pick t),
        length-filter-chosen picked_rows t w.ids_differ,
        length-claimable-le c.clock c.locked r.kinds n t,
      ),
      claim-keeps t w c v r,
      All-of_mem _ (batch c r n t) (λ x m.
          let (j, here, picked, e) = mem-returned pick row t m in
          let due = chosen-claimable t w.ids_differ j here c.clock c.locked r.kinds n picked in
          rw (← e, exec-batch v c r n t valid limit h w)
            (
              mem-written_new pick row t here picked,
              claim_row-Waited c.clock c.locked r t j here due,
              claim_row-IsHandedOut c.clock c.locked r j due (All-mem IsSound t w.sound here),
            )),
    )
