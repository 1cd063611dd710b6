-- ===== src/Claims/Size.antt =====
-- How many jobs a claim hands out (internal/core/jobClaim.go, internal/dao/pg.jobClaim.sql).
use service_jobs.Prelude.{
  String, ℕ, zero, suc, ◌+◌, ◌≤◌, ◌==◌, Bool, true, false, ◌||◌, ◌≡◌, refl, ap, ◌∙◌, ◌⊎◌, inl, inr,
  List, [], ◌∷◌, map, filter, take, length, Memᴰ, All, All-mem, All-of_mem, mem-take, Bool-cases,
  leb, arith,
}
use service_jobs.Prelude.Int.{pos}
use service_jobs.Errors.{ok}
use service_jobs.Dao.Job.{Job}
use service_jobs.Dao.Table.{Table, Readings}
use service_jobs.Dao.Exec.{Call}
use service_jobs.Dao.Claim as Dao
use service_jobs.Dao.Claim.{chosen, claimable, is_claimable, insert_by_run_at, sort_by_run_at}
use service_jobs.Core.Validate.{Validator}
use service_jobs.Core.Job.{job_to_core}
use service_jobs.Core.Claim.{JobClaimRequest, exec, is_valid}
use service_jobs.Invariant.{IsWellFormed, Apart, same_id}
use service_jobs.Invariant.Exec.{IsHealthy}
use service_jobs.Invariant.Statements.{Apart-filter}
use service_jobs.Invariant.Written.{filter-id, filter_none}
use service_jobs.Invariant.Chosen.{
  mem-insert_by_run_at, mem-sort_by_run_at, mem-claimable, chosen-mem,
}
use service_jobs.Claims.{batch, exec-batch, length-map}
use service_jobs.Claims.Whole.{length-sort, filter-same}

-- Distinct ids stay so where a row is inserted, and where a list is sorted or cut.
Apart-insert :
    (j : Job) (xs : List Job)
    → All (λ x. same_id j x ≡ false) xs
    → Apart same_id xs
    → Apart same_id (insert_by_run_at j xs)
Apart-insert j [] d a = (tt, tt)
Apart-insert j (x ∷ xs) d a = elim (Bool-cases (leb j.run_at x.run_at)) [
  | inl first ↦ rw first (d, a)
  | inr later ↦
      let back : same_id x j ≡ false = ground (arith, d.0) in
      let apart : All (λ y. same_id x y ≡ false) (insert_by_run_at j xs) =
        All-of_mem (λ y. same_id x y ≡ false) (insert_by_run_at j xs)
          (λ y m.
            All-mem (λ z. same_id x z ≡ false) (j ∷ xs) (back, a.0)
              (mem-insert_by_run_at j xs m)) in
      rw later (apart, Apart-insert j xs d.1 a.1)
]

Apart-sort : (xs : List Job) → Apart same_id xs → Apart same_id (sort_by_run_at xs)
unfolding sort_by_run_at
Apart-sort [] a = tt
Apart-sort (x ∷ xs) a =
    Apart-insert x (sort_by_run_at xs)
      (All-of_mem (λ y. same_id x y ≡ false) (sort_by_run_at xs)
        (λ y m. All-mem (λ z. same_id x z ≡ false) xs a.0 (mem-sort_by_run_at xs m)))
      (Apart-sort xs a.1)

Apart-take : (n : ℕ) (xs : List Job) → Apart same_id xs → Apart same_id (take n xs)
Apart-take zero xs a = tt
Apart-take (suc n) [] a = tt
Apart-take (suc n) (x ∷ xs) a = (
  All-of_mem (λ y. same_id x y ≡ false) (take n xs)
      (λ y m. All-mem (λ z. same_id x z ≡ false) xs a.0 (mem-take n xs m)),
  Apart-take n xs a.1,
)

-- Tests that exclude one another select their rows apart.
length-filter-apart :
    (p q : Job → Bool) (t : Table)
    → ((j : Job) → p j ≡ true → q j ≡ false)
    → length (filter (λ j. p j || q j) t) ≡ length (filter p t) + length (filter q t)
length-filter-apart p q [] apart = refl
length-filter-apart p q (x ∷ xs) apart =
    let rest = length-filter-apart p q xs apart in
    elim (Bool-cases (p x)) [
      | inl hit ↦ let other = apart x hit in rw (hit, other) (omega (arith, rest))
      | inr miss ↦ elim (Bool-cases (q x)) [
        | inl hit ↦ rw (miss, hit) (omega (arith, rest))
        | inr none ↦ rw (miss, none) rest
      ]
    ]

-- Rows of the table with distinct ids are joined by their ids to as many rows.
pub length-chosen :
    (rows : List Job) (t : Table)
    → Apart same_id t
    → Apart same_id rows
    → ((x : Job) → Memᴰ x rows → Memᴰ x t)
    → length (filter (chosen rows) t) ≡ length rows
length-chosen [] t apart a within =
    ap length (filter_none (chosen []) t (All-of_mem (λ x. chosen [] x ≡ false) t (λ x m. refl)))
length-chosen (x ∷ rows) t apart a within =
    let rest = length-chosen rows t apart a.1 (λ y m. within y (Memᴰ.tail m)) in
    let turned : filter (λ (j : Job). x.id == j.id) t ≡ filter (λ (j : Job). j.id == x.id) t =
      filter-same (λ (j : Job). x.id == j.id) (λ (j : Job). j.id == x.id) t (λ j m. ground arith) in
    let one = turned ∙ filter-id x.id t x apart (within x (Memᴰ.head refl)) refl in
    let alone : (j : Job) → (x.id == j.id) ≡ true → chosen rows j ≡ false = (λ j hit.
      elim (Bool-cases (chosen rows j)) [
        | inr other ↦ other
        | inl twice ↦
            let (y, m, e) = chosen-mem rows j twice in
            absurd (ground (arith, All-mem (λ z. same_id x z ≡ false) rows a.0 m))
      ]) in
    let parts = length-filter-apart (λ (j : Job). x.id == j.id) (chosen rows) t alone in
    omega (arith, parts, ap length one, rest)

length-take-cases :
    (n : ℕ) (xs : List Job)
    → ((length (take n xs) ≡ n) × (n ≤ length xs))
      ⊎ ((length (take n xs) ≡ length xs) × (length xs ≤ n))
length-take-cases zero xs = inl (refl, omega arith)
length-take-cases (suc n) [] = inr (refl, omega arith)
length-take-cases (suc n) (x ∷ xs) = elim (length-take-cases n xs) [
  | inl (all_taken, h) ↦ inl (omega (arith, all_taken), omega (arith, h))
  | inr (short, h) ↦ inr (omega (arith, short), omega (arith, h))
]

pub Apart-claimable :
    (clock : Readings) (locked : ℕ → Bool) (kinds : List String) (n : ℕ) (t : Table)
    → Apart same_id t
    → Apart same_id (claimable clock locked kinds n t)
unfolding claimable
Apart-claimable clock locked kinds n t differ =
    let passed = filter (is_claimable clock locked kinds) t in
    Apart-take n (sort_by_run_at passed)
      (Apart-sort passed (Apart-filter same_id (is_claimable clock locked kinds) t differ))

-- A batch has as many rows as `claimable`.
length-batch :
    (c : Call) (r : JobClaimRequest) (n : ℕ) (t : Table)
    → IsWellFormed t
    → length (batch c r n t) ≡ length (claimable c.clock c.locked r.kinds n t)
unfolding claimable
length-batch c r n t w =
    length-map (Dao.claim_row c.clock r.worker_id r.lease_seconds)
      (filter (chosen (claimable c.clock c.locked r.kinds n t)) t)
    ∙ length-chosen (claimable c.clock c.locked r.kinds n t) t w.ids_differ
        (Apart-claimable c.clock c.locked r.kinds n t w.ids_differ)
        (λ x m. (mem-claimable c.clock c.locked r.kinds n t m).0)

-- A valid claim of a well-formed table that the driver answers wastes nothing of its limit: it hands
-- out exactly as many jobs as the limit says where that many may be claimed, that is are pending,
-- due, of a kind asked for and not locked, and every one of them where they are fewer.
pub claim_fills :
    (v : Validator) (c : Call) (r : JobClaimRequest) (n : ℕ) (t : Table)
    → is_valid v r ≡ true
    → r.limit ≡ pos n
    → IsHealthy c
    → IsWellFormed t
    → let count = length (filter (is_claimable c.clock c.locked r.kinds) t) in
      (rows : List Job) × ((exec v c r t).0 ≡ ok (map job_to_core rows))
      × (((length rows ≡ n) × (n ≤ count)) ⊎ ((length rows ≡ count) × (count ≤ n)))
unfolding claimable
claim_fills v c r n t valid limit h w =
    let passed = filter (is_claimable c.clock c.locked r.kinds) t in
    let size = length-batch c r n t w in
    let whole = length-sort passed in
    (
      batch c r n t,
      ap (λ p. p.0) (exec-batch v c r n t valid limit h w),
      elim (length-take-cases n (sort_by_run_at passed)) [
        | inl (taken, le) ↦ inl (size ∙ taken, omega (arith, le, whole))
        | inr (taken, le) ↦ inr (size ∙ taken ∙ whole, omega (arith, le, whole))
      ],
    )
