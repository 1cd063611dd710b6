-- ===== src/Invariant/Written.antt =====
-- Which rows an UPDATE writes, returns and leaves.
use mathlib.Core.List.Memᴰ
use service_jobs.Prelude.{
  ℕ, ◌==◌, Bool, true, false, ◌≡◌, refl, [], ◌∷◌, map, filter, Memᴰ, All, All-mem, mem-filter,
  Bool-cases, inl, inr, arith, String,
}
use service_jobs.Dao.Job.{Job}
use service_jobs.Dao.Table.{Table, written}
use service_jobs.Dao.Settle.{holds}
use service_jobs.Invariant.{Apart, same_id}

module _ (p : Job → Bool) (f : Job → Job) where
  -- A row that the update does not select is still there.
  pub mem-written_kept : (t : Table) {j : Job} → Memᴰ j t → p j ≡ false → Memᴰ j (written p f t)
  mem-written_kept [] m h = elim m [ ]
  mem-written_kept (x ∷ xs) (Memᴰ.head e) h = Memᴰ.head (rw (← e) (rw h refl))
  mem-written_kept (x ∷ xs) (Memᴰ.tail m) h = Memᴰ.tail (mem-written_kept xs m h)

  -- A row that it selects is there as it was written.
  pub mem-written_new : (t : Table) {j : Job} → Memᴰ j t → p j ≡ true → Memᴰ (f j) (written p f t)
  mem-written_new [] m h = elim m [ ]
  mem-written_new (x ∷ xs) (Memᴰ.head e) h = Memᴰ.head (rw (← e) (rw h refl))
  mem-written_new (x ∷ xs) (Memᴰ.tail m) h = Memᴰ.tail (mem-written_new xs m h)

  -- A returned row is a selected one as it was written.
  pub mem-returned :
      (t : Table) {x : Job}
      → Memᴰ x (map f (filter p t))
      → (j : Job) × Memᴰ j t × (p j ≡ true) × (f j ≡ x)
  mem-returned t m =
      let (j, found, e) = Memᴰ.of_map f (filter p t) m in
      let (here, selected) = mem-filter p t found in (j, here, selected, e)

  -- An update that selects nothing changes nothing.
  pub written_none : (t : Table) → All (λ x. p x ≡ false) t → written p f t ≡ t
  written_none [] h = refl
  written_none (x ∷ xs) h = rw (h.0, written_none xs h.1)

pub filter_none : (p : Job → Bool) (t : Table) → All (λ x. p x ≡ false) t → filter p t ≡ []
filter_none p [] h = refl
filter_none p (x ∷ xs) h = rw (h.0, filter_none p xs h.1)

others_unheld :
    (id : ℕ) (worker : String) (t : Table) (j : Job)
    → All (λ x. same_id j x ≡ false) t
    → j.id ≡ id
    → All (λ x. holds id worker x ≡ false) t
others_unheld id worker [] j h e = tt
others_unheld id worker (x ∷ xs) j h e = (ground arith, others_unheld id worker xs j h.1 e)

-- The guard of settle and requeue selects one row, the one that the worker holds.
pub filter-holds :
    (id : ℕ) (worker : String) (t : Table) (j : Job)
    → Apart same_id t
    → Memᴰ j t
    → holds id worker j ≡ true
    → filter (holds id worker) t ≡ j ∷ []
filter-holds id worker [] j apart m h = elim m [ ]
filter-holds id worker (x ∷ xs) j apart (Memᴰ.head e) h = rw (← e) (
    rw (
      h,
      filter_none (holds id worker) xs (others_unheld id worker xs j (rw e apart.0) (ground arith)),
    ))
filter-holds id worker (x ∷ xs) j apart (Memᴰ.tail m) h = elim (Bool-cases (holds id worker x)) [
  | inr other ↦ rw other (filter-holds id worker xs j apart.1 m h)
  | inl twice ↦ absurd (ground (arith, All-mem (λ z. same_id x z ≡ false) xs apart.0 m))
]

others_differ :
    (id : ℕ) (t : Table) (j : Job)
    → All (λ x. same_id j x ≡ false) t
    → j.id ≡ id
    → All (λ x. x.id == id ≡ false) t
others_differ id [] j h e = tt
others_differ id (x ∷ xs) j h e = (ground arith, others_differ id xs j h.1 e)

-- A query by id finds one row.
pub filter-id :
    (id : ℕ) (t : Table) (j : Job)
    → Apart same_id t
    → Memᴰ j t
    → j.id ≡ id
    → filter (λ (x : Job). x.id == id) t ≡ j ∷ []
filter-id id [] j apart m h = elim m [ ]
filter-id id (x ∷ xs) j apart (Memᴰ.head e) h =
    let hit : (j.id == id) ≡ true = ground arith in
    rw (← e)
      (rw (hit, filter_none (λ (y : Job). y.id == id) xs (others_differ id xs j (rw e apart.0) h)))
filter-id id (x ∷ xs) j apart (Memᴰ.tail m) h = elim (Bool-cases (x.id == id)) [
  | inr other ↦ rw other (filter-id id xs j apart.1 m h)
  | inl twice ↦ absurd (ground (arith, All-mem (λ z. same_id x z ≡ false) xs apart.0 m))
]
