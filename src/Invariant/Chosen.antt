-- ===== src/Invariant/Chosen.antt =====
-- The rows that a statement picks by a query and joins by their ids: with distinct ids, the join
-- writes the picked rows and no other (internal/dao/pg.jobClaim.sql, internal/dao/pg.jobReap.sql).
use mathlib.Core.List.Memᴰ
use service_jobs.Prelude.{
  ℕ, ◌==◌, ==_iff, Bool, true, false, ◌≡◌, refl, sym, ap, ◌∙◌, String, List, [], ◌∷◌, Memᴰ, inl,
  inr, All-mem, Bool-cases, filter, mem-filter, mem-take, leb, arith,
}
use service_jobs.Dao.Job.{Job}
use service_jobs.Dao.Table.{Table, Readings}
use service_jobs.Dao.Claim.{chosen, insert_by_run_at, sort_by_run_at, claimable, is_claimable}
use service_jobs.Dao.Reap.{reapable, is_reapable}
use service_jobs.Invariant.{Apart, same_id}

pub mem-filter_of :
    (p : Job → Bool) (t : Table) {j : Job} → Memᴰ j t → p j ≡ true → Memᴰ j (filter p t)
mem-filter_of p [] m h = elim m [ ]
mem-filter_of p (x ∷ xs) (Memᴰ.head e) h = let hit : p x ≡ true = rw (← e) h in rw hit (Memᴰ.head e)
mem-filter_of p (x ∷ xs) (Memᴰ.tail m) h = elim (Bool-cases (p x)) [
  | inl hit ↦ rw hit (Memᴰ.tail (mem-filter_of p xs m h))
  | inr miss ↦ rw miss (mem-filter_of p xs m h)
]

pub chosen_of_mem : (rows : List Job) (j : Job) → Memᴰ j rows → chosen rows j ≡ true
chosen_of_mem [] j m = elim m [ ]
chosen_of_mem (x ∷ xs) j (Memᴰ.head e) = ground (arith, ap (λ (z : Job). z.id) e)
chosen_of_mem (x ∷ xs) j (Memᴰ.tail m) = ground (arith, chosen_of_mem xs j m)

-- A picked id belongs to a picked row.
pub chosen-mem :
    (rows : List Job) (j : Job) → chosen rows j ≡ true → (x : Job) × Memᴰ x rows × (x.id ≡ j.id)
chosen-mem [] j h = cc
chosen-mem (x ∷ rows) j h = elim (Bool-cases (x.id == j.id)) [
  | inl hit ↦ (x, Memᴰ.head refl, (==_iff x.id j.id).0 hit)
  | inr miss ↦ let (y, m, e) = chosen-mem rows j (ground arith) in (y, Memᴰ.tail m, e)
]

-- Rows of a table with distinct ids are one if their ids are.
pub same_id-eq :
    (t : Table) (j x : Job) → Apart same_id t → Memᴰ j t → Memᴰ x t → x.id ≡ j.id → x ≡ j
same_id-eq [] j x h mj mx e = elim mj [ ]
same_id-eq (y ∷ ys) j x h (Memᴰ.head p) (Memᴰ.head q) e = q ∙ sym p
same_id-eq (y ∷ ys) j x h (Memᴰ.head p) (Memᴰ.tail q) e =
    absurd (ground (arith, All-mem (λ z. same_id y z ≡ false) ys h.0 q, ap (λ (z : Job). z.id) p))
same_id-eq (y ∷ ys) j x h (Memᴰ.tail p) (Memᴰ.head q) e =
    absurd (ground (arith, All-mem (λ z. same_id y z ≡ false) ys h.0 p, ap (λ (z : Job). z.id) q))
same_id-eq (y ∷ ys) j x h (Memᴰ.tail p) (Memᴰ.tail q) e = same_id-eq ys j x h.1 p q e

pub mem-insert_by_run_at :
    (j : Job) (xs : List Job) {x : Job} → Memᴰ x (insert_by_run_at j xs) → Memᴰ x (j ∷ xs)
mem-insert_by_run_at j [] m = m
mem-insert_by_run_at j (y ∷ ys) m = elim (Bool-cases (leb j.run_at y.run_at)) [
  | inl first ↦ rw first at m
  | inr later ↦ elim (Memᴰ.cases_cons (rw later at m)) [
    | inl e ↦ Memᴰ.tail (Memᴰ.head e)
    | inr rest ↦ elim (Memᴰ.cases_cons (mem-insert_by_run_at j ys rest)) [
      | inl e ↦ Memᴰ.head e
      | inr deeper ↦ Memᴰ.tail (Memᴰ.tail deeper)
    ]
  ]
]

pub mem-sort_by_run_at : (xs : List Job) {x : Job} → Memᴰ x (sort_by_run_at xs) → Memᴰ x xs
unfolding sort_by_run_at
mem-sort_by_run_at [] m = m
mem-sort_by_run_at (y ∷ ys) m =
    elim (Memᴰ.cases_cons (mem-insert_by_run_at y (sort_by_run_at ys) m)) [
      | inl e ↦ Memᴰ.head e
      | inr rest ↦ Memᴰ.tail (mem-sort_by_run_at ys rest)
    ]

pub mem-claimable :
    (clock : Readings) (locked : ℕ → Bool) (kinds : List String) (limit : ℕ) (t : Table) {x : Job}
    → Memᴰ x (claimable clock locked kinds limit t)
    → Memᴰ x t × (is_claimable clock locked kinds x ≡ true)
unfolding claimable
mem-claimable clock locked kinds limit t m =
    let passed = filter (is_claimable clock locked kinds) t in
    mem-filter (is_claimable clock locked kinds) t
      (mem-sort_by_run_at passed (mem-take limit (sort_by_run_at passed) m))

module _ (t : Table) (differ : Apart same_id t) (j : Job) (here : Memᴰ j t) where
  pub chosen-picked :
      (rows : List Job) → ((x : Job) → Memᴰ x rows → Memᴰ x t) → chosen rows j ≡ true → Memᴰ j rows
  chosen-picked rows within h =
      let (x, m, e) = chosen-mem rows j h in
      Memᴰ.cast (sym (same_id-eq t j x differ here (within x m) e)) m

  pub chosen-claimable :
      (clock : Readings) (locked : ℕ → Bool) (kinds : List String) (limit : ℕ)
      → chosen (claimable clock locked kinds limit t) j ≡ true
      → is_claimable clock locked kinds j ≡ true
  chosen-claimable clock locked kinds limit h =
      (mem-claimable clock locked kinds limit t (
        chosen-picked (claimable clock locked kinds limit t)
          (λ x m. (mem-claimable clock locked kinds limit t m).0) h)).1

  pub chosen-reapable :
      (clock : Readings) (locked : ℕ → Bool)
      → chosen (reapable clock locked t) j ≡ true
      → is_reapable clock locked j ≡ true
  unfolding reapable
  chosen-reapable clock locked h =
      (mem-filter (is_reapable clock locked) t (
        chosen-picked (reapable clock locked t)
          (λ x m. (mem-filter (is_reapable clock locked) t m).0) h)).1
