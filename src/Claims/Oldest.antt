-- ===== src/Claims/Oldest.antt =====
-- The order in which a claim picks jobs (`ORDER BY run_at` of internal/dao/pg.jobClaim.sql).
use mathlib.Core.List.Memᴰ
use service_jobs.Prelude.{
  ℕ, zero, suc, ◌≤◌, ◌≡◌, Bool, true, false, String, List, [], ◌∷◌, Memᴰ, All, All-mem, All-imp,
  Bool-cases, inl, inr, leb, arith, take, filter,
}
use service_jobs.Dao.Job.{Job}
use service_jobs.Dao.Table.{Table, Readings}
use service_jobs.Dao.Claim.{chosen, claimable, is_claimable, insert_by_run_at, sort_by_run_at}
use service_jobs.Invariant.{IsWellFormed}
use service_jobs.Invariant.Chosen.{chosen_of_mem, mem-filter_of, mem-claimable, chosen-picked}

abbrev pub IsOrdered : List Job → Type 0
IsOrdered [] = Unit
IsOrdered (j ∷ js) = All (λ x. j.run_at ≤ x.run_at) js × IsOrdered js

All-insert :
    (n : ℕ) (j : Job) (xs : List Job)
    → n ≤ j.run_at
    → All (λ x. n ≤ x.run_at) xs
    → All (λ x. n ≤ x.run_at) (insert_by_run_at j xs)
All-insert n j [] h a = (h, tt)
All-insert n j (x ∷ xs) h a = elim (Bool-cases (leb j.run_at x.run_at)) [
  | inl first ↦ rw first (h, a)
  | inr later ↦ rw later (a.0, All-insert n j xs h a.1)
]

insert-IsOrdered : (j : Job) (xs : List Job) → IsOrdered xs → IsOrdered (insert_by_run_at j xs)
insert-IsOrdered j [] o = (tt, tt)
insert-IsOrdered j (x ∷ xs) o = elim (Bool-cases (leb j.run_at x.run_at)) [
  | inl first ↦
      let le : j.run_at ≤ x.run_at = ground arith in
      rw first (
        (
          le,
          All-imp (λ (y : Job). x.run_at ≤ y.run_at) (λ y. j.run_at ≤ y.run_at) xs
              (λ y h. omega (arith, h, le)) o.0,
        ),
        o,
      )
  | inr later ↦ rw later (All-insert x.run_at j xs (ground arith) o.0, insert-IsOrdered j xs o.1)
]

pub sort-IsOrdered : (xs : List Job) → IsOrdered (sort_by_run_at xs)
unfolding sort_by_run_at
sort-IsOrdered [] = tt
sort-IsOrdered (x ∷ xs) = insert-IsOrdered x (sort_by_run_at xs) (sort-IsOrdered xs)

mem-insert_of :
    (j : Job) (xs : List Job) {x : Job} → Memᴰ x (j ∷ xs) → Memᴰ x (insert_by_run_at j xs)
mem-insert_of j [] m = m
mem-insert_of j (y ∷ ys) m = elim (Bool-cases (leb j.run_at y.run_at)) [
  | inl first ↦ rw first m
  | inr later ↦ rw later (elim (Memᴰ.cases_cons m) [
    | inl e ↦ Memᴰ.tail (mem-insert_of j ys (Memᴰ.head e))
    | inr rest ↦ elim (Memᴰ.cases_cons rest) [
      | inl e ↦ Memᴰ.head e
      | inr deeper ↦ Memᴰ.tail (mem-insert_of j ys (Memᴰ.tail deeper))
    ]
  ])
]

pub mem-sort_of : (xs : List Job) {x : Job} → Memᴰ x xs → Memᴰ x (sort_by_run_at xs)
unfolding sort_by_run_at
mem-sort_of [] m = m
mem-sort_of (y ∷ ys) (Memᴰ.head e) = mem-insert_of y (sort_by_run_at ys) (Memᴰ.head e)
mem-sort_of (y ∷ ys) (Memᴰ.tail m) =
    mem-insert_of y (sort_by_run_at ys) (Memᴰ.tail (mem-sort_of ys m))

-- In an ordered list, nothing left out of a prefix is before an element of it.
prefix-oldest :
    (n : ℕ) (xs : List Job) (x y : Job)
    → IsOrdered xs
    → Memᴰ x (take n xs)
    → Memᴰ y xs
    → chosen (take n xs) y ≡ false
    → x.run_at ≤ y.run_at
prefix-oldest zero xs x y o mx my out = elim mx [ ]
prefix-oldest (suc n) [] x y o mx my out = elim mx [ ]
prefix-oldest (suc n) (z ∷ zs) x y o mx (Memᴰ.head e) out =
    let picked = chosen_of_mem (z ∷ take n zs) y (Memᴰ.head e) in cc
prefix-oldest (suc n) (z ∷ zs) x y o (Memᴰ.head e) (Memᴰ.tail my) out =
    rw e (All-mem (λ (w : Job). z.run_at ≤ w.run_at) zs o.0 my)
prefix-oldest (suc n) (z ∷ zs) x y o (Memᴰ.tail mx) (Memᴰ.tail my) out =
    prefix-oldest n zs x y o.1 mx my (ground arith)

-- On a well-formed table, the jobs that a claim picks are those that have been due longest: none that
-- it picks became due later than one that it could have picked and left.
pub claim_oldest :
    (clock : Readings) (locked : ℕ → Bool) (kinds : List String) (limit : ℕ) (t : Table) (x y : Job)
    → IsWellFormed t
    → Memᴰ x t
    → Memᴰ y t
    → chosen (claimable clock locked kinds limit t) x ≡ true
    → is_claimable clock locked kinds y ≡ true
    → chosen (claimable clock locked kinds limit t) y ≡ false
    → x.run_at ≤ y.run_at
unfolding claimable
claim_oldest clock locked kinds limit t x y w mx my picked due left =
    let passed = filter (is_claimable clock locked kinds) t in
    prefix-oldest limit (sort_by_run_at passed) x y (sort-IsOrdered passed)
      (chosen-picked t w.ids_differ x mx (claimable clock locked kinds limit t)
        (λ z m. (mem-claimable clock locked kinds limit t m).0) picked)
      (mem-sort_of passed (mem-filter_of (is_claimable clock locked kinds) t my due)) left
