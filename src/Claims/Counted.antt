-- ===== src/Claims/Counted.antt =====
-- Counts of the rows of a list that was sorted, cut or written (internal/dao/pg.jobClaim.sql).
use service_jobs.Prelude.{
  ℕ, zero, suc, ◌+◌, ◌≤◌, Bool, false, ◌&&◌, ◌≡◌, refl, sym, ap, ◌∙◌, ◌⊎◌, inl, inr, List, [], ◌∷◌,
  filter, take, length, All, All-mem, All-of_mem, mem-take, Bool-cases, leb, arith,
}
use service_jobs.Dao.Job.{Job}
use service_jobs.Dao.Table.{Table, written}
use service_jobs.Dao.Claim.{insert_by_run_at, sort_by_run_at}
use service_jobs.Claims.Oldest.{IsOrdered}

length-filter-insert :
    (p : Job → Bool) (j : Job) (xs : List Job)
    → length (filter p (insert_by_run_at j xs)) ≡ length (filter p (j ∷ xs))
length-filter-insert p j [] = refl
length-filter-insert p j (x ∷ xs) =
    let rest = length-filter-insert p j xs in
    elim (Bool-cases (leb j.run_at x.run_at)) [
      | inl first ↦ rw first refl
      | inr later ↦ ground (arith, rest)
    ]

pub length-filter-sort :
    (p : Job → Bool) (xs : List Job) → length (filter p (sort_by_run_at xs)) ≡ length (filter p xs)
unfolding sort_by_run_at
length-filter-sort p [] = refl
length-filter-sort p (x ∷ xs) =
    let rest = length-filter-sort p xs in
    length-filter-insert p x (sort_by_run_at xs) ∙ ground (arith, rest)

pub filter-and : (p q : Job → Bool) (t : Table) → filter p (filter q t) ≡ filter (λ j. q j && p j) t
filter-and p q [] = refl
filter-and p q (x ∷ xs) =
    let rest = filter-and p q xs in
    elim (Bool-cases (q x)) [
      | inr miss ↦ rw miss rest
      | inl hit ↦ elim (Bool-cases (p x)) [
        | inl both ↦ rw (hit, both) (ap (λ ys. x ∷ ys) rest)
        | inr one ↦ rw (hit, one) rest
      ]
    ]

none-early :
    (now : ℕ) (xs : List Job) (x : Job)
    → leb x.run_at now ≡ false
    → All (λ y. x.run_at ≤ y.run_at) xs
    → length (filter (λ j. leb j.run_at now) xs) ≡ 0
none-early now [] x h a = refl
none-early now (y ∷ ys) x h a =
    let rest = none-early now ys x h a.1 in let le = a.0 in ground (arith, rest)

-- The rows that came first fill a prefix of an ordered list first.
pub early-first :
    (now n : ℕ) (xs : List Job)
    → IsOrdered xs
    → (length (filter (λ j. leb j.run_at now) (take n xs)) ≡ n)
      ⊎ (length (filter (λ j. leb j.run_at now) (take n xs))
          ≡ length (filter (λ j. leb j.run_at now) xs))
early-first now zero xs o = inl refl
early-first now (suc n) [] o = inr refl
early-first now (suc n) (x ∷ xs) o = elim (Bool-cases (leb x.run_at now)) [
  | inl early ↦ elim (early-first now n xs o.1) [
    | inl full ↦ inl (rw early (ap suc full))
    | inr all ↦ inr (rw early (ap suc all))
  ]
  | inr late ↦
      let none_left = none-early now xs x late o.0 in
      let none_taken = none-early now (take n xs) x late (
        All-of_mem (λ y. x.run_at ≤ y.run_at) (take n xs)
          (λ y m. All-mem (λ z. x.run_at ≤ z.run_at) xs o.0 (mem-take n xs m))) in
      inr (rw (late) (none_taken ∙ sym none_left))
]

-- A write that takes rows out of a test, and takes only such rows.
pub length-filter-written :
    (p q : Job → Bool) (f : Job → Job) (t : Table)
    → ((j : Job) → p (f j) ≡ false)
    → length (filter p (written q f t)) + length (filter (λ j. q j && p j) t) ≡ length (filter p t)
length-filter-written p q f [] out = refl
length-filter-written p q f (x ∷ xs) out =
    let rest = length-filter-written p q f xs out in
    elim (Bool-cases (q x)) [
      | inl hit ↦ elim (Bool-cases (p x)) [
        | inl both ↦ rw (hit, out x, both) (omega (arith, rest))
        | inr one ↦ rw (hit, out x, one) rest
      ]
      | inr miss ↦ elim (Bool-cases (p x)) [
        | inl there ↦ rw (miss, there) (omega (arith, rest))
        | inr none ↦ rw (miss, none) rest
      ]
    ]
