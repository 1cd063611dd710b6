-- ===== src/Unordered/Rows.antt =====
-- The rows that a statement selects, sorts and writes (internal/dao), from two tables of the same rows.
use mathlib.Core.Path.{fun_ext, subst}
use mathlib.Core.List.{Permᴰ}
use mathlib.Core.List.Permᴰ
use service_jobs.Prelude.{
  ℕ, ◌==◌, Bool, true, false, ◌||◌, ◌≡◌, refl, sym, ap, ◌∙◌, inl, inr, Option, none, some, List, [],
  ◌∷◌, map, filter, find?, all, elem, leb, if◌then◌else◌, Memᴰ, All-mem, All-of_mem, Bool-cases,
  arith,
}
use service_jobs.Errors.{Result, ok, err, sentinel, no_rows}
use service_jobs.Dao.Job.{Job}
use service_jobs.Dao.Table.{Table, satisfies_checks, update_where, written}
use service_jobs.Dao.Exec.{one_row}
use service_jobs.Dao.Claim.{chosen, insert_by_run_at, sort_by_run_at}
use service_jobs.Invariant.{Apart}
use service_jobs.Unordered.{SameRows}
use service_jobs.Unordered.Exec.{AlikeAnswers}
use service_jobs.Unordered.Lists.{fold-Perm, mem-Perm, all-Perm, filter-Perm, find?-Perm}

-- The ids that a query picked, whatever the order of its rows.
elem-Perm : (n : ℕ) {xs ys : List ℕ} → Permᴰ xs ys → elem n xs ≡ elem n ys
elem-Perm n = fold-Perm (elem n) (λ x b. x == n || b) (λ x xs. refl) (λ x y b. ground arith)

pub chosen-Perm : {rows rows' : List Job} → Permᴰ rows rows' → chosen rows ≡ chosen rows'
chosen-Perm d = fun_ext (λ j. elem-Perm j.id (Permᴰ.map (λ (x : Job). x.id) d))

-- One row at most passes a test.
abbrev pub IsUnique : (Job → Bool) → Table → Type 0
IsUnique p t = (x y : Job) → Memᴰ x t → Memᴰ y t → p x ≡ true → p y ≡ true → x ≡ y

abbrev pub SameFirst : List Job → List Job → Type 0
SameFirst rows rows' = one_row (ok rows) ≡ one_row (ok rows')

abbrev first_found : (Job → Job) → Option Job → Result Job
first_found f none = err (sentinel no_rows)
first_found f (some j) = ok (f j)

one_row-found :
    (p : Job → Bool) (f : Job → Job) (t : Table)
    → one_row (ok (map f (filter p t))) ≡ first_found f (find? p t)
one_row-found p f [] = refl
one_row-found p f (x ∷ xs) = elim (Bool-cases (p x)) [
  | inl hit ↦ rw hit refl
  | inr miss ↦ rw miss (one_row-found p f xs)
]

pub SameFirst-found :
    (p : Job → Bool) (f : Job → Job) (t t' : Table)
    → IsUnique p t
    → SameRows t t'
    → SameFirst (map f (filter p t)) (map f (filter p t'))
SameFirst-found p f t t' one d =
    one_row-found p f t ∙ ap (first_found f) (find?-Perm p one d) ∙ sym (one_row-found p f t')

one_row-selected :
    (p : Job → Bool) (t : Table) → one_row (ok (filter p t)) ≡ first_found (λ j. j) (find? p t)
one_row-selected p [] = refl
one_row-selected p (x ∷ xs) = elim (Bool-cases (p x)) [
  | inl hit ↦ rw hit refl
  | inr miss ↦ rw miss (one_row-selected p xs)
]

pub SameFirst-selected :
    (p : Job → Bool) (t t' : Table)
    → IsUnique p t
    → SameRows t t'
    → SameFirst (filter p t) (filter p t')
SameFirst-selected p t t' one d =
    one_row-selected p t
    ∙ ap (first_found (λ j. j)) (find?-Perm p one d)
    ∙ sym (one_row-selected p t')

-- The rows that an UPDATE leaves.
written-Perm :
    (p : Job → Bool) (f : Job → Job) {t t' : Table}
    → SameRows t t'
    → SameRows (written p f t) (written p f t')
written-Perm p f d = Permᴰ.map (λ j. if p j then f j else j) d

-- An UPDATE under one test, whose rows are related as R says.
update-Alike :
    (R : List Job → List Job → Type 0) (p : Job → Bool) (f : Job → Job) (t t' : Table)
    → SameRows t t'
    → R (map f (filter p t)) (map f (filter p t'))
    → AlikeAnswers R (update_where p f t) (update_where p f t')
unfolding update_where
update-Alike R p f t t' d related =
    let same : all satisfies_checks (map f (filter p t))
        ≡ all satisfies_checks (map f (filter p t')) =
      all-Perm satisfies_checks (Permᴰ.map f (filter-Perm p d)) in
    elim (Bool-cases (all satisfies_checks (map f (filter p t)))) [
      | inl pass ↦ rw (pass, sym same ∙ pass) (related, written-Perm p f d)
      | inr fail ↦ rw (fail, sym same ∙ fail) refl
    ]

-- An UPDATE of one row at most.
pub update_one-Alike :
    (p : Job → Bool) (f : Job → Job) (t t' : Table)
    → IsUnique p t
    → SameRows t t'
    → AlikeAnswers SameFirst (update_where p f t) (update_where p f t')
update_one-Alike p f t t' one d = update-Alike SameFirst p f t t' d (SameFirst-found p f t t' one d)

-- An UPDATE of the rows that a query picked.
pub update_chosen-Alike :
    (rows rows' : List Job) (f : Job → Job) (t t' : Table)
    → Permᴰ rows rows'
    → SameRows t t'
    → AlikeAnswers SameRows (update_where (chosen rows) f t) (update_where (chosen rows') f t')
update_chosen-Alike rows rows' f t t' picked d =
    rw (← chosen-Perm picked)
      (update-Alike SameRows (chosen rows) f t t' d (Permᴰ.map f (filter-Perm (chosen rows) d)))

-- Two rows due at one time.
abbrev pub same_time : Job → Job → Bool
same_time j x = x.run_at == j.run_at

Apart-Perm :
    (r : Job → Job → Bool)
    → ((x y : Job) → r x y ≡ false → r y x ≡ false)
    → {t t' : Table} → SameRows t t'
    → Apart r t
    → Apart r t'
Apart-Perm r symmetric Permᴰ.nil a = a
Apart-Perm r symmetric (Permᴰ.cons {b = b} {l₁ = xs} {l₂ = ys} e d) a = (
  All-of_mem (λ y. r b y ≡ false) ys
      (λ y m. rw (← e) (All-mem (λ z. r _ z ≡ false) xs a.0 (mem-Perm (Permᴰ.symm d) m))),
  Apart-Perm r symmetric d a.1,
)
Apart-Perm r symmetric (Permᴰ.swap {b = y} {a' = a'} {b' = b'} {l = l} e e') a =
    let b : Apart r (b' ∷ a' ∷ l) =
      subst (λ z. Apart r (b' ∷ z ∷ l)) e' (subst (λ z. Apart r (z ∷ y ∷ l)) e a) in
    ((symmetric b' a' b.0.0, b.1.0), (b.0.1, b.1.1))
Apart-Perm r symmetric (Permᴰ.trans d d') a = Apart-Perm r symmetric d' (Apart-Perm r symmetric d a)

insert-swap :
    (x y : Job) (xs : List Job)
    → same_time x y ≡ false
    → insert_by_run_at x (insert_by_run_at y xs) ≡ insert_by_run_at y (insert_by_run_at x xs)
insert-swap x y [] apart = elim (Bool-cases (leb x.run_at y.run_at)) [
  | inl first ↦
      let later : leb y.run_at x.run_at ≡ false = ground (arith, apart) in rw (first, later) refl
  | inr later ↦
      let first : leb y.run_at x.run_at ≡ true = ground (arith, apart) in rw (first, later) refl
]
insert-swap x y (z ∷ zs) apart = elim (Bool-cases (leb x.run_at z.run_at)) [
  | inl hx ↦ elim (Bool-cases (leb y.run_at z.run_at)) [
    | inl hy ↦ elim (Bool-cases (leb x.run_at y.run_at)) [
      | inl first ↦
          let later : leb y.run_at x.run_at ≡ false = ground (arith, apart) in
          rw (hx, hy, first, later) refl
      | inr later ↦
          let first : leb y.run_at x.run_at ≡ true = ground (arith, apart) in
          rw (hx, hy, first, later, hx) refl
    ]
    | inr hy ↦
        let later : leb y.run_at x.run_at ≡ false = ground (arith, apart) in
        rw (hx, hy, later, hx) refl
  ]
  | inr hx ↦ elim (Bool-cases (leb y.run_at z.run_at)) [
    | inl hy ↦
        let later : leb x.run_at y.run_at ≡ false = ground (arith, apart) in
        rw (hx, hy, later, hx) refl
    | inr hy ↦ rw (hx, hy, hx) (ap (λ (ys : List Job). z ∷ ys) (insert-swap x y zs apart))
  ]
]

-- With no two rows due at one time, there is one order by `run_at`.
pub sort-Perm :
    {xs ys : List Job} → Permᴰ xs ys → Apart same_time xs → sort_by_run_at xs ≡ sort_by_run_at ys
unfolding sort_by_run_at
sort-Perm Permᴰ.nil a = refl
sort-Perm (Permᴰ.cons e d) a = rw (e, sort-Perm d a.1) refl
sort-Perm (Permᴰ.swap {a = x} {b = y} {l = l} e e') a =
    rw (← e, ← e') (insert-swap x y (sort_by_run_at l) (ground (arith, a.0.0)))
sort-Perm (Permᴰ.trans d d') a =
    sort-Perm d a ∙ sort-Perm d' (Apart-Perm same_time (λ x y h. ground (arith, h)) d a)
