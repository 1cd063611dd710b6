-- ===== src/Errors.antt =====
-- Go's errors as the service builds and inspects them (internal/core/job.go, internal/core/validate.go,
-- and the sentinels that each file of internal/dao declares), and the results that carry them.
use service_jobs.Prelude.{ℕ, ◌≡◌, refl, ◌⊎◌, inl, inr, Bool, false, ◌||◌, String, ◌==◌}

-- Each `errors.New` of the source, and `sql.ErrNoRows` of Go's library.
pub data Sentinel : Type 0 where
  no_rows job_get_not_found job_get_by_id_not_found : Sentinel
  job_settle_not_claimed job_requeue_not_claimed : Sentinel
  invalid_request job_not_found job_conflict job_not_claimed : Sentinel
  reaper_interval_non_positive : Sentinel

-- An error tree: `errors.Join`, `fmt.Errorf` with %w, and an error of code outside the repository.
pub data GoError : Type 0 where
  sentinel : Sentinel → GoError
  join : GoError → GoError → GoError
  wrap : String → GoError → GoError
  foreign : String → GoError

abbrev pub index : Sentinel → ℕ
index no_rows = 0
index job_get_not_found = 1
index job_get_by_id_not_found = 2
index job_settle_not_claimed = 3
index job_requeue_not_claimed = 4
index invalid_request = 5
index job_not_found = 6
index job_conflict = 7
index job_not_claimed = 8
index reaper_interval_non_positive = 9

-- `errors.Is(err, target)`: the whole tree is searched.
abbrev pub errors_is : GoError → Sentinel → Bool
errors_is (sentinel s) target = index s == index target
errors_is (join a b) target = errors_is a target || errors_is b target
errors_is (wrap message e) target = errors_is e target
errors_is (foreign message) target = false

-- A Go function's `(value, error)`.
pub data Result {ℓ} (A : Type ℓ) : Type ℓ where
  ok : A → Result A
  err : GoError → Result A

-- Apply a function to a value that is there.
abbrev pub map_ok {ℓ κ} : {A : Type ℓ} {B : Type κ} → (A → B) → Result A → Result B
map_ok f (ok a) = ok (f a)
map_ok f (err e) = err e

pub Result-cases {ℓ} :
    {A : Type ℓ} (r : Result A) → ((e : GoError) × (r ≡ err e)) ⊎ ((a : A) × (r ≡ ok a))
Result-cases (err e) = inl (e, refl)
Result-cases (ok a) = inr (a, refl)

infixl 5 ◌>>=◌
abbrev pub ◌>>=◌ {ℓ κ} : {A : Type ℓ} {B : Type κ} → Result A → (A → Result B) → Result B
err failure >>= rest = err failure
ok value >>= rest = rest value

-- A chain that succeeds has a first part that does.
pub >>=-eq_ok {ℓ κ} :
    {A : Type ℓ} {B : Type κ} (first : Result A) (rest : A → Result B) {b : B}
    → (first >>= rest) ≡ ok b
    → (a : A) × (first ≡ ok a) × (rest a ≡ ok b)
>>=-eq_ok (err failure) rest h = cc
>>=-eq_ok (ok value) rest h = (value, refl, h)
