-- ===== src/Invariant/Insert.antt =====
-- The INSERT of internal/dao/pg.jobEnqueue.sql and the well-formedness of the jobs table.
use service_jobs.Prelude.{
  ℕ, ◌==◌, Bool, true, false, ◌≡◌, refl, sym, [], ◌∷◌, ◌++◌, Option, none, some, All, String,
  All-append, All-imp, arith, Bool-cases, inl, inr, find?, any, eq_iff,
}
use service_jobs.Errors.{ok, >>=-eq_ok}
use service_jobs.Dao.Job.{Job, Bytes}
use service_jobs.Dao.Table.{Table, Readings, Engine, to_jsonb, satisfies_checks}
use service_jobs.Dao.Enqueue.{
  JobEnqueueRequest, same_key, new_row, resolve, propose, check_row, statement, not_null, natural,
}
use service_jobs.Invariant.{IsSound, IsWellFormed, Apart, same_id, same_submission}

-- A new row that passes the constraints is sound.
new_row-IsSound :
    (clock : Readings) (r : JobEnqueueRequest) (payload : Bytes) (n : ℕ)
    → satisfies_checks (new_row clock r payload n) ≡ true
    → IsSound (new_row clock r payload n)
unfolding new_row satisfies_checks
new_row-IsSound clock r payload n h = ground arith

same_key_symm : (a b : Option String) → same_key a b ≡ false → same_key b a ≡ false
same_key_symm (some a) (some b) h = ground (arith, eq_iff a b, eq_iff b a)
same_key_symm (some a) none h = refl
same_key_symm none (some b) h = refl
same_key_symm none none h = refl

same_submission_symm : (j x : Job) → same_submission j x ≡ false → same_submission x j ≡ false
same_submission_symm j x h = ground (
  arith,
  same_key_symm j.idempotency_key x.idempotency_key,
  eq_iff j.kind x.kind,
  eq_iff x.kind j.kind,
)

-- A search that finds nothing rules out every row.
pub find?-none : (p : Job → Bool) (t : Table) → find? p t ≡ none → All (λ x. p x ≡ false) t
find?-none p [] h = tt
find?-none p (x ∷ xs) h = elim (Bool-cases (p x)) [
  | inl hit ↦ let e = rw hit at h in cc
  | inr miss ↦ (miss, find?-none p xs (rw miss at h))
]

any-false : (p : Job → Bool) (t : Table) → any p t ≡ false → All (λ x. p x ≡ false) t
any-false p [] h = tt
any-false p (x ∷ xs) h = elim (Bool-cases (p x)) [
  | inl hit ↦ let e = rw hit at h in cc
  | inr miss ↦ (miss, any-false p xs (rw miss at h))
]

Apart-append :
    (r : Job → Job → Bool) (t : Table) (j : Job)
    → All (λ x. r x j ≡ false) t
    → Apart r t
    → Apart r (t ++ j ∷ [])
Apart-append r [] j h a = (tt, tt)
Apart-append r (x ∷ xs) j h a =
    (All-append (λ y. r x y ≡ false) xs (j ∷ []) a.0 (h.0, tt), Apart-append r xs j h.1 a.1)

resolve-IsWellFormed :
    (j : Job) (t : Table) (found : Option Job)
    → find? (same_submission j) t ≡ found
    → IsSound j
    → IsWellFormed t
    → (row : Job) (u : Table) → resolve j t found ≡ ok (row, u)
    → IsWellFormed u
resolve-IsWellFormed j t (some old) e s w row u h = let same : t ≡ u = cc in rw (← same) w
resolve-IsWellFormed j t none e s w row u h = elim (Bool-cases (any (λ x. x.id == j.id) t)) [
  | inl clash ↦ let k = rw clash at h in cc
  | inr free ↦
      let k = rw free at h in
      let grown : t ++ j ∷ [] ≡ u = cc in
      rw (← grown) (record {
        sound = All-append IsSound t (j ∷ []) w.sound (s, tt);
        ids_differ =
            Apart-append same_id t j
              (All-imp (λ x. x.id == j.id ≡ false) (λ x. same_id x j ≡ false) t
                (λ x f. ground arith) (any-false (λ x. x.id == j.id) t free))
              w.ids_differ;
        keys_differ =
            Apart-append same_submission t j
              (All-imp (λ x. same_submission j x ≡ false) (λ x. same_submission x j ≡ false) t
                (λ x f. same_submission_symm j x f) (find?-none (same_submission j) t e))
              w.keys_differ;
      })
]

-- A proposed row that is accepted passes the constraints, and so does the same proposal under any
-- other id and clock.
pub propose-eq_ok :
    (e : Engine) (clock : Readings) (r : JobEnqueueRequest) (row : Job)
    → propose e clock r ≡ ok row
    → (payload : Bytes) × (n : ℕ) × (row ≡ new_row clock r payload n)
      × (satisfies_checks row ≡ true)
      × ((clock' : Readings) (id' : ℕ)
          → propose e clock' (record r { id = id' })
            ≡ check_row (new_row clock' (record r { id = id' }) payload n))
unfolding propose
propose-eq_ok e clock r row h =
    let (json, p, h₁) = >>=-eq_ok (to_jsonb e r.payload) _ h in
    let (payload, q, h₂) = >>=-eq_ok (not_null json) _ h₁ in
    let (n, m, h₃) = >>=-eq_ok (natural r.max_attempts) _ h₂ in
    let new : Job = new_row clock r payload n in
    elim (Bool-cases (satisfies_checks new)) [
      | inl pass ↦
          let k = rw pass at h₃ in
          let it : new ≡ row = cc in
          (payload, n, sym it, rw (← it) pass, λ clock' id'. rw p (rw q (rw m refl)))
      | inr fail ↦ let k = rw fail at h₃ in cc
    ]

-- An enqueue keeps the table well formed.
pub enqueue-IsWellFormed :
    (e : Engine) (clock : Readings) (r : JobEnqueueRequest) (t : Table)
    → IsWellFormed t
    → (row : Job) (u : Table) → statement e clock r t ≡ ok (row, u)
    → IsWellFormed u
unfolding statement
enqueue-IsWellFormed e clock r t w row u h =
    let (new, p, h₁) = >>=-eq_ok (propose e clock r) _ h in
    let (payload, n, it, pass, _) = propose-eq_ok e clock r new p in
    resolve-IsWellFormed new t (find? (same_submission new) t) refl
      (rw it (new_row-IsSound clock r payload n (rw it at pass))) w row u h₁
