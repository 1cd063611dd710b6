-- ===== src/Idempotency.antt =====
-- Enqueueing again under an idempotency key (internal/core/jobEnqueue.go,
-- internal/dao/pg.jobEnqueue.sql).
pub mod First
pub mod Kept
pub mod Steps
pub mod Forever
use text.Mathlib.TextPositions.{eq_refl}
use service_jobs.Prelude.{
  ℕ, ◌==◌, Bool, true, false, ◌≡◌, ◌≢◌, refl, List, [], ◌∷◌, ◌++◌, Option, none, some, Bool-cases,
  inl, inr, if◌then◌else◌, arith, find?, any, bytes_eq, eq_iff, String,
}
use service_jobs.Errors.{Result, ok, err, sentinel, job_conflict, >>=-eq_ok}
use service_jobs.Dao.Job.{Job, Bytes}
use service_jobs.Dao.Table.{Table, Readings, Engine, satisfies_checks}
use service_jobs.Dao.Exec.{Call, query_error}
use service_jobs.Dao.Enqueue as Dao
use service_jobs.Dao.Enqueue.{
  conflicts, same_key, new_row, resolve, insert, statement, propose, not_null, natural,
}
use service_jobs.Core.Validate.{Validator}
use service_jobs.Invariant.Exec.{IsHealthy, Commits, run_query-healthy, run_query-Commits}
use service_jobs.Invariant.Insert.{propose-eq_ok}
use service_jobs.Core.Job.{job_to_core}
use service_jobs.Core.Enqueue.{
  JobEnqueueRequest, JobEnqueueResult, is_valid, fingerprint_of, to_dao, conclude, exec,
}

find?-append :
    (p : Job → Bool) (t : Table) (j : Job)
    → find? p t ≡ none
    → p j ≡ true
    → find? p (t ++ j ∷ []) ≡ some j
find?-append p [] j h pj = rw pj
find?-append p (x ∷ xs) j h pj = elim (Bool-cases (p x)) [
  | inl hit ↦ let e = rw hit at h in cc
  | inr miss ↦ rw miss (find?-append p xs j (rw miss at h) pj)
]

-- What the statement answers is what a later search for the same key finds.
resolve-find? :
    (p : Job → Bool) (j : Job) (t : Table) (found : Option Job) (row : Job) (u : Table)
    → find? p t ≡ found
    → p j ≡ true
    → resolve j t found ≡ ok (row, u)
    → find? p u ≡ some row
resolve-find? p j t (some old) row u e pj h =
    let same : t ≡ u = cc in let it : old ≡ row = cc in rw (← same, e, it)
resolve-find? p j t none row u e pj h = elim (Bool-cases (any (λ x. x.id == j.id) t)) [
  | inl clash ↦ let k = rw clash at h in cc
  | inr free ↦
      let k = rw free at h in
      let grown : t ++ j ∷ [] ≡ u = cc in
      let it : j ≡ row = cc in rw (← grown, ← it) (find?-append p t j e pj)
]

pub same_key_self : (k : String) → same_key (some k) (some k) ≡ true
same_key_self k = eq_refl k

-- The key of a request finds the row that the request proposes.
conflicts_self :
    (clock : Readings) (r : Dao.JobEnqueueRequest) (payload : Bytes) (n : ℕ) (key : String)
    → r.idempotency_key ≡ some key
    → conflicts r.owner_id r.kind r.idempotency_key (new_row clock r payload n) ≡ true
unfolding new_row
conflicts_self clock r payload n key keyed =
    rw keyed (ground (arith, eq_iff r.kind r.kind, same_key_self key))

insert-again :
    (clock clock' : Readings) (r : Dao.JobEnqueueRequest) (id' : ℕ) (payload : Bytes) (n : ℕ)
    (key : String) (t u : Table) (j : Job)
    → r.idempotency_key ≡ some key
    → insert (new_row clock r payload n) t ≡ ok (j, u)
    → insert (new_row clock' (record r { id = id' }) payload n) u ≡ ok (j, u)
unfolding new_row
insert-again clock clock' r id' payload n key t u j keyed h =
    let p : Job → Bool = conflicts r.owner_id r.kind r.idempotency_key in
    rw (
      resolve-find? p (new_row clock r payload n) t (find? p t) j u refl
        (conflicts_self clock r payload n key keyed) h)

-- The same request under another id, once the first has committed, is answered with the same row and
-- changes nothing.
statement-again :
    (e : Engine) (clock clock' : Readings) (r : Dao.JobEnqueueRequest) (id' : ℕ) (key : String)
    (t u : Table) (j : Job)
    → r.idempotency_key ≡ some key
    → statement e clock r t ≡ ok (j, u)
    → statement e clock' (record r { id = id' }) u ≡ ok (j, u)
unfolding statement
statement-again e clock clock' r id' key t u j keyed h =
    let (new, p, h₁) = >>=-eq_ok (propose e clock r) _ h in
    let (payload, n, it, pass, again) = propose-eq_ok e clock r new p in
    let kept : satisfies_checks (new_row clock' (record r { id = id' }) payload n) ≡ true =
      rw it at pass in
    rw (again clock' id', kept)
      (insert-again clock clock' r id' payload n key t u j keyed (rw it at h₁))

bytes_eq_self : (xs : List ℕ) → bytes_eq xs xs ≡ true
bytes_eq_self [] = refl
bytes_eq_self (x ∷ xs) = ground (arith, bytes_eq_self xs)

-- How a row that an earlier enqueue recorded answers a later one: with the job, or as a conflict if
-- its fingerprint is another.
abbrev pub attached : Bytes → Job → Result JobEnqueueResult
attached fingerprint j =
    if bytes_eq j.request_fingerprint fingerprint
    then ok (record { job = job_to_core j; created = false })
    else err (sentinel job_conflict)

pub conclude-attached :
    (id : ℕ) (fingerprint : Bytes) (j : Job)
    → j.id ≢ id
    → conclude id fingerprint (ok j) ≡ attached fingerprint j
conclude-attached id fingerprint j other = ground arith

-- Let a valid enqueue with an idempotency key commit its statement, its answer arriving or not. Then the
-- same request again, under a freshly minted id and answered by the driver, leaves the table as it
-- is and reports the job recorded then, as not created; if an older job under the key has another
-- fingerprint, it reports the conflict.
pub enqueue_again :
    (v : Validator) (sha256 : Bytes → Bytes) (e : Engine) (id id' : ℕ) (c c' : Call)
    (r : JobEnqueueRequest) (key : String) (t u : Table) (j : Job)
    → is_valid v r ≡ true
    → r.idempotency_key ≡ some key
    → Commits c
    → IsHealthy c'
    → statement e c.clock (to_dao sha256 id r) t ≡ ok (j, u)
    → j.id ≢ id'
    → ((exec v sha256 e (ok id) c r t).1 ≡ u)
      × (exec v sha256 e (ok id') c' r u ≡ (attached (fingerprint_of sha256 r.payload) j, u))
unfolding exec Dao.exec to_dao
enqueue_again v sha256 e id id' c c' r key t u j valid keyed first second h other = (
  rw valid
      (run_query-Commits c (statement e c.clock (to_dao sha256 id r)) query_error t j u first h),
  rw valid (
      rw
        (run_query-healthy c' (statement e c'.clock (to_dao sha256 id' r)) query_error u j u second
          (statement-again e c.clock c'.clock (to_dao sha256 id r) id' key t u j keyed h))
        (rw (conclude-attached id' (fingerprint_of sha256 r.payload) j other))),
)
