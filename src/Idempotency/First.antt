-- ===== src/Idempotency/First.antt =====
-- The first submission (internal/core/jobEnqueue.go, internal/dao/pg.jobEnqueue.sql).
use service_jobs.Prelude.{
  ℕ, ◌==◌, ==_iff, true, false, ◌≡◌, ◌≤◌, refl, [], ◌∷◌, ◌++◌, none, some, Bool-cases, inl, inr,
  if◌then◌else◌, arith, find?, any, str_eq, eq_iff,
}
use service_jobs.Prelude.Int.{pos}
use service_jobs.Errors.{ok}
use service_jobs.Dao.Job.{Job, Bytes}
use service_jobs.Dao.Table.{Table, Engine, Readings, satisfies_checks, key_check}
use service_jobs.Dao.Exec.{Call, query_error}
use service_jobs.Dao.Enqueue as Dao
use service_jobs.Dao.Enqueue.{conflicts, new_row, propose, insert, statement}
use service_jobs.Core.Validate.{Validator}
use service_jobs.Core.Job.{job_to_core}
use service_jobs.Core.Enqueue.{
  JobEnqueueRequest, is_valid, payload_or, to_dao, exec, conclude, fingerprint_of,
}
use service_jobs.Invariant.Exec.{IsHealthy, run_query-healthy}

-- One attempt for a zero.
abbrev pub cap : ℕ → ℕ
cap n = if n == 0 then 1 else n

kind_named :
    (v : Validator) (r : JobEnqueueRequest) → is_valid v r ≡ true → str_eq r.kind "" ≡ false
unfolding is_valid
kind_named v r valid = elim (Bool-cases (str_eq r.kind "")) [
  | inr other ↦ other
  | inl empty ↦
      let required : v.required_text r.kind ≡ true = ground arith in
      absurd ((v.required_text_iff r.kind).0 required ((eq_iff r.kind "").0 empty))
]

new_row-checks :
    (clock : Readings) (q : Dao.JobEnqueueRequest) (json : Bytes) (n : ℕ)
    → str_eq q.kind "" ≡ false
    → key_check q.idempotency_key ≡ true
    → n ≤ 32767
    → satisfies_checks (new_row clock q json (cap n)) ≡ true
unfolding satisfies_checks new_row
new_row-checks clock q json n named keyed small = ground arith

module _ (v : Validator) (sha256 : Bytes → Bytes) (e : Engine) (id : ℕ) (clock : Readings)
    (r : JobEnqueueRequest) (n : ℕ) (json : Bytes) (t : Table) where
  abbrev first_row : Job
  first_row = new_row clock (to_dao sha256 id r) json (cap n)

  statement-first :
      is_valid v r ≡ true
      → r.max_attempts ≡ pos n
      → n ≤ 32767
      → e.jsonb (payload_or r.payload) ≡ some json
      → key_check r.idempotency_key ≡ true
      → find? (conflicts r.owner_id r.kind r.idempotency_key) t ≡ none
      → any (λ (x : Job). x.id == id) t ≡ false
      → statement e clock (to_dao sha256 id r) t ≡ ok (first_row, t ++ first_row ∷ [])
  unfolding statement propose to_dao new_row
  statement-first valid capped small stored keyed free fresh =
      let pass =
        new_row-checks clock (to_dao sha256 id r) json n (kind_named v r valid) keyed small in
      rw (stored, capped) (rw (pass) (rw (free, fresh) refl))

-- The row that comes back under the minted id is a created job.
pub conclude-created :
    (id : ℕ) (fingerprint : Bytes) (j : Job)
    → j.id ≡ id
    → conclude id fingerprint (ok j) ≡ ok (record { job = job_to_core j; created = true })
conclude-created id fingerprint j same =
    let own : (j.id == id) ≡ true = (==_iff j.id id).1 same in rw own refl

first_row-id :
    (sha256 : Bytes → Bytes) (id : ℕ) (clock : Readings) (r : JobEnqueueRequest) (n : ℕ)
    (json : Bytes)
    → (new_row clock (to_dao sha256 id r) json (cap n)).id ≡ id
unfolding to_dao new_row
first_row-id sha256 id clock r n json = refl

pub enqueue_records :
    (v : Validator) (sha256 : Bytes → Bytes) (e : Engine) (id : ℕ) (c : Call)
    (r : JobEnqueueRequest) (n : ℕ) (json : Bytes) (t : Table)
    → is_valid v r ≡ true
    → r.max_attempts ≡ pos n
    → n ≤ 32767
    → e.jsonb (payload_or r.payload) ≡ some json
    → key_check r.idempotency_key ≡ true
    → find? (conflicts r.owner_id r.kind r.idempotency_key) t ≡ none
    → any (λ (x : Job). x.id == id) t ≡ false
    → IsHealthy c
    → let row = new_row c.clock (to_dao sha256 id r) json (cap n) in
      exec v sha256 e (ok id) c r t
      ≡ (ok (record { job = job_to_core row; created = true }), t ++ row ∷ [])
unfolding exec Dao.exec
enqueue_records v sha256 e id c r n json t valid capped small stored keyed free fresh h =
    let row = new_row c.clock (to_dao sha256 id r) json (cap n) in
    let said =
      conclude-created id (fingerprint_of sha256 r.payload) row
        (first_row-id sha256 id c.clock r n json) in
    rw valid (
      rw
        (
          run_query-healthy c (statement e c.clock (to_dao sha256 id r)) query_error t row
              (t ++ row ∷ []) h
              (statement-first v sha256 e id c.clock r n json t valid capped small stored keyed free
                fresh),
          said,
        )
        refl)
