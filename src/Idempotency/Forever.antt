-- ===== src/Idempotency/Forever.antt =====
-- Enqueueing again under an idempotency key after any run of the service
-- (internal/core/jobEnqueue.go, internal/dao/pg.jobEnqueue.sql).
use service_jobs.Prelude.{
  ℕ, Bool, true, ◌≡◌, ◌≢◌, refl, ◌∙◌, sym, ap, some, String, Memᴰ, find?, arith, eq_iff,
}
use service_jobs.Errors.{ok}
use service_jobs.Dao.Job.{Job}
use service_jobs.Dao.Table.{Table}
use service_jobs.Dao.Exec.{Call, query_error}
use service_jobs.Dao.Enqueue as Dao
use service_jobs.Dao.Enqueue.{conflicts, new_row, insert, statement, propose}
use service_jobs.Core.Enqueue.{JobEnqueueRequest, is_valid, fingerprint_of, to_dao, exec}
use service_jobs.Invariant.{IsWellFormed}
use service_jobs.Invariant.Exec.{IsHealthy, run_query-healthy}
use service_jobs.Invariant.Insert.{propose-eq_ok}
use service_jobs.Unordered.Lists.{find?-some, find?-mem}
use service_jobs.Unordered.Unique.{IsUnique-conflicts}
use service_jobs.Idempotency.{attached, conclude-attached, same_key_self}
use service_jobs.Idempotency.Kept.{Submission, SameJob}
use service_jobs.Idempotency.Steps.{AllRetained, steps-Recorded}
use service_jobs.System.{Service, Steps, Steps-keeps}

-- In a well-formed table the search for a key finds the row that has it.
conflicts-found :
    (owner : ℕ) (kind key : String) (t : Table) (k : Job)
    → IsWellFormed t
    → Memᴰ k t
    → k.owner_id ≡ owner
    → k.kind ≡ kind
    → k.idempotency_key ≡ some key
    → find? (conflicts owner kind (some key)) t ≡ some k
conflicts-found owner kind key t k w m its_owner its_kind its_key =
    let p : Job → Bool = conflicts owner kind (some key) in
    let hit : p k ≡ true = rw its_key (ground (arith, eq_iff k.kind kind, same_key_self key)) in
    let (b, found) = find?-mem p t k m hit in
    let (mb, hit_b) = find?-some p t b found in
    found ∙ ap some (IsUnique-conflicts owner kind (some key) t w.keys_differ b k mb m hit_b hit)

-- The statement answers an accepted proposal under the key of a row with that row.
statement-attached :
    (x : Service) (c : Call) (r : Dao.JobEnqueueRequest) (key : String) (row : Job) (t : Table)
    (k : Job)
    → propose x.engine c.clock r ≡ ok row
    → r.idempotency_key ≡ some key
    → find? (conflicts r.owner_id r.kind (some key)) t ≡ some k
    → statement x.engine c.clock r t ≡ ok (k, t)
unfolding statement new_row
statement-attached x c r key row t k accepted keyed found =
    let (payload, n, it, _, _) = propose-eq_ok x.engine c.clock r row accepted in
    rw (accepted, it, keyed, found) refl

-- Let a job be recorded under an owner, a kind and an idempotency key. Whatever the service does
-- afterwards, as long as no purge finds the job expired, the table has one state of that job, with
-- what its submission wrote; and a valid enqueue under the owner, kind and key, with a fresh id, a
-- proposal that the database accepts and a call that the driver answers, records nothing: it reports
-- that job, as not created, or the conflict if its fingerprint is another.
pub key_forever :
    (x : Service) (t u : Table) (path : Steps x t u) (j : Job) (key : String) (c : Call)
    (r : JobEnqueueRequest) (id : ℕ) (row : Job)
    → IsWellFormed t
    → Memᴰ j t
    → AllRetained x j.id path
    → j.owner_id ≡ r.owner_id
    → j.kind ≡ r.kind
    → j.idempotency_key ≡ some key
    → r.idempotency_key ≡ some key
    → is_valid x.validator r ≡ true
    → IsHealthy c
    → propose x.engine c.clock (to_dao x.sha256 id r) ≡ ok row
    → j.id ≢ id
    → (k : Job) × Memᴰ k u
      × SameJob j k
      × (exec x.validator x.sha256 x.engine (ok id) c r u
          ≡ (attached (fingerprint_of x.sha256 r.payload) k, u))
unfolding exec Dao.exec to_dao
key_forever x t u path j key c r id row w m kept owner kind its_key keyed valid healthy accepted
      other =
    let (k, there, same) = steps-Recorded x j path kept (j, m, refl) in
    let found =
      conflicts-found r.owner_id r.kind key u k (Steps-keeps x path w) there
        (ap (λ (s : Submission). s.owner_id) same ∙ owner)
        (ap (λ (s : Submission). s.kind) same ∙ kind)
        (ap (λ (s : Submission). s.idempotency_key) same ∙ its_key) in
    let same_id : k.id ≡ j.id = ap (λ (s : Submission). s.id) same in
    let fresh : k.id ≢ id = λ e. other (sym same_id ∙ e) in
    let answered = statement-attached x c (to_dao x.sha256 id r) key row u k accepted keyed found in
    (
      k,
      there,
      same,
      rw valid (
          rw
            (run_query-healthy c (statement x.engine c.clock (to_dao x.sha256 id r)) query_error u k
              u healthy answered)
            (rw (conclude-attached id (fingerprint_of x.sha256 r.payload) k fresh) refl)),
    )
