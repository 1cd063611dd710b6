-- ===== src/Reading.antt =====
-- Reads by an owner, and submissions whose attempt cap does not fit, through the RPCs
-- (internal/handlers/grpc.jobGet.go and grpc.jobEnqueue.go with internal/core and internal/dao).
use service_jobs.Prelude.{
  All, All-imp, All-mem, false, ◌∷◌, ℕ, ◌%◌, ◌≡◌, ◌≢◌, ◌<◌, ◌⊎◌, inl, inr, refl, true, false, [],
  Memᴰ, All-of_mem, Bool-cases, filter, arith, ltb,
}
use service_jobs.Prelude.Int.{ℤ, pos, negsuc, ◌<ℤ◌}
use service_jobs.Errors.{Result, ok}
use service_jobs.Dao.Job as DaoJob
use service_jobs.Dao.Table.{Table}
use service_jobs.Dao.Exec.{Call}
use service_jobs.Dao.Get as Dao
use service_jobs.Core.Validate.{Validator}
use service_jobs.Core.Get as Core
use service_jobs.Core.Enqueue as CoreEnqueue
use service_jobs.Handlers.Job.{
  answered, Formats, Response, refused, RpcError, not_found, map_job_error, invalid_arg, respond,
}
use service_jobs.Core.Job.{job_to_core}
use service_jobs.Invariant.{IsWellFormed, Apart, same_id}
use service_jobs.Handlers.Get.{to_response, JobGetRequest, job_get}
use service_jobs.Handlers.Enqueue.{
  EnqueueService, JobEnqueueRequest, JobEnqueueResponse, job_enqueue, to_int16, to_core,
  to_response as to_enqueue_response, out_of_range,
}
use service_jobs.Invariant.Exec.{IsHealthy, run_query-healthy}
use service_jobs.Invariant.Written.{filter_none}

abbrev pub not_found_error : RpcError
not_found_error = record { code = not_found; message = "job not found" }

-- A read by an owner who has no such job, whether the id is unknown or the job is another owner's, is
-- one and the same answer, not found, when the request is valid and the driver answers.
pub get_hides :
    (f : Formats) (v : Validator) (c : Call) (r : JobGetRequest) (id owner : ℕ) (t : Table)
    → f.uuid_parse r.id ≡ ok id
    → f.uuid_parse r.owner_id ≡ ok owner
    → Core.is_valid v (record { id = id; owner_id = owner }) ≡ true
    → IsHealthy c
    → ((j : DaoJob.Job) → Memᴰ j t → j.id ≡ id → j.owner_id ≢ owner)
    → job_get f (Core.exec v c) r t ≡ (refused not_found_error, t)
unfolding job_get Core.exec Dao.exec Dao.statement map_job_error
get_hides f v c r id owner t pid powner valid h none_owned =
    let q : Dao.JobGetRequest = record { id = id; owner_id = owner } in
    let empty : filter (Dao.owns q) t ≡ [] = filter_none (Dao.owns q) t (
      All-of_mem (λ x. Dao.owns q x ≡ false) t
        (λ x m. elim (Bool-cases (Dao.owns q x)) [
          | inr other ↦ other
          | inl found ↦ absurd (none_owned x m (ground arith) (ground arith))
        ])) in
    rw (pid, powner, valid)
      (rw (run_query-healthy c (Dao.statement q) Dao.conclude t [] t h (rw empty refl)))

-- With distinct ids, one row is the owner's under an id.
filter-owns :
    (q : Dao.JobGetRequest) (t : Table) (j : DaoJob.Job)
    → Apart same_id t
    → Memᴰ j t
    → Dao.owns q j ≡ true
    → filter (Dao.owns q) t ≡ j ∷ []
filter-owns q [] j apart m h = elim m [ ]
filter-owns q (x ∷ xs) j apart (Memᴰ.head e) h =
    let alone : All (λ y. same_id j y ≡ false) xs = rw e apart.0 in
    let others =
      All-imp (λ y. same_id j y ≡ false) (λ y. Dao.owns q y ≡ false) xs (λ y d. ground arith)
        alone in
    rw (← e) (rw (h, filter_none (Dao.owns q) xs others))
filter-owns q (x ∷ xs) j apart (Memᴰ.tail m) h = elim (Bool-cases (Dao.owns q x)) [
  | inr other ↦ rw other (filter-owns q xs j apart.1 m h)
  | inl twice ↦ absurd (ground (arith, All-mem (λ y. same_id x y ≡ false) xs apart.0 m))
]

-- The service finds the job.
pub get_finds :
    (v : Validator) (c : Call) (q : Core.JobGetRequest) (t : Table) (j : DaoJob.Job)
    → Core.is_valid v q ≡ true
    → IsHealthy c
    → IsWellFormed t
    → Memᴰ j t
    → j.id ≡ q.id
    → j.owner_id ≡ q.owner_id
    → Core.exec v c q t ≡ (ok (job_to_core j), t)
unfolding Core.exec Dao.exec Dao.statement
get_finds v c q t j valid h w m same own =
    let d : Dao.JobGetRequest = record { id = q.id; owner_id = q.owner_id } in
    let found : filter (Dao.owns d) t ≡ j ∷ [] = filter-owns d t j w.ids_differ m (ground arith) in
    rw valid
      (rw (run_query-healthy c (Dao.statement d) Dao.conclude t (j ∷ []) t h (rw found refl)))

-- A valid read by the owner of a job of a well-formed table, answered by the driver, is answered with
-- that job, and changes nothing.
pub get_shows :
    (f : Formats) (v : Validator) (c : Call) (r : JobGetRequest) (id owner : ℕ) (t : Table)
    (j : DaoJob.Job)
    → f.uuid_parse r.id ≡ ok id
    → f.uuid_parse r.owner_id ≡ ok owner
    → Core.is_valid v (record { id = id; owner_id = owner }) ≡ true
    → IsHealthy c
    → IsWellFormed t
    → Memᴰ j t
    → j.id ≡ id
    → j.owner_id ≡ owner
    → job_get f (Core.exec v c) r t ≡ (answered (to_response f (job_to_core j)), t)
unfolding job_get
get_shows f v c r id owner t j pid powner valid h w m same own =
    rw (pid, powner)
      (rw (get_finds v c (record { id = id; owner_id = owner }) t j valid h w m same own) refl)

pub cap-fits : (n : ℕ) → n < 32768 → to_int16 (pos n) ≡ pos n
unfolding to_int16
cap-fits n h = let small : n % 65536 ≡ n = omega arith in rw small (ground arith)

-- Either a cap is a number below 2 ^ 15, which the conversion keeps, or the test refuses it.
caps :
    (z : ℤ)
    → ((n : ℕ) × (n < 32768) × (z ≡ pos n) × (to_int16 z ≡ pos n) × (out_of_range z ≡ false))
      ⊎ (((z <ℤ pos 0) ⊎ (pos 32767 <ℤ z)) × (out_of_range z ≡ true))
caps (pos n) = elim (Bool-cases (ltb n 32768)) [
  | inl small ↦
      let fits : n < 32768 = ground arith in inl (n, fits, refl, cap-fits n fits, ground arith)
  | inr large ↦ inr (inr (ground arith), ground arith)
]
caps (negsuc n) = inr (inl (omega arith), ground arith)

-- What the handler makes of the service's answer.
abbrev pub answer_of :
    {S : Type 0}
    → Formats
    → Result CoreEnqueue.JobEnqueueResult × S
    → Response JobEnqueueResponse × S
answer_of f (result, s) = (respond (to_enqueue_response f) result, s)

-- A submission by a readable owner reaches the service with the very attempt cap that the caller sent,
-- a number below 2 ^ 15, and is answered with what the service says; any other cap, negative or
-- greater, is an invalid argument, and the service is not called.
pub enqueue_caps :
    {S : Type 0} (f : Formats) (service : EnqueueService S) (r : JobEnqueueRequest) (owner : ℕ)
    (s : S)
    → f.uuid_parse r.owner_id ≡ ok owner
    → ((n : ℕ) × (n < 32768)
        × (r.max_attempts ≡ pos n)
        × (job_enqueue f service r s
            ≡ answer_of f (
                service
                  (record {
                    kind = r.kind;
                    payload = r.payload;
                    owner_id = owner;
                    idempotency_key = r.idempotency_key;
                    max_attempts = pos n;
                  })
                  s)))
      ⊎ (((r.max_attempts <ℤ pos 0) ⊎ (pos 32767 <ℤ r.max_attempts))
          × (job_enqueue f service r s ≡ (refused (invalid_arg "invalid max attempts"), s)))
unfolding job_enqueue to_core
enqueue_caps f service r owner s parsed = elim (caps r.max_attempts) [
  | inl (n, small, it, kept, fits) ↦ inl (n, small, it, rw (parsed, fits, kept) refl)
  | inr (out, refuses) ↦ inr (out, rw (parsed, refuses) refl)
]
