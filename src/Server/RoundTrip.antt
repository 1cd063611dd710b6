-- ===== src/Server/RoundTrip.antt =====
-- A submission and the read that follows it, through the RPCs of one process (cmd/grpc/main.go with
-- internal/handlers/grpc.jobEnqueue.go and grpc.jobGet.go).
use service_jobs.Prelude.{
  ℕ, List, ◌≡◌, ◌≢◌, ◌<◌, refl, ap, true, false, none, some, find?, any, arith, ◌∷◌, [], ◌++◌, Memᴰ,
  ◌==◌,
}
use service_jobs.Prelude.Int.{pos}
use service_jobs.Errors.{ok}
use service_jobs.Dao.Job.{Job, Bytes}
use service_jobs.Dao.Table.{key_check}
use service_jobs.Dao.Exec.{Call}
use service_jobs.Dao.Enqueue.{conflicts, new_row}
use service_jobs.Core.Validate.{Validator}
use service_jobs.Core.Enqueue as Core
use service_jobs.Core.Get as CoreGet
use service_jobs.Core.Job.{job_to_core}
use service_jobs.Handlers.Job.{ProtoJob, pending, job_to_proto, answered}
use service_jobs.Handlers.Enqueue.{JobEnqueueRequest, to_core, out_of_range, job_enqueue}
use service_jobs.Invariant.{IsWellFormed}
use service_jobs.Invariant.Exec.{IsHealthy}
use service_jobs.Invariant.Services.{enqueue-keeps}
use service_jobs.Idempotency.First.{enqueue_records, cap}
use service_jobs.Reading.{get_shows, cap-fits}
use service_jobs.Server.{Process, State, enqueue, get, handle, enqueued, got}

mem-last : (t : List Job) (j : Job) → Memᴰ j (t ++ j ∷ [])
mem-last [] j = Memᴰ.head refl
mem-last (x ∷ xs) j = Memᴰ.tail (mem-last xs j)

to_core-cap :
    (r : JobEnqueueRequest) (owner n : ℕ)
    → r.max_attempts ≡ pos n
    → n < 32768
    → (to_core r owner).max_attempts ≡ pos n
unfolding to_core
to_core-cap r owner n capped small = rw capped (cap-fits n small)

enqueue-owner :
    (v : Validator) (r : JobEnqueueRequest) (owner : ℕ)
    → Core.is_valid v (to_core r owner) ≡ true
    → v.required_id owner ≡ true
unfolding Core.is_valid to_core
enqueue-owner v r owner valid = ground arith

read-valid :
    (v : Validator) (id owner : ℕ)
    → id ≢ 0
    → v.required_id owner ≡ true
    → CoreGet.is_valid v (record { id = id; owner_id = owner }) ≡ true
unfolding CoreGet.is_valid
read-valid v id owner named owned = rw ((v.required_id_iff id).1 named) owned

module _ (p : Process) (c : Call) (r : JobEnqueueRequest) (owner id n : ℕ) (json : Bytes)
    (s : State) (parsed : p.formats.uuid_parse r.owner_id ≡ ok owner)
    (capped : r.max_attempts ≡ pos n) (small : n < 32768) where
  abbrev row : Job
  row = new_row c.clock (Core.to_dao p.service.sha256 id (to_core r owner)) json (cap n)

  -- The fields that a reader sees of a row just recorded.
  row-shown :
      let job = job_to_proto p.formats (job_to_core row) in
      (job.id ≡ p.formats.uuid_string id)
      × (job.kind ≡ r.kind)
      × (job.payload ≡ json)
      × (job.status ≡ pending)
  unfolding job_to_proto job_to_core new_row to_core Core.to_dao
  row-shown = (refl, refl, refl, refl)

  row-ids : (row.id ≡ id) × (row.owner_id ≡ owner)
  unfolding new_row to_core Core.to_dao
  row-ids = (refl, refl)

  module _ (valid : Core.is_valid p.service.validator (to_core r owner) ≡ true)
      (stored : p.service.engine.jsonb (Core.payload_or r.payload) ≡ some json)
      (keyed : key_check r.idempotency_key ≡ true)
      (free : find? (conflicts owner r.kind r.idempotency_key) s.jobs ≡ none)
      (fresh : any (λ (x : Job). x.id == id) s.jobs ≡ false) (h : IsHealthy c) where
    service-records :
        Core.exec p.service.validator p.service.sha256 p.service.engine
          (ok id)
          c
          (to_core r owner)
          s.jobs
        ≡ (ok (record { job = job_to_core row; created = true }), s.jobs ++ row ∷ [])
    unfolding to_core
    service-records =
        enqueue_records p.service.validator p.service.sha256 p.service.engine id c (to_core r owner)
          n json s.jobs valid (to_core-cap r owner n capped small) (omega arith) stored keyed free
          fresh h

    submission-recorded : handle p (enqueue r (ok id) c) s ≡ (
      enqueued
          (answered (record { job = job_to_proto p.formats (job_to_core row); created = true })),
      record s { jobs = s.jobs ++ row ∷ [] },
    )
    unfolding handle job_enqueue
    submission-recorded =
        let fits : out_of_range r.max_attempts ≡ false = rw capped (ground arith) in
        rw parsed (rw (fits, service-records) refl)

    submission-keeps : IsWellFormed s.jobs → IsWellFormed (s.jobs ++ row ∷ [])
    submission-keeps w = rw (ap (λ a. a.1) service-records) at (
        enqueue-keeps s.jobs w c p.service.validator p.service.sha256 p.service.engine (ok id)
          (to_core r owner))

    read-back :
        (c' : Call)
        → p.formats.uuid_parse (p.formats.uuid_string id) ≡ ok id
        → id ≢ 0
        → IsWellFormed s.jobs
        → IsHealthy c'
        → let job = job_to_proto p.formats (job_to_core row) in
          let s' = record s { jobs = s.jobs ++ row ∷ [] } in
          handle p (get (record { id = job.id; owner_id = r.owner_id }) c') s'
          ≡ (got (answered (record { job = job })), s')
    unfolding handle
    read-back c' printed named w h' =
        let job = job_to_proto p.formats (job_to_core row) in
        let readable : p.formats.uuid_parse job.id ≡ ok id = rw row-shown.0 printed in
        let asks =
          read-valid p.service.validator id owner named
            (enqueue-owner p.service.validator r owner valid) in
        rw
          (get_shows p.formats p.service.validator c'
            (record { id = job.id; owner_id = r.owner_id }) id owner (s.jobs ++ row ∷ []) row
            readable parsed asks h' (submission-keeps w) (mem-last s.jobs row) row-ids.0 row-ids.1)
          refl

-- What a submission answers with can be read back. Let a caller submit a job under a readable owner id,
-- with a cap that fits 16 bits, a valid request, a payload in JSON and a key that is not empty and
-- that no job of the owner and kind has, on a well-formed table; let the minted id be a new one, not
-- the zero id, and be parsed from its printed form; and let the driver answer. Then the submission is
-- answered with a created job of that kind and payload, pending, and a read by the answered id and
-- the same owner is answered with that very job and changes nothing.
pub submit_then_read :
    (p : Process) (c c' : Call) (r : JobEnqueueRequest) (owner id n : ℕ) (json : Bytes) (s : State)
    → p.formats.uuid_parse r.owner_id ≡ ok owner
    → r.max_attempts ≡ pos n
    → n < 32768
    → Core.is_valid p.service.validator (to_core r owner) ≡ true
    → p.service.engine.jsonb (Core.payload_or r.payload) ≡ some json
    → key_check r.idempotency_key ≡ true
    → find? (conflicts owner r.kind r.idempotency_key) s.jobs ≡ none
    → any (λ (x : Job). x.id == id) s.jobs ≡ false
    → id ≢ 0
    → p.formats.uuid_parse (p.formats.uuid_string id) ≡ ok id
    → IsWellFormed s.jobs
    → IsHealthy c
    → IsHealthy c'
    → let (reply, s') = handle p (enqueue r (ok id) c) s in
      (job : ProtoJob) × (reply ≡ enqueued (answered (record { job = job; created = true })))
      × (job.kind ≡ r.kind)
      × (job.payload ≡ json)
      × (job.status ≡ pending)
      × (handle p (get (record { id = job.id; owner_id = r.owner_id }) c') s'
          ≡ (got (answered (record { job = job })), s'))
submit_then_read p c c' r owner id n json s parsed capped small valid stored keyed free fresh named
      printed w h h' =
    let done =
      submission-recorded p c r owner id n json s parsed capped small valid stored keyed free fresh
        h in
    let shown = row-shown p c r owner id n json s parsed capped small in
    let again =
      read-back p c r owner id n json s parsed capped small valid stored keyed free fresh h c'
        printed named w h' in
    (_, ap (λ a. a.0) done, shown.1, shown.2, shown.3, rw done again)
