-- ===== src/Server/Work.antt =====
-- The work of one job through the RPCs of one process: a worker claims it and reports a success, and
-- its owner reads it (cmd/grpc/main.go with internal/handlers/grpc.jobClaim.go, grpc.jobSettle.go and
-- grpc.jobGet.go).
mod Rows
use mathlib.Core.List.Memᴰ
use text.Mathlib.TextPositions.{eq_refl}
use service_jobs.Prelude.{
  ℕ, ◌+◌, ◌≡◌, ◌≤◌, refl, ap, true, false, none, some, String, length, map, filter, arith, List,
  Memᴰ, inl, sym,
}
use service_jobs.Prelude.Int.{ℤ, pos}
use service_jobs.Errors.{Result, ok}
use service_jobs.Dao.Job.{Job, RawMessage, is_pending}
use service_jobs.Dao.Job as DaoJob
use service_jobs.Dao.Table.{Table, to_jsonb}
use service_jobs.Dao.Exec.{Call}
use service_jobs.Dao.Claim.{kind_in, is_claimable, claim_row, chosen, claimable}
use service_jobs.Dao.Settle.{settle_row, holds}
use service_jobs.Core.Claim as Claim
use service_jobs.Core.Settle as Settle
use service_jobs.Core.Settle.{to_settle}
use service_jobs.Core.Get as Get
use service_jobs.Core.Job as CoreJob
use service_jobs.Core.Job.{job_to_core}
use service_jobs.Handlers.Job.{ProtoJob, job_to_proto, succeeded, answered}
use service_jobs.Handlers.Claim.{JobClaimRequest, to_core, to_response, job_claim}
use service_jobs.Handlers.Settle.{JobSettleRequest, job_settle, result}
use service_jobs.Handlers.Get.{job_get}
use service_jobs.Invariant.{IsWellFormed}
use service_jobs.Invariant.Exec.{IsHealthy}
use service_jobs.Invariant.Retry.{success-keeps}
use service_jobs.Invariant.Services.{claim-keeps}
use service_jobs.Invariant.Chosen.{mem-filter_of}
use service_jobs.Invariant.Written.{mem-written_new}
use service_jobs.Settling.{IsHealthySession}
use service_jobs.Settling.Held.{settle_decides}
use service_jobs.Claims.{batch, claimed_table, exec-batch}
use service_jobs.Claims.Whole.{chosen-whole}
use service_jobs.Reading.{get_shows}
use service_jobs.System.{job_retention_days}
use service_jobs.Server.{Process, State, handle, claim, settle, get, claimed, settled, got}
use service_jobs.Server.Work.Rows.{
  held_row, middle, report, done_row, held_row-holds, held_row-shown, done_row-shown, done_row-ids,
  held_row-claimed, claim-middle, middle-IsWellFormed,
}

module _ (p : Process) (c : Call) (r : JobClaimRequest) (n : ℕ) (s : State)
    (valid : Claim.is_valid p.service.validator (to_core r) ≡ true) (limit : r.limit ≡ pos n)
    (h : IsHealthy c) (w : IsWellFormed s.jobs) where
  claim-handled : handle p (claim r c) s ≡ (
    claimed (answered (to_response p.formats (map job_to_core (batch c (to_core r) n s.jobs)))),
    record s { jobs = middle c r n s.jobs },
  )
  unfolding handle job_claim
  claim-handled = rw (claim-middle c r n p.service.validator valid limit h s.jobs w) refl

  module _ (session : Settle.Session) (out stored : RawMessage) (j : Job)
      (reports : Settle.is_valid p.service.validator (report r out j) ≡ true)
      (hs : IsHealthySession session) (kept : to_jsonb p.service.engine out ≡ ok stored)
      (held : Memᴰ (held_row c r j) (middle c r n s.jobs)) where
    abbrev reported : Result CoreJob.Job × Table
    reported =
        Settle.exec p.service.validator p.service.engine job_retention_days session (report r out j)
          (middle c r n s.jobs)

    middle-kept : IsWellFormed (middle c r n s.jobs)
    middle-kept = middle-IsWellFormed c r n p.service.validator valid limit h s.jobs w

    abbrev done : Job
    done = done_row c r session out j stored

    settle-succeeds : (reported.0 ≡ ok (job_to_core done)) × Memᴰ done reported.1
    settle-succeeds =
        settle_decides p.service.validator p.service.engine job_retention_days session
          (report r out j) (middle c r n s.jobs) (held_row c r j) stored none reports middle-kept hs
          tt kept refl held (held_row-holds c r j)

    settle-handled :
        p.formats.uuid_parse (p.formats.uuid_string j.id) ≡ ok j.id
        → handle p
            (settle
              (record {
                id = p.formats.uuid_string j.id;
                worker_id = r.worker_id;
                outcome = result out;
              })
              session)
            (record s { jobs = middle c r n s.jobs })
          ≡ (
            settled (answered (record { job = job_to_proto p.formats (job_to_core done) })),
            record s { jobs = reported.1 },
          )
    unfolding handle job_settle
    settle-handled printed = rw (printed, settle-succeeds.0) refl

    read-handled :
        (c' : Call) (owner : String)
        → p.formats.uuid_parse (p.formats.uuid_string j.id) ≡ ok j.id
        → p.formats.uuid_parse owner ≡ ok j.owner_id
        → Get.is_valid p.service.validator (record { id = j.id; owner_id = j.owner_id }) ≡ true
        → IsHealthy c'
        → handle p
            (get (record { id = p.formats.uuid_string j.id; owner_id = owner }) c')
            (record s { jobs = reported.1 })
          ≡ (
            got (answered (record { job = job_to_proto p.formats (job_to_core done) })),
            record s { jobs = reported.1 },
          )
    unfolding handle
    read-handled c' owner printed owned asks h' =
        let (same, own) = done_row-ids c r j session out stored in
        let w' =
          success-keeps p.service.validator p.service.engine job_retention_days session
            (report r out j) (middle c r n s.jobs) refl middle-kept in
        rw
          (get_shows p.formats p.service.validator c'
            (record { id = p.formats.uuid_string j.id; owner_id = owner }) j.id j.owner_id
            reported.1 done printed owned asks h' w' settle-succeeds.1 same own)
          refl

-- The work of a job reaches its owner. On a well-formed table let a job wait that is due, not locked
-- and of a kind that a valid claim asks for, with room for every row; let the claiming worker then
-- report a success with JSON in it, and the owner read the job under a readable owner id, the ids
-- being parsed from their printed forms; and let the database answer each call. Then the claim is
-- answered with a batch that holds the job, its run counted; the report is answered with the job
-- succeeded, with the result as it is stored; and the read is answered with that same job.
pub work_reaches_owner :
    (p : Process) (c c' : Call) (session : Settle.Session) (r : JobClaimRequest) (owner : String)
    (out stored : RawMessage) (j : Job) (s : State) (n : ℕ)
    → IsWellFormed s.jobs
    → Memᴰ j s.jobs
    → is_pending j.status ≡ true
    → kind_in r.kinds j.kind ≡ true
    → j.run_at ≤ c.clock j.id 0
    → c.locked j.id ≡ false
    → r.limit ≡ pos n
    → length s.jobs ≤ n
    → Claim.is_valid p.service.validator (to_core r) ≡ true
    → Settle.is_valid p.service.validator
        (record { id = j.id; worker_id = r.worker_id; result = out; failure = none })
      ≡ true
    → Get.is_valid p.service.validator (record { id = j.id; owner_id = j.owner_id }) ≡ true
    → to_jsonb p.service.engine out ≡ ok stored
    → p.formats.uuid_parse (p.formats.uuid_string j.id) ≡ ok j.id
    → p.formats.uuid_parse owner ≡ ok j.owner_id
    → IsHealthy c
    → IsHealthySession session
    → IsHealthy c'
    → let id = p.formats.uuid_string j.id in
      let success : JobSettleRequest = record {
        id = id;
        worker_id = r.worker_id;
        outcome = result out;
      } in
      let (given, s₁) = handle p (claim r c) s in
      let (answer, s₂) = handle p (settle success session) s₁ in
      let (seen, s₃) = handle p (get (record { id = id; owner_id = owner }) c') s₂ in
      (jobs : List ProtoJob) × (run done : ProtoJob) × (given
        ≡ claimed (answered (record { jobs = jobs })))
      × Memᴰ run jobs
      × (run.id ≡ id)
      × (run.payload ≡ j.payload)
      × (run.attempt ≡ j.attempt + 1)
      × (answer ≡ settled (answered (record { job = done })))
      × (done.id ≡ id)
      × (done.status ≡ succeeded)
      × (done.result ≡ stored)
      × (done.attempt ≡ j.attempt + 1)
      × (seen ≡ got (answered (record { job = done })))
work_reaches_owner p c c' session r owner out stored j s n w m waits wanted due free limit room
      valid reports asks kept printed owned h hs h' =
    let (held, given) = held_row-claimed c r n s.jobs j room m waits wanted due free in
    let first = claim-handled p c r n s valid limit h w in
    let second =
      settle-handled p c r n s valid limit h w session out stored j reports hs kept held printed in
    let third =
      read-handled p c r n s valid limit h w session out stored j reports hs kept held c' owner
        printed owned asks h' in
    let run = held_row-shown c r j p.formats in
    let ended = done_row-shown c r j session out stored p.formats in
    (
      _,
      job_to_proto p.formats (job_to_core (held_row c r j)),
      job_to_proto p.formats (job_to_core (done_row c r session out j stored)),
      ap (λ a. a.0) first,
      Memᴰ.map (job_to_proto p.formats) (Memᴰ.map job_to_core given),
      run.0,
      run.1,
      run.2,
      rw first (ap (λ a. a.0) second),
      ended.0,
      ended.1,
      ended.2,
      ended.3,
      rw (first, second) (ap (λ a. a.0) third),
    )
