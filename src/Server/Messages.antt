-- ===== src/Server/Messages.antt =====
-- The error statuses that callers see (cmd/grpc/main.go with the handlers of internal/handlers).
use mathlib.Core.List.Memᴰ
use service_jobs.Prelude.{
  List, [], ◌∷◌, ◌++◌, map, Option, none, some, refl, Memᴰ, All, All-of_mem, Bool-cases, inl, inr,
}
use service_jobs.Errors.{
  GoError, Result, ok, err, errors_is, invalid_request, job_not_found, job_conflict,
  job_not_claimed, Result-cases,
}
use service_jobs.Core.Job as CoreJob
use service_jobs.Dao.Job.{JobStatus}
use service_jobs.Core.Get as Core
use service_jobs.Handlers.Job.{
  Formats, Response, answered, refused, RpcError, internal, not_found, already_exists,
  failed_precondition, invalid_arg, map_job_error, respond,
}
use service_jobs.Handlers.Get.{GetService, JobGetRequest, job_get}
use service_jobs.Handlers.Enqueue.{EnqueueService, JobEnqueueRequest, job_enqueue, out_of_range}
use service_jobs.Handlers.Claim.{ClaimService, JobClaimRequest, job_claim}
use service_jobs.Handlers.Settle.{SettleService, JobSettleRequest, job_settle}
use service_jobs.Handlers.Watch.{
  JobWatchRequest, Round, Wake, WatchEnd, polling, finished, broken, is_news, last_sent, round,
  after_send, watch_loop, job_watch, is_terminal_status,
}
use service_jobs.Server.{
  Process, State, Rpc, Reply, status_reply, enqueued, got, claimed, settled, watched, handle,
}

-- What a handler returns as its error: a status, or an error that is none.
pub data Failure : Type 0 where
  status_error : RpcError → Failure
  raw_error : GoError → Failure

abbrev pub refusals : {A : Type 0} → Response A → List Failure
refusals (answered a) = []
refusals (refused e) = status_error e ∷ []

abbrev pub end_refusals : WatchEnd → List Failure
end_refusals polling = []
end_refusals finished = []
end_refusals (WatchEnd.refused e) = status_error e ∷ []
end_refusals (broken e) = raw_error e ∷ []

-- The error in a reply, if there is one.
abbrev pub reply_refusals : Reply → List Failure
reply_refusals (status_reply r) = []
reply_refusals (enqueued r) = refusals r
reply_refusals (got r) = refusals r
reply_refusals (claimed r) = refusals r
reply_refusals (settled r) = refusals r
reply_refusals (watched sent end) = end_refusals end

-- The statuses that the service has words for.
abbrev mapped_errors : List RpcError
mapped_errors =
    invalid_arg "invalid request"
    ∷ record { code = not_found; message = "job not found" }
    ∷ record { code = already_exists; message = "idempotency key reused for a different request" }
    ∷ record { code = failed_precondition; message = "job not claimed by this worker" }
    ∷ record { code = internal; message = "internal error" }
    ∷ []

abbrev argument_errors : List RpcError
argument_errors =
    invalid_arg "invalid job id"
    ∷ invalid_arg "invalid owner id"
    ∷ invalid_arg "invalid max attempts"
    ∷ []

abbrev pub own_errors : List Failure
own_errors = map status_error (argument_errors ++ mapped_errors)

map_job_error-mapped : (e : GoError) → Memᴰ (map_job_error e) mapped_errors
unfolding map_job_error
map_job_error-mapped e = elim (Bool-cases (errors_is e invalid_request)) [
  | inl a ↦ rw a (Memᴰ.head refl)
  | inr a ↦ elim (Bool-cases (errors_is e job_not_found)) [
    | inl b ↦ rw (a, b) (Memᴰ.tail (Memᴰ.head refl))
    | inr b ↦ elim (Bool-cases (errors_is e job_conflict)) [
      | inl c ↦ rw (a, b, c) (Memᴰ.tail (Memᴰ.tail (Memᴰ.head refl)))
      | inr c ↦ elim (Bool-cases (errors_is e job_not_claimed)) [
        | inl d ↦ rw (a, b, c, d) (Memᴰ.tail (Memᴰ.tail (Memᴰ.tail (Memᴰ.head refl))))
        | inr d ↦ rw (a, b, c, d) (Memᴰ.tail (Memᴰ.tail (Memᴰ.tail (Memᴰ.tail (Memᴰ.head refl)))))
      ]
    ]
  ]
]

-- The status of a context that ended, where that is what woke a watch.
abbrev pub wake_errors : Wake → List Failure
wake_errors Wake.tick = []
wake_errors (Wake.done e) = status_error e ∷ []

-- The error of the stream's Send.
abbrev pub send_errors : Option GoError → List Failure
send_errors none = []
send_errors (some e) = raw_error e ∷ []

abbrev pub round_errors : {S : Type 0} → List (Round S) → List Failure
round_errors [] = []
round_errors (x ∷ xs) = (send_errors x.send_failed ++ wake_errors x.wake) ++ round_errors xs

-- What a call's own stream and context can contribute.
abbrev pub context_errors : Rpc → List Failure
context_errors (Rpc.status_rpc h asked stored c) = []
context_errors (Rpc.enqueue r minted c) = []
context_errors (Rpc.get r c) = []
context_errors (Rpc.claim r c) = []
context_errors (Rpc.settle r session) = []
context_errors (Rpc.watch r c rounds) = round_errors rounds

-- A predicate of the statuses that the service has words for.
module _ (P : Failure → Type 0) (own : (e : Failure) → Memᴰ e own_errors → P e) where
  mapped : (e : GoError) → P (status_error (map_job_error e))
  mapped e =
      own _ (Memᴰ.map status_error (Memᴰ.append_right argument_errors (map_job_error-mapped e)))

  bad_job : P (status_error (invalid_arg "invalid job id"))
  bad_job = own _ (Memᴰ.head refl)

  bad_owner : P (status_error (invalid_arg "invalid owner id"))
  bad_owner = own _ (Memᴰ.tail (Memᴰ.head refl))

  bad_attempts : P (status_error (invalid_arg "invalid max attempts"))
  bad_attempts = own _ (Memᴰ.tail (Memᴰ.tail (Memᴰ.head refl)))

  respond-worded : {A B : Type 0} (f : A → B) (r : Result A) → All P (refusals (respond f r))
  respond-worded f (ok a) = tt
  respond-worded f (err e) = (mapped e, tt)

  after_send-worded :
      (job : CoreJob.Job) (wake : Wake) (rest : List _ × WatchEnd)
      → All P (wake_errors wake)
      → All P (end_refusals rest.1)
      → All P (end_refusals (after_send job wake rest).1)
  unfolding after_send
  after_send-worded job Wake.tick rest w h = elim (Bool-cases (is_terminal_status job.status)) [
    | inl over ↦ rw over tt
    | inr runs ↦ rw runs h
  ]
  after_send-worded job (Wake.done e) rest w h = elim (Bool-cases (is_terminal_status job.status)) [
    | inl over ↦ rw over tt
    | inr runs ↦ rw runs w
  ]

  round-worded :
      (f : Formats) (r : Result CoreJob.Job) (send_failed : Option GoError) (wake : Wake)
      (last : Option JobStatus) (rest : List _ × WatchEnd)
      → All P (send_errors send_failed)
      → All P (wake_errors wake)
      → All P (end_refusals rest.1)
      → All P (end_refusals (round f r send_failed wake last rest).1)
  unfolding round
  round-worded f (err e) send_failed wake last rest x w h = (mapped e, tt)
  round-worded f (ok job) (some e) wake last rest x w h =
      elim (Bool-cases (is_news last job.status)) [
        | inl news ↦ rw news x
        | inr old ↦ rw old (after_send-worded job wake rest w h)
      ]
  round-worded f (ok job) none wake last rest x w h = elim (Bool-cases (is_news last job.status)) [
    | inl news ↦ rw news (after_send-worded job wake rest w h)
    | inr old ↦ rw old (after_send-worded job wake rest w h)
  ]

  loop-worded :
      {S : Type 0} (f : Formats) (service : GetService S) (r : Core.JobGetRequest)
      (xs : List (Round S)) (last : Option JobStatus)
      → ((e : Failure) → Memᴰ e (round_errors xs) → P e)
      → All P (end_refusals (watch_loop f service r xs last).1)
  unfolding watch_loop
  loop-worded f service r [] last out = tt
  loop-worded f service r (x ∷ xs) last out =
      let job = (service r x.state).0 in
      let rest =
        loop-worded f service r xs (last_sent job last)
          (λ e m. out e (Memᴰ.append_right (send_errors x.send_failed ++ wake_errors x.wake) m)) in
      let now : (e : Failure) → Memᴰ e (send_errors x.send_failed ++ wake_errors x.wake) → P e =
        λ e m. out e (Memᴰ.append_left (round_errors xs) m) in
      let sent =
        All-of_mem P (send_errors x.send_failed)
          (λ e m. now e (Memᴰ.append_left (wake_errors x.wake) m)) in
      let woken =
        All-of_mem P (wake_errors x.wake)
          (λ e m. now e (Memᴰ.append_right (send_errors x.send_failed) m)) in
      round-worded f job x.send_failed x.wake last _ sent woken rest

  watch-worded :
      {S : Type 0} (f : Formats) (service : GetService S) (r : JobWatchRequest)
      (xs : List (Round S))
      → ((e : Failure) → Memᴰ e (round_errors xs) → P e)
      → All P (end_refusals (job_watch f service r xs).1)
  unfolding job_watch
  watch-worded f service r xs out = elim (Result-cases (f.uuid_parse r.id)) [
    | inl (e, bad) ↦ rw bad (bad_job, tt)
    | inr (id, good) ↦ elim (Result-cases (f.uuid_parse r.owner_id)) [
      | inl (e, bad) ↦ rw (good, bad) (bad_owner, tt)
      | inr (owner, fine) ↦
          rw (good, fine) (loop-worded f service (record { id = id; owner_id = owner }) xs none out)
    ]
  ]

  module _ {S : Type 0} (f : Formats) (s : S) where
    enqueue-worded :
        (service : EnqueueService S) (r : JobEnqueueRequest)
        → All P (refusals (job_enqueue f service r s).0)
    unfolding job_enqueue
    enqueue-worded service r = elim (Result-cases (f.uuid_parse r.owner_id)) [
      | inl (e, bad) ↦ rw bad (bad_owner, tt)
      | inr (owner, good) ↦ elim (Bool-cases (out_of_range r.max_attempts)) [
        | inl out ↦ rw (good, out) (bad_attempts, tt)
        | inr fits ↦ rw (good, fits) (respond-worded _ _)
      ]
    ]

    get-worded :
        (service : GetService S) (r : JobGetRequest) → All P (refusals (job_get f service r s).0)
    unfolding job_get
    get-worded service r = elim (Result-cases (f.uuid_parse r.id)) [
      | inl (e, bad) ↦ rw bad (bad_job, tt)
      | inr (id, good) ↦ elim (Result-cases (f.uuid_parse r.owner_id)) [
        | inl (e, bad) ↦ rw (good, bad) (bad_owner, tt)
        | inr (owner, fine) ↦ rw (good, fine) (respond-worded _ _)
      ]
    ]

    claim-worded :
        (service : ClaimService S) (r : JobClaimRequest)
        → All P (refusals (job_claim f service r s).0)
    unfolding job_claim
    claim-worded service r = respond-worded _ _

    settle-worded :
        (service : SettleService S) (r : JobSettleRequest)
        → All P (refusals (job_settle f service r s).0)
    unfolding job_settle
    settle-worded service r = elim (Result-cases (f.uuid_parse r.id)) [
      | inl (e, bad) ↦ rw bad (bad_job, tt)
      | inr (id, good) ↦ rw good (respond-worded _ _)
    ]

  handle-worded :
      (p : Process) (m : Rpc) (s : State)
      → ((e : Failure) → Memᴰ e (context_errors m) → P e)
      → All P (reply_refusals (handle p m s).0)
  unfolding handle
  handle-worded p (Rpc.status_rpc h asked stored c) s out = tt
  handle-worded p (Rpc.enqueue r minted c) s out = enqueue-worded p.formats s.jobs _ r
  handle-worded p (Rpc.get r c) s out = get-worded p.formats s.jobs _ r
  handle-worded p (Rpc.claim r c) s out = claim-worded p.formats s.jobs _ r
  handle-worded p (Rpc.settle r session) s out = settle-worded p.formats s.jobs _ r
  handle-worded p (Rpc.watch r c rounds) s out = watch-worded p.formats _ r rounds out

-- Whatever goes wrong underneath, each error that an RPC returns is a status that the service has words
-- for, so no text of an error of the store, the driver or a parser reaches a caller. A watch may also
-- return the error of its own stream's Send, which is no status, or the status of its own call's
-- context.
pub refusals_worded :
    (p : Process) (m : Rpc) (s : State)
    → All (λ e. Memᴰ e (own_errors ++ context_errors m)) (reply_refusals (handle p m s).0)
refusals_worded p m s =
    handle-worded (λ e. Memᴰ e (own_errors ++ context_errors m))
      (λ e h. Memᴰ.append_left (context_errors m) h) p m s (λ e h. Memᴰ.append_right own_errors h)
