-- ===== src/Watching.antt =====
-- What a client of JobWatch sees (internal/handlers/grpc.jobWatch.go).
pub mod Stored
use service_jobs.Prelude.{
  ℕ, ◌≡◌, refl, List, [], ◌∷◌, Option, none, some, Bool-cases, inl, inr, if◌then◌else◌, arith, map,
  not, Bool, true, ◌==◌, All,
}
use service_jobs.Errors.{ok}
use service_jobs.Dao.Job.{JobStatus, is_terminal}
use service_jobs.Core.Job as CoreJob
use service_jobs.Core.Get as Core
use service_jobs.Handlers.Get.{GetService}
use service_jobs.Handlers.Job.{Formats, job_to_proto}
use service_jobs.Handlers.Watch.{
  Round, tick, WatchEnd, polling, finished, watch_loop, is_terminal_status, job_watch,
  JobWatchRequest, is_news, status_index, after_send, round,
}

-- The statuses that a healthy stream observes, one per round, up to and with the first terminal one.
abbrev pub observed : List CoreJob.Job → List CoreJob.Job
observed [] = []
observed (j ∷ js) = if is_terminal j.status then j ∷ [] else j ∷ observed js

-- Whether a status differs from the one before, if there is one.
abbrev pub differs : Option JobStatus → JobStatus → Bool
differs none status = true
differs (some last) status = not (status_index status == status_index last)

-- Those of them whose status differs from the one before.
abbrev pub changes : Option JobStatus → List CoreJob.Job → List CoreJob.Job
changes last [] = []
changes last (j ∷ js) =
    if differs last j.status then j ∷ changes (some j.status) js else changes (some j.status) js

-- How a stream that no send broke ends: at a terminal status, or still polling.
abbrev pub ends : List CoreJob.Job → WatchEnd
ends [] = polling
ends (j ∷ js) = if is_terminal j.status then finished else ends js

is_terminal_status-is_terminal : (s : JobStatus) → is_terminal_status s ≡ is_terminal s
unfolding is_terminal_status
is_terminal_status-is_terminal s = ground arith

is_news-differs :
    (last : Option JobStatus) (status : JobStatus) → is_news last status ≡ differs last status
is_news-differs none status = refl
is_news-differs (some last) status = refl

-- A round in which the context lives and a send succeeds, with the job that its read gives.
abbrev pub calm : {S : Type 0} → S × CoreJob.Job → Round S
calm (s, j) = record { state = s; send_failed = none; wake = tick }

abbrev pub Reads : {S : Type 0} → GetService S → Core.JobGetRequest → S × CoreJob.Job → Type 0
Reads service q (s, j) = (service q s).0 ≡ ok j

abbrev pub job_of : {S : Type 0} → S × CoreJob.Job → CoreJob.Job
job_of (s, j) = j

loop-calm :
    {S : Type 0} (f : Formats) (service : GetService S) (q : Core.JobGetRequest)
    (last : Option JobStatus) (xs : List (S × CoreJob.Job))
    → All (Reads service q) xs
    → watch_loop f service q (map calm xs) last
      ≡ (map (job_to_proto f) (changes last (observed (map job_of xs))), ends (map job_of xs))
unfolding watch_loop round after_send
loop-calm f service q last [] h = refl
loop-calm f service q last ((s, j) ∷ xs) h =
    let rest = loop-calm f service q (some j.status) xs h.1 in
    let over = is_terminal_status-is_terminal j.status in
    let fresh = is_news-differs last j.status in
    elim (Bool-cases (is_terminal j.status)) [
      | inl ended ↦ elim (Bool-cases (differs last j.status)) [
        | inl news ↦ rw (h.0, over, ended, fresh, news) refl
        | inr old ↦ rw (h.0, over, ended, fresh, old) refl
      ]
      | inr running ↦ elim (Bool-cases (differs last j.status)) [
        | inl news ↦ rw (h.0, over, running, fresh, news, rest) refl
        | inr old ↦ rw (h.0, over, running, fresh, old, rest) refl
      ]
    ]

-- Over reads that succeed, sends that succeed and a context that lives, a watch whose ids can be read
-- sends exactly the changes: the first snapshot and then each whose status differs from the one
-- before, up to and with the first terminal one, at which the stream finishes; it polls on without one.
pub watch_changes :
    {S : Type 0} (f : Formats) (service : GetService S) (r : JobWatchRequest) (id owner : ℕ)
    (xs : List (S × CoreJob.Job))
    → f.uuid_parse r.id ≡ ok id
    → f.uuid_parse r.owner_id ≡ ok owner
    → All (Reads service (record { id = id; owner_id = owner })) xs
    → job_watch f service r (map calm xs)
      ≡ (map (job_to_proto f) (changes none (observed (map job_of xs))), ends (map job_of xs))
unfolding job_watch
watch_changes f service r id owner xs pid powner h =
    rw (pid, powner) (loop-calm f service (record { id = id; owner_id = owner }) none xs h)
