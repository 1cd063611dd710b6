-- ===== src/Watching/Stored.antt =====
-- A watch over the jobs table (internal/handlers/grpc.jobWatch.go with internal/core/jobGet.go and
-- internal/dao/pg.jobGet.sql).
use service_jobs.Prelude.{
  ℕ, ◌≡◌, refl, ap, ◌∙◌, true, List, [], ◌∷◌, none, map, Memᴰ, All, Bool-cases, inl, inr,
}
use service_jobs.Errors.{ok}
use service_jobs.Dao.Job as DaoJob
use service_jobs.Dao.Job.{is_terminal}
use service_jobs.Dao.Table.{Table}
use service_jobs.Dao.Exec.{Call}
use service_jobs.Core.Validate.{Validator}
use service_jobs.Core.Job as CoreJob
use service_jobs.Core.Job.{job_to_core}
use service_jobs.Core.Get as Core
use service_jobs.Handlers.Job.{Formats, job_to_proto}
use service_jobs.Handlers.Watch.{JobWatchRequest, finished, job_watch}
use service_jobs.Invariant.{IsWellFormed}
use service_jobs.Invariant.Exec.{IsHealthy}
use service_jobs.Reading.{get_finds}
use service_jobs.Watching.{changes, observed, ends, calm, job_of, Reads, watch_changes}

-- What a poll sees: a well-formed table and the owner's job in it.
abbrev pub Stands : ℕ → ℕ → Table × DaoJob.Job → Type 0
Stands id owner (t, j) = IsWellFormed t × Memᴰ j t × (j.id ≡ id) × (j.owner_id ≡ owner)

abbrev pub polled : Table × DaoJob.Job → Table × CoreJob.Job
polled (t, j) = (t, job_to_core j)

-- The jobs that the polls see, in order.
abbrev pub seen_jobs : List (Table × DaoJob.Job) → List CoreJob.Job
seen_jobs xs = map job_of (map polled xs)

All-Reads :
    (v : Validator) (c : Call) (id owner : ℕ) (xs : List (Table × DaoJob.Job))
    → Core.is_valid v (record { id = id; owner_id = owner }) ≡ true
    → IsHealthy c
    → All (Stands id owner) xs
    → All (Reads (Core.exec v c) (record { id = id; owner_id = owner })) (map polled xs)
All-Reads v c id owner [] valid h s = tt
All-Reads v c id owner ((t, j) ∷ xs) valid h ((w, m, same, own), s) = (
  ap (λ a. a.0) (get_finds v c (record { id = id; owner_id = owner }) t j valid h w m same own),
  All-Reads v c id owner xs valid h s,
)

core-status : (j : DaoJob.Job) → (job_to_core j).status ≡ j.status
unfolding job_to_core
core-status j = refl

-- A settled job among those that are seen ends the stream.
ends-finished :
    (xs : List (Table × DaoJob.Job)) (t : Table) (j : DaoJob.Job)
    → Memᴰ (t, j) xs
    → is_terminal j.status ≡ true
    → ends (seen_jobs xs) ≡ finished
ends-finished [] t j m over = elim m [ ]
ends-finished ((u, k) ∷ xs) t j m over = elim (Bool-cases (is_terminal (job_to_core k).status)) [
  | inl ended ↦ rw ended refl
  | inr running ↦ elim m [
    | Memᴰ.head e ↦
        let same : j ≡ k = ap (λ x. x.1) e in
        let still : is_terminal k.status ≡ true = rw (← same) over in let kept = core-status k in cc
    | Memᴰ.tail n ↦ rw running (ends-finished xs t j n over)
  ]
]

-- A watch by the owner of a job polls well-formed tables in each of which the job stands, with a valid
-- request that can be read, a driver that answers, a stream that sends and a context that lives. If
-- some poll sees the job settled, the stream finishes, and what it sent are the changes of the
-- job's status, up to and with the first settled one.
pub watch_finishes :
    (f : Formats) (v : Validator) (c : Call) (r : JobWatchRequest) (id owner : ℕ)
    (xs : List (Table × DaoJob.Job)) (t : Table) (j : DaoJob.Job)
    → f.uuid_parse r.id ≡ ok id
    → f.uuid_parse r.owner_id ≡ ok owner
    → Core.is_valid v (record { id = id; owner_id = owner }) ≡ true
    → IsHealthy c
    → All (Stands id owner) xs
    → Memᴰ (t, j) xs
    → is_terminal j.status ≡ true
    → job_watch f (Core.exec v c) r (map calm (map polled xs))
      ≡ (map (job_to_proto f) (changes none (observed (seen_jobs xs))), finished)
watch_finishes f v c r id owner xs t j pid powner valid h stands m over =
    watch_changes f (Core.exec v c) r id owner (map polled xs) pid powner
      (All-Reads v c id owner xs valid h stands)
    ∙ ap (λ e. (map (job_to_proto f) (changes none (observed (seen_jobs xs))), e))
        (ends-finished xs t j m over)
