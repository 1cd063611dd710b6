-- ===== src/Recovery.antt =====
-- The sweep on a well-formed table (internal/core/jobReap.go, internal/dao/pg.jobReap.sql): what
-- becomes of each row.
pub mod Crashes
use service_jobs.Prelude.{
  true, false, ◌≡◌, ◌≤◌, ◌<◌, ◌⊎◌, inl, inr, refl, map, none, some, filter, ltb, Memᴰ, Bool-cases,
  arith,
}
use service_jobs.Prelude.Int.{ℤ}
use service_jobs.Errors.{ok}
use service_jobs.Dao.Job.{Job, RawMessage, pending, abandoned, is_claimed, add_days}
use service_jobs.Dao.Table.{Table, Engine, to_jsonb, written}
use service_jobs.Dao.Exec.{Call, query_error}
use service_jobs.Dao.Claim.{chosen}
use service_jobs.Dao.Reap as Dao
use service_jobs.Dao.Reap.{lapsed, is_reapable, reap_row, reapable}
use service_jobs.Core.Job.{job_to_core}
use service_jobs.Core.Reap.{exec, job_reap_error}
use service_jobs.Invariant.{IsWellFormed}
use service_jobs.Invariant.Exec.{IsHealthy, run_query-healthy}
use service_jobs.Invariant.Update.{update_where-accepted}
use service_jobs.Invariant.Rows.{reap_row-IsSound}
use service_jobs.Invariant.Chosen.{chosen-reapable, chosen_of_mem, mem-filter_of}
use service_jobs.Invariant.Written.{mem-written_new, mem-written_kept}

-- What the sweep leaves alone: a job that is not claimed, whose lease runs, or that another
-- transaction holds.
abbrev pub IsSpared : Call → Job → Type 0
IsSpared c j =
    (is_claimed j.status ≡ false)
    ⊎ (lapsed j.lease_expires_at (c.clock j.id 0) ≡ false)
    ⊎ (c.locked j.id ≡ true)

-- A lapsed job with an attempt left, and as it stands when it has been queued again.
pub record IsRequeued (c : Call) (old new : Job) : Type 0 where
  pub left : old.attempt < old.max_attempts
  pub id : new.id ≡ old.id
  pub kind : new.kind ≡ old.kind
  pub cap : new.max_attempts ≡ old.max_attempts
  pub status : new.status ≡ pending
  pub holder : new.claimed_by ≡ none
  pub lease : new.lease_expires_at ≡ none
  pub attempt : new.attempt ≡ old.attempt
  pub due : new.run_at ≡ c.clock old.id 1
  pub unsettled : new.settled_at ≡ none

-- A lapsed job with no attempt left, and as it stands when it has been given up.
pub record IsAbandoned (c : Call) (written_error : RawMessage) (retention : ℤ) (old new : Job)
    : Type 0 where
  pub spent : old.max_attempts ≤ old.attempt
  pub id : new.id ≡ old.id
  pub status : new.status ≡ abandoned
  pub holder : new.claimed_by ≡ none
  pub lease : new.lease_expires_at ≡ none
  pub error : new.error ≡ written_error
  pub settled : new.settled_at ≡ some (c.clock old.id 2)
  pub expires : new.expires_at ≡ some (add_days (c.clock old.id 3) retention)

spared_of : (c : Call) (j : Job) → is_reapable c.clock c.locked j ≡ false → IsSpared c j
unfolding is_reapable
spared_of c j h = elim (Bool-cases (is_claimed j.status)) [
  | inr e ↦ inl e
  | inl e ↦ elim (Bool-cases (lapsed j.lease_expires_at (c.clock j.id 0))) [
    | inr e' ↦ inr (inl e')
    | inl e' ↦ inr (inr (ground arith))
  ]
]

requeued_of :
    (c : Call) (error : RawMessage) (retention : ℤ) (j : Job)
    → ltb j.attempt j.max_attempts ≡ true
    → IsRequeued c j (reap_row c.clock error retention j)
unfolding reap_row
requeued_of c error retention j h = record {
  left = ground arith;
  id = refl;
  kind = refl;
  cap = refl;
  status = rw h;
  holder = refl;
  lease = refl;
  attempt = refl;
  due = rw h;
  unsettled = rw h;
}

abandoned_of :
    (c : Call) (error : RawMessage) (retention : ℤ) (j : Job)
    → ltb j.attempt j.max_attempts ≡ false
    → IsAbandoned c error retention j (reap_row c.clock error retention j)
unfolding reap_row
abandoned_of c error retention j h = record {
  spent = ground arith;
  id = refl;
  status = rw h;
  holder = refl;
  lease = refl;
  error = rw h;
  settled = rw h;
  expires = rw h;
}

reapable-claimed :
    (c : Call) (j : Job) → is_reapable c.clock c.locked j ≡ true → is_claimed j.status ≡ true
unfolding is_reapable
reapable-claimed c j h = ground arith

-- The table that a sweep leaves.
abbrev pub swept_table : Call → RawMessage → ℤ → Table → Table
swept_table c error retention t =
    written (chosen (reapable c.clock c.locked t)) (reap_row c.clock error retention) t

pub exec-swept :
    (e : Engine) (retention : ℤ) (c : Call) (error : RawMessage) (t : Table)
    → IsWellFormed t
    → IsHealthy c
    → to_jsonb e job_reap_error ≡ ok error
    → exec e retention c t ≡ (
      ok (
          map job_to_core (
            map
              (reap_row c.clock error retention)
              (filter (chosen (reapable c.clock c.locked t)) t))),
      swept_table c error retention t,
    )
unfolding exec Dao.exec Dao.statement
exec-swept e retention c error t w h stored =
    let q : Dao.JobReapRequest = record { error = job_reap_error; retention_days = retention } in
    let pick = chosen (reapable c.clock c.locked t) in
    let row = reap_row c.clock error retention in
    let accepted : Dao.statement e c.clock c.locked q t
        ≡ ok (map row (filter pick t), written pick row t) =
      rw stored (
        update_where-accepted pick row t w.sound (λ j m k s.
          reap_row-IsSound c.clock error retention j
            (reapable-claimed c j (chosen-reapable t w.ids_differ j m c.clock c.locked k)) s)) in
    rw (
      run_query-healthy c (Dao.statement e c.clock c.locked q) query_error t
        (map row (filter pick t)) (written pick row t) h accepted)

module _ (e : Engine) (retention : ℤ) (c : Call) (error : RawMessage) (t : Table) (j : Job)
    (w : IsWellFormed t) (m : Memᴰ j t) where
  pub outcome :
      (x : Job) × Memᴰ x (swept_table c error retention t)
      × ((IsSpared c j × (x ≡ j)) ⊎ IsRequeued c j x ⊎ IsAbandoned c error retention j x)
  unfolding reapable
  outcome =
      let pick = chosen (reapable c.clock c.locked t) in
      let row = reap_row c.clock error retention in
      elim (Bool-cases (is_reapable c.clock c.locked j)) [
        | inl due ↦
            let picked : pick j ≡ true =
              chosen_of_mem (reapable c.clock c.locked t) j
                (mem-filter_of (is_reapable c.clock c.locked) t m due) in
            let stands = mem-written_new pick row t m picked in
            elim (Bool-cases (ltb j.attempt j.max_attempts)) [
              | inl more ↦ (row j, stands, inr (inl (requeued_of c error retention j more)))
              | inr spent ↦ (row j, stands, inr (inr (abandoned_of c error retention j spent)))
            ]
        | inr spared ↦ elim (Bool-cases (pick j)) [
          | inl picked ↦ let due = chosen-reapable t w.ids_differ j m c.clock c.locked picked in cc
          | inr other ↦ (j, mem-written_kept pick row t m other, inl (spared_of c j spared, refl))
        ]
      ]
