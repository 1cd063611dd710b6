-- ===== src/Invariant/Statements.antt =====
-- The statements of internal/dao and the well-formedness of the jobs table.
use service_jobs.Prelude.{
  ℕ, Bool, true, false, not, ◌≡◌, ◌<◌, sym, ◌∙◌, is_set, List, [], ◌∷◌, none, some, String, Memᴰ,
  All, filter, map, arith, Bool-cases, inl, inr,
}
use service_jobs.Errors.{ok, >>=-eq_ok}
use service_jobs.Dao.Job.{Job, RawMessage, is_pending, is_claimed}
use service_jobs.Dao.Table.{Table, Readings, Engine, to_jsonb, written}
use service_jobs.Dao.Claim as Claim
use service_jobs.Dao.Settle as Settle
use service_jobs.Dao.Settle.{holds}
use service_jobs.Dao.Requeue as Requeue
use service_jobs.Dao.Reap as Reap
use service_jobs.Dao.Purge.{purge, is_expired}
use service_jobs.Invariant.{IsSound, IsWellFormed, Apart, same_id, same_submission}
use service_jobs.Invariant.Update.{written-IsWellFormed, update_where-accepted, update_where-eq_ok}
use service_jobs.Invariant.Rows.{
  IsOutcome, claim_row-IsSound, settle_row-IsSound, requeue_row-IsSound, reap_row-IsSound,
  claim_row-KeepsIdentity, settle_row-KeepsIdentity, requeue_row-KeepsIdentity,
  reap_row-KeepsIdentity,
}
use service_jobs.Invariant.Chosen.{chosen-claimable, chosen-reapable}

claimable-pending :
    (clock : Readings) (locked : ℕ → Bool) (kinds : List String) (j : Job)
    → Claim.is_claimable clock locked kinds j ≡ true
    → is_pending j.status ≡ true
unfolding Claim.is_claimable
claimable-pending clock locked kinds j h = ground arith

reapable-claimed :
    (clock : Readings) (locked : ℕ → Bool) (j : Job)
    → Reap.is_reapable clock locked j ≡ true
    → is_claimed j.status ≡ true
unfolding Reap.is_reapable
reapable-claimed clock locked j h = ground arith

pub holds-claimed :
    (id : ℕ) (worker : String) (j : Job) → holds id worker j ≡ true → is_claimed j.status ≡ true
holds-claimed id worker j h = ground arith

module _ (t : Table) (w : IsWellFormed t) where
  module _ (clock : Readings) (locked : ℕ → Bool) (r : Claim.JobClaimRequest) (limit : ℕ) where
    abbrev picked : Job → Bool
    picked = Claim.chosen (Claim.claimable clock locked r.kinds limit t)

    abbrev claimed_row : Job → Job
    claimed_row = Claim.claim_row clock r.worker_id r.lease_seconds

    picked-IsSound : (j : Job) → Memᴰ j t → picked j ≡ true → IsSound j → IsSound (claimed_row j)
    picked-IsSound j m h s =
        claim_row-IsSound clock r.worker_id r.lease_seconds j
          (claimable-pending clock locked r.kinds j
            (chosen-claimable t w.ids_differ j m clock locked r.kinds limit h))
          s

    -- A claim of a well-formed table is never refused: it returns the picked rows, claimed.
    pub claim_up_to-accepted :
        Claim.claim_up_to clock locked r limit t
        ≡ ok (map claimed_row (filter picked t), written picked claimed_row t)
    unfolding Claim.claim_up_to
    claim_up_to-accepted = update_where-accepted picked claimed_row t w.sound picked-IsSound

    pub claimed-IsWellFormed : IsWellFormed (written picked claimed_row t)
    claimed-IsWellFormed =
        written-IsWellFormed picked claimed_row
          (claim_row-KeepsIdentity clock r.worker_id r.lease_seconds) t w picked-IsSound

-- The stored form of a JSON value is there exactly when the value is.
to_jsonb-is_set :
    (e : Engine) (m : RawMessage) {v : RawMessage} → to_jsonb e m ≡ ok v → is_set v ≡ is_set m
to_jsonb-is_set e none h = ground arith
to_jsonb-is_set e (some b) h = ground arith

-- A settle with a fitting outcome keeps the table well formed.
pub settle-IsWellFormed :
    (e : Engine) (clock : Readings) (r : Settle.JobSettleRequest) (t : Table)
    → IsWellFormed t
    → IsOutcome r.status r.result r.error
    → (rows : List Job) (u : Table) → Settle.statement e clock r t ≡ ok (rows, u)
    → IsWellFormed u
unfolding Settle.statement
settle-IsWellFormed e clock r t w o rows u h =
    let (result, p, h₁) = >>=-eq_ok (to_jsonb e r.result) _ h in
    let (error, q, h₂) = >>=-eq_ok (to_jsonb e r.error) _ h₁ in
    let row = Settle.settle_row clock r result error in
    let fits : IsOutcome r.status result error = record {
      terminal = o.terminal;
      result_fits = λ k. o.result_fits (sym (to_jsonb-is_set e r.result p) ∙ k);
      error_fits = λ k. o.error_fits (sym (to_jsonb-is_set e r.error q) ∙ k);
    } in
    rw (update_where-eq_ok (holds r.id r.worker_id) row t h₂).1 (
      written-IsWellFormed (holds r.id r.worker_id) row
        (settle_row-KeepsIdentity clock r result error) t w
        (λ j _ k s.
          settle_row-IsSound clock r result error j fits (holds-claimed r.id r.worker_id j k) s))

-- A requeue of a job with an attempt left keeps the table well formed.
pub requeue-IsWellFormed :
    (clock : Readings) (r : Requeue.JobRequeueRequest) (t : Table)
    → IsWellFormed t
    → ((j : Job) → Memᴰ j t → holds r.id r.worker_id j ≡ true → j.attempt < j.max_attempts)
    → (rows : List Job) (u : Table) → Requeue.statement clock r t ≡ ok (rows, u)
    → IsWellFormed u
unfolding Requeue.statement
requeue-IsWellFormed clock r t w left rows u h =
    rw (update_where-eq_ok (holds r.id r.worker_id) (Requeue.requeue_row clock) t h).1 (
      written-IsWellFormed (holds r.id r.worker_id) (Requeue.requeue_row clock)
        (requeue_row-KeepsIdentity clock) t w
        (λ j m k s.
          requeue_row-IsSound clock j (holds-claimed r.id r.worker_id j k) (left j m k) s))

-- A sweep keeps the table well formed.
pub reap-IsWellFormed :
    (e : Engine) (clock : Readings) (locked : ℕ → Bool) (r : Reap.JobReapRequest) (t : Table)
    → IsWellFormed t
    → (rows : List Job) (u : Table) → Reap.statement e clock locked r t ≡ ok (rows, u)
    → IsWellFormed u
unfolding Reap.statement
reap-IsWellFormed e clock locked r t w rows u h =
    let (error, _, h₁) = >>=-eq_ok (to_jsonb e r.error) _ h in
    let pick = Claim.chosen (Reap.reapable clock locked t) in
    let row = Reap.reap_row clock error r.retention_days in
    rw (update_where-eq_ok pick row t h₁).1 (
      written-IsWellFormed pick row (reap_row-KeepsIdentity clock error r.retention_days) t w
        (λ j m k s.
          reap_row-IsSound clock error r.retention_days j
            (reapable-claimed clock locked j (chosen-reapable t w.ids_differ j m clock locked k))
            s))

All-filter {κ} : (P : Job → Type κ) (p : Job → Bool) (t : Table) → All P t → All P (filter p t)
All-filter P p [] h = tt
All-filter P p (j ∷ js) h = elim (Bool-cases (p j)) [
  | inl hit ↦ rw hit (h.0, All-filter P p js h.1)
  | inr miss ↦ rw miss (All-filter P p js h.1)
]

pub Apart-filter :
    (r : Job → Job → Bool) (p : Job → Bool) (t : Table) → Apart r t → Apart r (filter p t)
Apart-filter r p [] h = tt
Apart-filter r p (j ∷ js) h = elim (Bool-cases (p j)) [
  | inl hit ↦ rw hit (All-filter (λ x. r j x ≡ false) p js h.0, Apart-filter r p js h.1)
  | inr miss ↦ rw miss (Apart-filter r p js h.1)
]

-- A purge keeps the table well formed.
pub purge-IsWellFormed :
    (clock : Readings) (t : Table) → IsWellFormed t → IsWellFormed (purge clock t)
unfolding purge
purge-IsWellFormed clock t w = record {
  sound = All-filter IsSound kept t w.sound;
  ids_differ = Apart-filter same_id kept t w.ids_differ;
  keys_differ = Apart-filter same_submission kept t w.keys_differ;
}
  where
    kept : Job → Bool
    kept j = not (is_expired clock j)
