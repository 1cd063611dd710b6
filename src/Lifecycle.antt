-- ===== src/Lifecycle.antt =====
-- The rows that a statement of internal/dao does not touch.
pub mod Untouched
pub mod Terminal
pub mod Lease
use mathlib.Core.List.Memᴰ
use service_jobs.Prelude.{
  ℕ, ◌==◌, ==_iff, Bool, true, false, not, ◌≡◌, refl, sym, ap, ◌∙◌, List, [], ◌∷◌, ◌++◌, Option,
  none, some, Memᴰ, Bool-cases, inl, inr, if◌then◌else◌, arith, find?, any, String, ltb,
  Option-cases,
}
use service_jobs.Prelude.Int.{ℤ, pos, negsuc}
use service_jobs.Errors.{Result, ok, err, >>=-eq_ok}
use service_jobs.Dao.Job.{Job, RawMessage, is_terminal, is_claimed, is_pending}
use service_jobs.Dao.Table.{Table, Readings, Engine, to_jsonb, written, update_where}
use service_jobs.Dao.Exec.{Call, query_error}
use service_jobs.Dao.Enqueue as DaoEnqueue
use service_jobs.Dao.Claim as DaoClaim
use service_jobs.Dao.Claim.{chosen, claimable, is_claimable}
use service_jobs.Dao.Purge.{purge, is_expired}
use service_jobs.Dao.Settle as DaoSettle
use service_jobs.Dao.Settle.{holds}
use service_jobs.Dao.Requeue as DaoRequeue
use service_jobs.Dao.Reap as DaoReap
use service_jobs.Dao.Reap.{reapable, is_reapable}
use service_jobs.Dao.GetById as GetById
use service_jobs.Core.Enqueue as Enqueue
use service_jobs.Core.Claim as Claim
use service_jobs.Core.Settle as Settle
use service_jobs.Core.Reap as Reap
use service_jobs.Invariant.{IsWellFormed, Apart, same_id}
use service_jobs.Invariant.Exec.{run_query-keeps}
use service_jobs.Invariant.Update.{update_where-eq_ok}
use service_jobs.Invariant.Chosen.{chosen-claimable, chosen-reapable, mem-filter_of}
use service_jobs.Invariant.Written.{mem-written_kept}
use service_jobs.Invariant.Retry.{get_by_id-reads}
use service_jobs.System.{
  Service, Step, Steps, here, next, enqueue, claim, settle, reap, expire, Steps-keeps,
}

-- An update keeps a row that it does not select.
update-spares :
    (p : Job → Bool) (f : Job → Job) (t : Table) (j : Job)
    → Memᴰ j t
    → p j ≡ false
    → (rows : List Job) (u : Table) → update_where p f t ≡ ok (rows, u)
    → Memᴰ j u
update-spares p f t j m h rows u e = rw (update_where-eq_ok p f t e).1 (mem-written_kept p f t m h)

resolve-spares :
    (new : Job) (t : Table) (j : Job) (found : Option Job)
    → Memᴰ j t
    → (row : Job) (u : Table) → DaoEnqueue.resolve new t found ≡ ok (row, u)
    → Memᴰ j u
resolve-spares new t j (some old) m row u h = let same : t ≡ u = cc in rw (← same) m
resolve-spares new t j none m row u h = elim (Bool-cases (any (λ x. x.id == new.id) t)) [
  | inl clash ↦ let k = rw clash at h in cc
  | inr free ↦
      let k = rw free at h in
      let grown : t ++ new ∷ [] ≡ u = cc in rw (← grown) (Memᴰ.append_left (new ∷ []) m)
]

module _ (t : Table) (apart : Apart same_id t) (j : Job) (m : Memᴰ j t) where
  claimed-spares :
      (clock : Readings) (locked : ℕ → Bool) (kinds : List String) (n : ℕ)
      → is_claimable clock locked kinds j ≡ false
      → chosen (claimable clock locked kinds n t) j ≡ false
  claimed-spares clock locked kinds n other =
      elim (Bool-cases (chosen (claimable clock locked kinds n t) j)) [
        | inr spared ↦ spared
        | inl picked ↦ let a = chosen-claimable t apart j m clock locked kinds n picked in cc
      ]

  reaped-spares :
      (clock : Readings) (locked : ℕ → Bool)
      → is_reapable clock locked j ≡ false
      → chosen (reapable clock locked t) j ≡ false
  reaped-spares clock locked other = elim (Bool-cases (chosen (reapable clock locked t) j)) [
    | inr spared ↦ spared
    | inl picked ↦ let a = chosen-reapable t apart j m clock locked picked in cc
  ]

  -- A claim keeps a row that it may not take.
  pub claim-spares :
      (c : Call) (r : DaoClaim.JobClaimRequest) (limit : ℤ)
      → is_claimable c.clock c.locked r.kinds j ≡ false
      → (rows : List Job) (u : Table) → DaoClaim.statement c.clock c.locked r limit t ≡ ok (rows, u)
      → Memᴰ j u
  unfolding DaoClaim.claim_up_to
  claim-spares c r (pos n) other rows u h =
      update-spares _ _ t j m (claimed-spares c.clock c.locked r.kinds n other) rows u h
  claim-spares c r (negsuc n) other rows u h = cc

  -- A sweep keeps a row whose lease it does not find lapsed.
  pub reap-spares :
      (e : Engine) (c : Call) (r : DaoReap.JobReapRequest)
      → is_reapable c.clock c.locked j ≡ false
      → (rows : List Job) (u : Table) → DaoReap.statement e c.clock c.locked r t ≡ ok (rows, u)
      → Memᴰ j u
  unfolding DaoReap.statement
  reap-spares e c r other rows u h =
      let (error, _, h₁) = >>=-eq_ok (to_jsonb e r.error) _ h in
      update-spares _ _ t j m (reaped-spares c.clock c.locked other) rows u h₁

-- An enqueue keeps every row.
pub enqueue-spares :
    (t : Table) (j : Job) (e : Engine) (clock : Readings) (r : DaoEnqueue.JobEnqueueRequest)
    → Memᴰ j t
    → (row : Job) (u : Table) → DaoEnqueue.statement e clock r t ≡ ok (row, u)
    → Memᴰ j u
unfolding DaoEnqueue.statement
enqueue-spares t j e clock r m row u h =
    let (new, _, h₁) = >>=-eq_ok (DaoEnqueue.propose e clock r) _ h in
    resolve-spares new t j _ m row u h₁

-- Settle and requeue keep a row that the worker does not hold.
module _ (t : Table) (j : Job) (m : Memᴰ j t) where
  pub settle-spares :
      (e : Engine) (clock : Readings) (r : DaoSettle.JobSettleRequest)
      → holds r.id r.worker_id j ≡ false
      → (rows : List Job) (u : Table) → DaoSettle.statement e clock r t ≡ ok (rows, u)
      → Memᴰ j u
  unfolding DaoSettle.statement
  settle-spares e clock r other rows u h =
      let (result, _, h₁) = >>=-eq_ok (to_jsonb e r.result) _ h in
      let (error, _, h₂) = >>=-eq_ok (to_jsonb e r.error) _ h₁ in
      update-spares _ _ t j m other rows u h₂

  pub requeue-spares :
      (clock : Readings) (r : DaoRequeue.JobRequeueRequest)
      → holds r.id r.worker_id j ≡ false
      → (rows : List Job) (u : Table) → DaoRequeue.statement clock r t ≡ ok (rows, u)
      → Memᴰ j u
  unfolding DaoRequeue.statement
  requeue-spares clock r other rows u h = update-spares _ _ t j m other rows u h

-- A purge keeps a row that is not expired.
pub purge-spares :
    (clock : Readings) (t : Table) (j : Job)
    → Memᴰ j t
    → is_expired clock j ≡ false
    → Memᴰ j (purge clock t)
unfolding purge
purge-spares clock t j m fresh = mem-filter_of (λ x. not (is_expired clock x)) t m (rw fresh refl)
