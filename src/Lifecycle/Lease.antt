-- ===== src/Lifecycle/Lease.antt =====
-- A claimed job under its lease (internal/dao/pg.jobClaim.sql, pg.jobReap.sql, pg.jobSettle.sql and
-- pg.jobRequeue.sql), through the steps of the running service.
use service_jobs.Prelude.{
  ℕ, ◌≤◌, Bool, Bool-cases, true, false, refl, sym, ap, ◌∙◌, is_set, str_eq, ◌≡◌, ◌≢◌, Memᴰ,
  All-mem, String, List, some, eq_iff, Option-cases, inl, inr, arith,
}
use service_jobs.Dao.Job.{Job, claimed, is_terminal}
use service_jobs.Dao.Table.{Table, Readings}
use service_jobs.Dao.Exec.{Call}
use service_jobs.Dao.Claim.{is_claimable, chosen, claimable, claim_row}
use service_jobs.Dao.Settle.{holds, held_by}
use service_jobs.Dao.Reap.{is_reapable}
use service_jobs.Dao.Purge.{is_expired}
use service_jobs.Core.Claim.{JobClaimRequest}
use service_jobs.Invariant.{IsWellFormed, IsSound}
use service_jobs.Invariant.Chosen.{same_id-eq, chosen-claimable}
use service_jobs.Invariant.Written.{mem-returned}
use service_jobs.Claims.{batch}
use service_jobs.Lifecycle.Untouched.{IsUntouched, AllUntouched, untouched-spares}
use service_jobs.System.{
  Service, Step, Steps, here, next, enqueue, claim, settle, reap, expire, Steps-keeps,
}

-- What keeps a lease: no sweep reads a time past its end, and its holder does not settle the job.
abbrev mutual
  pub IsInTime :
      (x : Service) (id : ℕ) (worker : String) (end : ℕ) {t u : Table} → Step x t u → Type 0
  IsInTime x id worker end (enqueue minted c r e) = Unit {0}
  IsInTime x id worker end (claim c r e) = Unit {0}
  IsInTime x id worker end (settle s r between same e) =
      AllInTime x id worker end between × (r.id ≡ id → r.worker_id ≢ worker)
  IsInTime x id worker end (reap c e) = c.clock id 0 ≤ end
  IsInTime x id worker end (expire clock scheduled e) = Unit {0}

  pub AllInTime :
      (x : Service) (id : ℕ) (worker : String) (end : ℕ) {t u : Table} → Steps x t u → Type 0
  AllInTime x id worker end here = Unit {0}
  AllInTime x id worker end (next path step) =
      AllInTime x id worker end path × IsInTime x id worker end step

-- A claimed row, its holder and its lease.
pub record IsLeased (j : Job) (worker : String) (end : ℕ) : Type 0 where
  pub status : j.status ≡ claimed
  pub holder : j.claimed_by ≡ some worker
  pub lease : j.lease_expires_at ≡ some end

module _ (j : Job) (worker : String) (end : ℕ) (l : IsLeased j worker end) where
  leased-not_claimable :
      (clock : Readings) (locked : ℕ → Bool) (kinds : List String)
      → is_claimable clock locked kinds j ≡ false
  unfolding is_claimable
  leased-not_claimable clock locked kinds = rw l.status refl

  leased-not_reapable :
      (clock : Readings) (locked : ℕ → Bool)
      → clock j.id 0 ≤ end
      → is_reapable clock locked j ≡ false
  unfolding is_reapable
  leased-not_reapable clock locked early = rw (l.status, l.lease) (ground arith)

  leased-not_held :
      (id : ℕ) (other : String) → (id ≡ j.id → other ≢ worker) → holds id other j ≡ false
  leased-not_held id other differ = elim (Bool-cases (holds id other j)) [
    | inr free ↦ free
    | inl mine ↦
        let named : id ≡ j.id = ground (arith, mine) in
        let held : held_by other j.claimed_by ≡ true = ground (arith, mine) in
        let same : str_eq worker other ≡ true = (rw l.holder at held) in
        absurd (differ named (sym ((eq_iff worker other).0 same)))
  ]

  leased-not_expired : (clock : Readings) → IsSound j → is_expired clock j ≡ false
  leased-not_expired clock s = elim (Option-cases j.expires_at) [
    | inl unset ↦ rw unset refl
    | inr (at_time, set) ↦
        let over : is_set j.expires_at ≡ is_terminal j.status = s.expiring in
        absurd (ground (arith, rw (set, l.status) at over))
  ]

module _ (x : Service) (j : Job) (worker : String) (end : ℕ) (l : IsLeased j worker end)
    (s : IsSound j) where
  mutual
    step-IsUntouched :
        {t u : Table} (step : Step x t u) → IsInTime x j.id worker end step → IsUntouched x j step
    step-IsUntouched (enqueue minted c r e) timely = tt
    step-IsUntouched (claim c r e) timely =
        leased-not_claimable j worker end l c.clock c.locked r.kinds
    step-IsUntouched (settle session r between same e) timely = (
      steps-AllUntouched between timely.0,
      leased-not_held j worker end l r.id r.worker_id timely.1,
    )
    step-IsUntouched (reap c e) timely = leased-not_reapable j worker end l c.clock c.locked timely
    step-IsUntouched (expire clock scheduled e) timely = leased-not_expired j worker end l clock s

    steps-AllUntouched :
        {t u : Table} (path : Steps x t u)
        → AllInTime x j.id worker end path
        → AllUntouched x j path
    steps-AllUntouched here timely = tt
    steps-AllUntouched (next path step) timely =
        (steps-AllUntouched path timely.0, step-IsUntouched step timely.1)

-- A row that may not be taken is in no batch.
batch-misses :
    (c : Call) (r : JobClaimRequest) (n : ℕ) (u : Table) (j y : Job)
    → IsWellFormed u
    → Memᴰ j u
    → is_claimable c.clock c.locked r.kinds j ≡ false
    → Memᴰ y (batch c r n u)
    → y.id ≢ j.id
unfolding claim_row
batch-misses c r n u j y w m out my same =
    let pick = chosen (claimable c.clock c.locked r.kinds n u) in
    let row = claim_row c.clock r.worker_id r.lease_seconds in
    let (k, there, picked, e) = mem-returned pick row u my in
    let ids : k.id ≡ j.id = ap (λ (z : Job). z.id) e ∙ same in
    let one : k ≡ j = same_id-eq u j k w.ids_differ m there ids in
    let free = chosen-claimable u w.ids_differ k there c.clock c.locked r.kinds n picked in cc

-- A claimed job is its worker's for the time of its lease: it stays exactly as the claim left it,
-- through any operations of other workers and callers, claims of anyone, settles by others, sweeps
-- and purges, as long as no sweep reads a time past the end of the lease and the holder itself does
-- not settle the job; and no job that a further claim hands out is that one. The first table is well
-- formed.
pub lease_respected :
    (x : Service) (j : Job) (worker : String) (end : ℕ) (t u : Table) (path : Steps x t u)
    (c : Call) (r : JobClaimRequest) (n : ℕ) (y : Job)
    → AllInTime x j.id worker end path
    → IsLeased j worker end
    → IsWellFormed t
    → Memᴰ j t
    → Memᴰ y (batch c r n u)
    → Memᴰ j u × (y.id ≢ j.id)
lease_respected x j worker end t u path c r n y timely l w m my =
    let quiet = steps-AllUntouched x j worker end l (All-mem IsSound t w.sound m) path timely in
    let stays = untouched-spares x j path quiet w m in
    let shut = leased-not_claimable j worker end l c.clock c.locked r.kinds in
    (stays, batch-misses c r n u j y (Steps-keeps x path w) stays shut my)
