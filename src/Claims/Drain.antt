-- ===== src/Claims/Drain.antt =====
-- Claims that follow one another (internal/core/jobClaim.go, internal/dao/pg.jobClaim.sql).
use service_jobs.Prelude.{
  ℕ, ◌+◌, ◌*◌, ◌≤◌, Bool, true, false, ◌&&◌, ◌≡◌, refl, sym, ap, ◌∙◌, ◌⊎◌, inl, inr, List, [], ◌∷◌,
  filter, length, Memᴰ, All, mem-filter, Bool-cases, leb, arith, String,
}
use service_jobs.Prelude.Int.{pos}
use service_jobs.Dao.Job.{Job, is_pending}
use service_jobs.Dao.Table.{Table}
use service_jobs.Dao.Exec.{Call}
use service_jobs.Dao.Claim.{chosen, claimable, claim_row, kind_in, is_claimable, sort_by_run_at}
use service_jobs.Core.Validate.{Validator}
use service_jobs.Core.Claim.{JobClaimRequest, exec, is_valid}
use service_jobs.Invariant.{IsWellFormed, same_id}
use service_jobs.Invariant.Exec.{IsHealthy}
use service_jobs.Invariant.Services.{claim-keeps}
use service_jobs.Invariant.Statements.{Apart-filter}
use service_jobs.Invariant.Chosen.{mem-claimable, mem-filter_of, chosen_of_mem, chosen-picked}
use service_jobs.Claims.{exec-batch, claimed_table}
use service_jobs.Claims.Oldest.{sort-IsOrdered}
use service_jobs.Claims.Counted.{length-filter-sort, filter-and, early-first, length-filter-written}
use service_jobs.Claims.Size.{Apart-claimable, length-chosen}
use service_jobs.Claims.Whole.{filter-same}

-- One claim after the other, each a call of its own.
abbrev pub claims : Validator → JobClaimRequest → List Call → Table → Table
claims v r [] t = t
claims v r (c ∷ cs) t = claims v r cs (exec v c r t).1

-- The jobs that wait since `now` or longer, of a kind that is asked for.
abbrev pub is_waiting : List String → ℕ → Job → Bool
is_waiting kinds now j = is_pending j.status && leb j.run_at now && kind_in kinds j.kind

-- The driver answers, no row is locked, and the clock has reached `now`.
pub record IsPrompt (now : ℕ) (c : Call) : Type 0 where
  pub healthy : IsHealthy c
  pub free : (id : ℕ) → c.locked id ≡ false
  pub late : (id : ℕ) → now ≤ c.clock id 0

claim_row-not_waiting :
    (c : Call) (r : JobClaimRequest) (now : ℕ) (j : Job)
    → is_waiting r.kinds now (claim_row c.clock r.worker_id r.lease_seconds j) ≡ false
unfolding claim_row
claim_row-not_waiting c r now j = refl

module _ (c : Call) (r : JobClaimRequest) (now : ℕ) (t : Table) (prompt : IsPrompt now c) where
  -- A prompt claim may take whatever has waited so long.
  claimable-waiting :
      (j : Job)
      → (is_claimable c.clock c.locked r.kinds j && leb j.run_at now) ≡ is_waiting r.kinds now j
  unfolding is_claimable
  claimable-waiting j = let free = prompt.free j.id in let late = prompt.late j.id in ground arith

  length-early :
      (n : ℕ)
      → (length (filter (λ j. leb j.run_at now) (claimable c.clock c.locked r.kinds n t)) ≡ n)
        ⊎ (length (filter (λ j. leb j.run_at now) (claimable c.clock c.locked r.kinds n t))
            ≡ length (filter (is_waiting r.kinds now) t))
  unfolding claimable
  length-early n =
      let ready = is_claimable c.clock c.locked r.kinds in
      let early : Job → Bool = (λ j. leb j.run_at now) in
      elim (early-first now n (sort_by_run_at (filter ready t)) (sort-IsOrdered (filter ready t))) [
        | inl full ↦ inl full
        | inr every ↦ inr (
            every
            ∙ length-filter-sort early (filter ready t)
            ∙ ap length (filter-and early ready t)
            ∙ ap length (
                filter-same (λ j. ready j && early j) (is_waiting r.kinds now) t
                  (λ j m. claimable-waiting j)))
      ]

  module _ (n : ℕ) (w : IsWellFormed t) where
    -- The waiting rows of a batch.
    picked-early :
        (j : Job)
        → Memᴰ j t
        → (chosen (claimable c.clock c.locked r.kinds n t) j && is_waiting r.kinds now j)
          ≡ chosen (filter (λ j. leb j.run_at now) (claimable c.clock c.locked r.kinds n t)) j
    picked-early j m =
        let rows = claimable c.clock c.locked r.kinds n t in
        let early : Job → Bool = (λ j. leb j.run_at now) in
        let within : (x : Job) → Memᴰ x rows → Memᴰ x t =
          (λ x k. (mem-claimable c.clock c.locked r.kinds n t k).0) in
        let back : chosen (filter early rows) j ≡ true → Memᴰ j rows × (early j ≡ true) = (λ h.
          mem-filter early rows (
            chosen-picked t w.ids_differ j m (filter early rows)
              (λ x k. within x (mem-filter early rows k).0) h)) in
        elim (Bool-cases (chosen rows j)) [
          | inl hit ↦
              let here = chosen-picked t w.ids_differ j m rows within hit in
              let ready = (mem-claimable c.clock c.locked r.kinds n t here).1 in
              let same = claimable-waiting j in
              elim (Bool-cases (leb j.run_at now)) [
                | inl first ↦
                    let there =
                      chosen_of_mem (filter early rows) j (mem-filter_of early rows here first) in
                    rw (hit, there) (sym same ∙ rw (ready, first) refl)
                | inr later ↦ elim (Bool-cases (chosen (filter early rows) j)) [
                  | inl there ↦ let twice = (back there).1 in cc
                  | inr out ↦ rw (hit, out) (sym same ∙ rw (ready, later) refl)
                ]
              ]
          | inr miss ↦ elim (Bool-cases (chosen (filter early rows) j)) [
            | inl there ↦ let hit = chosen_of_mem rows j (back there).0 in cc
            | inr out ↦ rw (miss, out) refl
          ]
        ]

    claim-drains :
        (length (filter (is_waiting r.kinds now) (claimed_table c r n t)) ≡ 0)
        ⊎ (length (filter (is_waiting r.kinds now) (claimed_table c r n t)) + n
            ≡ length (filter (is_waiting r.kinds now) t))
    claim-drains =
        let rows = claimable c.clock c.locked r.kinds n t in
        let early : Job → Bool = (λ j. leb j.run_at now) in
        let parts =
          length-filter-written (is_waiting r.kinds now) (chosen rows)
            (claim_row c.clock r.worker_id r.lease_seconds) t (claim_row-not_waiting c r now) in
        let same = ap length (
          filter-same (λ j. chosen rows j && is_waiting r.kinds now j) (chosen (filter early rows))
            t picked-early) in
        let many =
          length-chosen (filter early rows) t w.ids_differ
            (Apart-filter same_id early rows
              (Apart-claimable c.clock c.locked r.kinds n t w.ids_differ))
            (λ x m. (mem-claimable c.clock c.locked r.kinds n t (mem-filter early rows m).0).0) in
        elim (length-early n) [
          | inl full ↦ inr (omega (arith, parts, same, many, full))
          | inr every ↦ inl (omega (arith, parts, same, many, every))
        ]

-- In a well-formed table, after claims whose limits add up to the number of the jobs that are pending,
-- of a kind asked for and due by `now`, no such job is left, whichever other jobs become due
-- meanwhile. The claims are valid and of one limit and one choice of kinds, the driver answers each,
-- no row is locked, and each reads a clock that has reached `now`.
pub claims_drain :
    (v : Validator) (r : JobClaimRequest) (n now : ℕ) (cs : List Call) (t : Table)
    → is_valid v r ≡ true
    → r.limit ≡ pos n
    → All (IsPrompt now) cs
    → IsWellFormed t
    → length (filter (is_waiting r.kinds now) t) ≤ length cs * n
    → length (filter (is_waiting r.kinds now) (claims v r cs t)) ≡ 0
claims_drain v r n now [] t valid limit prompt w room = omega (arith, room)
claims_drain v r n now (c ∷ cs) t valid limit prompt w room =
    let first = claim-drains c r now t prompt.0 n w in
    let made : (exec v c r t).1 ≡ claimed_table c r n t =
      ap (λ p. p.1) (exec-batch v c r n t valid limit prompt.0.healthy w) in
    let less : length (filter (is_waiting r.kinds now) (exec v c r t).1) ≤ length cs * n =
      rw made
        (elim first [ inl none ↦ omega (arith, none) | inr fewer ↦ omega (arith, fewer, room) ]) in
    claims_drain v r n now cs (exec v c r t).1 valid limit prompt.1 (claim-keeps t w c v r) less
