-- ===== src/Claims/Disjoint.antt =====
-- Two claims, one after the other (internal/dao/pg.jobClaim.sql).
use service_jobs.Prelude.{ℕ, Bool, false, ◌≡◌, ◌≢◌, refl, sym, ap, ◌∙◌, List, Memᴰ, String}
use service_jobs.Prelude.Int.{ℤ}
use service_jobs.Dao.Job.{Job}
use service_jobs.Dao.Table.{Table, Readings}
use service_jobs.Dao.Exec.{Call}
use service_jobs.Dao.Claim.{chosen, claimable, claim_row, is_claimable}
use service_jobs.Core.Claim.{JobClaimRequest, to_dao}
use service_jobs.Invariant.{IsWellFormed}
use service_jobs.Invariant.Chosen.{same_id-eq, chosen-claimable}
use service_jobs.Invariant.Statements.{claimed-IsWellFormed}
use service_jobs.Invariant.Written.{mem-returned, mem-written_new}
use service_jobs.Claims.{batch, claimed_table}

-- A row that was just claimed is not claimable.
claimed-not_claimable :
    (clock clock' : Readings) (locked : ℕ → Bool) (kinds : List String) (worker : String)
    (lease : ℤ) (j : Job)
    → is_claimable clock' locked kinds (claim_row clock worker lease j) ≡ false
unfolding is_claimable claim_row
claimed-not_claimable clock clock' locked kinds worker lease j = refl

claim_row-id :
    (clock : Readings) (worker : String) (lease : ℤ) (j : Job)
    → (claim_row clock worker lease j).id ≡ j.id
unfolding claim_row
claim_row-id clock worker lease j = refl

-- No job is in the batches of two claims that follow one another on a well-formed table, whoever makes
-- them and whatever they ask for.
pub batches_disjoint :
    (c c' : Call) (r r' : JobClaimRequest) (n n' : ℕ) (t : Table) (x y : Job)
    → IsWellFormed t
    → Memᴰ x (batch c r n t)
    → Memᴰ y (batch c' r' n' (claimed_table c r n t))
    → x.id ≢ y.id
unfolding to_dao
batches_disjoint c c' r r' n n' t x y w mx my same =
    let row = claim_row c.clock r.worker_id r.lease_seconds in
    let row' = claim_row c'.clock r'.worker_id r'.lease_seconds in
    let u = claimed_table c r n t in
    let pick = chosen (claimable c.clock c.locked r.kinds n t) in
    let wu = claimed-IsWellFormed t w c.clock c.locked (to_dao r) n in
    let (j, here, picked, e) = mem-returned pick row t mx in
    let (k, there, again, e') =
      mem-returned (chosen (claimable c'.clock c'.locked r'.kinds n' u)) row' u my in
    let standing : Memᴰ (row j) u = mem-written_new pick row t here picked in
    let ids : k.id ≡ (row j).id =
      sym (claim_row-id c'.clock r'.worker_id r'.lease_seconds k)
      ∙ ap (λ (z : Job). z.id) e'
      ∙ sym same
      ∙ sym (ap (λ (z : Job). z.id) e) in
    let one : k ≡ row j = same_id-eq u (row j) k wu.ids_differ standing there ids in
    let open_again =
      chosen-claimable u wu.ids_differ k there c'.clock c'.locked r'.kinds n' again in
    let shut =
      claimed-not_claimable c.clock c'.clock c'.locked r'.kinds r.worker_id r.lease_seconds j in
    cc
