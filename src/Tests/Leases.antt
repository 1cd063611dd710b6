-- ===== src/Tests/Leases.antt =====
-- The theorem on leases, applied to a concrete run.
use service_jobs.Prelude.{◌≢◌, refl, Memᴰ, arith}
use service_jobs.Prelude.Int.{pos}
use service_jobs.Dao.Job.{Job}
use service_jobs.Dao.Table.{Table, update_where, satisfies_checks}
use service_jobs.Dao.Exec.{Call}
use service_jobs.Dao.Claim as DaoClaim
use service_jobs.Dao.Claim.{claim_row}
use service_jobs.Dao.Reap as DaoReap
use service_jobs.Core.Claim as Claim
use service_jobs.Core.Reap as Reap
use service_jobs.Claims.{batch}
use service_jobs.System.{Steps, here, next, claim, reap, job_retention_days}
use service_jobs.Lifecycle.Lease.{AllInTime, IsLeased, lease_respected}
use service_jobs.Tests.Data.{a_validator, an_engine, a_call}
use service_jobs.Tests.Tables.{jobs, jobs-IsWellFormed, running, running-in, waiting}
use service_jobs.Tests.Statements.{one_mail}
use service_jobs.Tests.Runs.{a_service}

-- Every clock reads 7, and the lease of `running` ends at 10.
abbrev early : Call
early = record a_call { clock = λ id site. 7 }

abbrev after_claim : Table
after_claim = (Claim.exec a_validator early one_mail jobs).1

abbrev after_sweep : Table
after_sweep = (Reap.exec an_engine job_retention_days early after_claim).1

abbrev claim_and_sweep : Steps a_service jobs after_sweep
claim_and_sweep = next (next here (claim early one_mail refl)) (reap early refl)

running-IsLeased : IsLeased running "w" 10
running-IsLeased = record { status = refl; holder = refl; lease = refl }

abbrev handed_out : Job
handed_out = claim_row early.clock "x" (pos 60) waiting

handed_out-in : Memᴰ handed_out (batch early one_mail 1 after_sweep)
unfolding claim_row Reap.exec DaoReap.exec DaoReap.statement update_where Claim.exec DaoClaim.exec
    DaoClaim.claim_up_to satisfies_checks
handed_out-in = Memᴰ.head refl

claim_and_sweep-AllInTime : AllInTime a_service 3 "w" 10 claim_and_sweep
claim_and_sweep-AllInTime = ((tt, tt), omega arith)

lease_respected_example : Memᴰ running after_sweep × (handed_out.id ≢ running.id)
lease_respected_example =
    lease_respected a_service running "w" 10 jobs after_sweep claim_and_sweep early one_mail 1
      handed_out claim_and_sweep-AllInTime running-IsLeased jobs-IsWellFormed running-in
      handed_out-in
