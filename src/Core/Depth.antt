-- ===== src/Core/Depth.antt =====
-- The two measures of the backlog (internal/core/jobQueueDepth.go, internal/core/jobCountPending.go).
use service_jobs.Prelude.{ℕ, Option}
use service_jobs.Prelude.Int.{ℤ}
use service_jobs.Errors.{Result, ok, err, wrap}
use service_jobs.Dao.Table.{Table}
use service_jobs.Dao.Exec.{Call}
use service_jobs.Dao.QueueDepth as DaoDepth
use service_jobs.Dao.CountPending as DaoCount

pub record QueueDepth : Type 0 where
  pub pending : ℕ
  pub oldest_pending_age : Option ℤ

abbrev pub depth_result : Result DaoDepth.QueueDepth → Result QueueDepth
depth_result (ok d) = ok (record { pending = d.pending; oldest_pending_age = d.oldest_pending_age })
depth_result (err e) = err (wrap "measure queue depth" e)

-- The interface of the DAO, whose store is S.
abbrev pub JobQueueDepthDao : Type 0 → Type 0
JobQueueDepthDao S = Call → S → Result DaoDepth.QueueDepth × S

-- The struct, and NewJobQueueDepth.
pub record JobQueueDepth (S : Type 0) : Type 0 where
  pub dao : JobQueueDepthDao S

abbrev pub new_job_queue_depth : {S : Type 0} → JobQueueDepthDao S → JobQueueDepth S
new_job_queue_depth dao = record { dao = dao }

-- JobQueueDepth's Exec method.
abbrev pub queue_depth_of : {S : Type 0} → JobQueueDepth S → Call → S → Result QueueDepth × S
queue_depth_of service c s = let (depth, u) = service.dao c s in (depth_result depth, u)

-- The service that main makes.
abbrev pub service_job_queue_depth : (ℤ → ℤ) → JobQueueDepth Table
service_job_queue_depth duration = new_job_queue_depth (DaoDepth.new_job_queue_depth duration)

-- Its Exec method.
unfoldable pub queue_depth : (ℤ → ℤ) → Call → Table → Result QueueDepth × Table
queue_depth duration = queue_depth_of (service_job_queue_depth duration)

pub record JobPendingStats : Type 0 where
  pub pending : ℕ
  pub oldest_age : ℤ

abbrev pub stats_result : Result DaoCount.JobPendingStats → Result JobPendingStats
stats_result (ok s) = ok (record { pending = s.pending; oldest_age = s.oldest_age })
stats_result (err e) = err (wrap "count pending jobs" e)

-- The interface of the DAO, whose store is S.
abbrev pub JobCountPendingDao : Type 0 → Type 0
JobCountPendingDao S = Call → S → Result DaoCount.JobPendingStats × S

-- The struct, and NewJobCountPending.
pub record JobCountPending (S : Type 0) : Type 0 where
  pub dao : JobCountPendingDao S

abbrev pub new_job_count_pending : {S : Type 0} → JobCountPendingDao S → JobCountPending S
new_job_count_pending dao = record { dao = dao }

-- JobCountPending's Exec method.
abbrev pub count_pending_of :
    {S : Type 0} → JobCountPending S → Call → S → Result JobPendingStats × S
count_pending_of service c s = let (stats, u) = service.dao c s in (stats_result stats, u)

-- The method of a service over the jobs table.
unfoldable pub count_pending : (ℤ → ℤ) → Call → Table → Result JobPendingStats × Table
count_pending duration =
    count_pending_of (new_job_count_pending (DaoCount.new_job_count_pending duration))
