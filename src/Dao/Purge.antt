-- ===== src/Dao/Purge.antt =====
-- The scheduled purge of settled rows (builds/database.sql).
use service_jobs.Prelude.{Bool, not, filter}
use service_jobs.Dao.Job.{Job}
use service_jobs.Dao.Table.{Table, Readings}
use service_jobs.Dao.Reap.{lapsed}

-- `expires_at IS NOT NULL AND expires_at < clock_timestamp()`.
abbrev pub is_expired : Readings → Job → Bool
is_expired clock j = lapsed j.expires_at (clock j.id 0)

unfoldable pub purge : Readings → Table → Table
purge clock t = filter (λ j. not (is_expired clock j)) t
