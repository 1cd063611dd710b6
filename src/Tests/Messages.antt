-- ===== src/Tests/Messages.antt =====
-- The theorem on error statuses, applied to a read that the driver refuses.
use service_jobs.Prelude.{some, ◌++◌, Memᴰ, All}
use service_jobs.Errors.{foreign}
use service_jobs.Dao.Exec.{Call}
use service_jobs.Server.{Rpc, get, handle}
use service_jobs.Server.Messages.{own_errors, reply_refusals, context_errors, refusals_worded}
use service_jobs.Tests.Data.{a_call}
use service_jobs.Tests.Runs.{a_process, one_held}

abbrev a_refused_call : Call
a_refused_call = record a_call { refused = some (foreign "password authentication failed") }

abbrev refused_read : Rpc
refused_read = get (record { id = "one"; owner_id = "seven" }) a_refused_call

refusals_worded_example :
    All
      (λ e. Memᴰ e (own_errors ++ context_errors refused_read))
      (reply_refusals (handle a_process refused_read one_held).0)
refusals_worded_example = refusals_worded a_process refused_read one_held
