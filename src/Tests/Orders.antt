-- ===== src/Tests/Orders.antt =====
-- The theorem on the order of rows, applied to two tables of the same rows.
use mathlib.Core.List.Permᴰ
use service_jobs.Prelude.{ℕ, ◌≡◌, refl, true, List, [], ◌∷◌, Memᴰ, none, arith}
use service_jobs.Prelude.Int.{pos}
use service_jobs.Dao.Job.{Job}
use service_jobs.Dao.Table.{update_where, satisfies_checks}
use service_jobs.Dao.Claim.{is_claimable}
use service_jobs.Dao.Settle as DaoSettle
use service_jobs.Dao.Settle.{holds}
use service_jobs.Core.Settle as Settle
use service_jobs.Handlers.Claim.{JobClaimRequest}
use service_jobs.Handlers.Settle.{job_settle, result, settle_request}
use service_jobs.Invariant.{IsWellFormed}
use service_jobs.Invariant.Retry.{SameClaim}
use service_jobs.System.{here}
use service_jobs.Server.{State, Event, handle, serve, call, tick, interrupt, settle, claim}
use service_jobs.Server.Steps.{AllMeetSteps}
use service_jobs.Unordered.Process.{SameState, SameTraces, AllUntied, order_forgotten}
use service_jobs.Tests.Data.{a_call, a_session}
use service_jobs.Tests.Tables.{waiting_longer}
use service_jobs.Tests.Runs.{a_process, no_cache, held_one, success}

abbrev rpc_claim : JobClaimRequest
rpc_claim = record { kinds = "mail" ∷ []; worker_id = "x"; limit = pos 2; lease_seconds = pos 60 }

abbrev a_run : List Event
a_run =
    call (settle success a_session) ∷ call (claim rpc_claim a_call) ∷ tick a_call ∷ interrupt ∷ []

abbrev forward : State
forward = record { jobs = held_one ∷ waiting_longer ∷ []; cache = no_cache }

abbrev backward : State
backward = record { jobs = waiting_longer ∷ held_one ∷ []; cache = no_cache }

forward-IsWellFormed : IsWellFormed forward.jobs
forward-IsWellFormed = record {
  sound = (ground arith, (ground arith, tt));
  ids_differ = ((refl, tt), (tt, tt));
  keys_differ = ((refl, tt), (tt, tt));
}

forward-backward : SameState forward backward
forward-backward = record { jobs = Permᴰ.swap refl refl; cache = refl }

forward-held : (id : ℕ) (j : Job) → Memᴰ j forward.jobs → holds id "w" j ≡ true → j ≡ held_one
forward-held id j (Memᴰ.head e) h = e
forward-held id j (Memᴰ.tail (Memᴰ.head e)) h = absurd (ground (arith, rw e at h))
forward-held id j (Memᴰ.tail (Memᴰ.tail m)) h = elim m [ ]

forward-SameClaim :
    (id : ℕ) → SameClaim (settle_request id "w" (result none)) forward.jobs forward.jobs
forward-SameClaim id j k mj mk hj hk =
    rw (forward-held id j mj hj, forward-held id k mk hk) (refl, refl)

a_run-AllMeetSteps : AllMeetSteps a_process a_run forward
a_run-AllMeetSteps = ((here, λ id parsed. forward-SameClaim id), (tt, tt))

a_run-AllUntied : AllUntied a_process a_run forward backward
unfolding handle job_settle Settle.exec DaoSettle.exec DaoSettle.statement update_where
    satisfies_checks is_claimable
a_run-AllUntied = (Permᴰ.swap refl refl, ((tt, tt), tt))

order_forgotten_example :
    SameTraces (serve a_process a_run forward).0 (serve a_process a_run backward).0
    × SameState (serve a_process a_run forward).1 (serve a_process a_run backward).1
order_forgotten_example =
    order_forgotten a_process a_run forward backward forward-IsWellFormed forward-backward
      a_run-AllMeetSteps a_run-AllUntied
