-- ===== src/Tests/Clients.antt =====
-- The theorem on the client, applied to a connection that looks the method up.
use Prim.Native.String.{◌++◌}
use service_jobs.Prelude.{
  ◌≡◌, refl, List, [], ◌∷◌, Option, none, String, str_eq, if◌then◌else◌, Memᴰ,
}
use service_jobs.Errors.{Result, ok}
use service_jobs.Handlers.Enqueue.{JobEnqueueRequest}
use service_jobs.Handlers.Get.{JobGetRequest}
use service_jobs.Handlers.Claim.{JobClaimRequest}
use service_jobs.Handlers.Settle.{JobSettleRequest}
use service_jobs.Handlers.Watch.{JobWatchRequest}
use service_jobs.Handlers.Status.{transaction}
use service_jobs.Server.{State, Reply, handle, status_rpc, enqueue, get, claim, settle, watch}
use service_jobs.Client.{
  Message, Client, new_client, status, job_enqueue, job_get, job_claim, job_settle, job_watch,
}
use service_jobs.Client.Reach.{
  Surroundings, Registration, registered, replied, Delivers, client_reaches,
}
use service_jobs.Tests.Data.{a_call, a_session}
use service_jobs.Tests.Runs.{a_process}

abbrev x : Surroundings
x = record {
  pool = transaction;
  asked_at = 0;
  stored_at = 1;
  minted = ok 20;
  statement = a_call;
  session = a_session;
  rounds = [];
}

abbrev look_up : List Registration → String → Message → State → Option Reply × State
look_up [] name m s = (none, s)
look_up (d ∷ ds) name m s =
    let rest = look_up ds name m s in
    if str_eq ("/" ++ d.service_name ++ "/" ++ d.method_name) name then d.handler m s else rest

abbrev invoke : String → String → Message → State → Option Reply × State
invoke conn name m s = look_up (registered a_process x) name m s

invoke-Delivers : Delivers a_process x invoke "jobs:8080"
invoke-Delivers d (Memᴰ.head e) m s = rw e refl
invoke-Delivers d (Memᴰ.tail (Memᴰ.head e)) m s = rw e refl
invoke-Delivers d (Memᴰ.tail (Memᴰ.tail (Memᴰ.head e))) m s = rw e refl
invoke-Delivers d (Memᴰ.tail (Memᴰ.tail (Memᴰ.tail (Memᴰ.head e)))) m s = rw e refl
invoke-Delivers d (Memᴰ.tail (Memᴰ.tail (Memᴰ.tail (Memᴰ.tail (Memᴰ.head e))))) m s = rw e refl
invoke-Delivers d (Memᴰ.tail (Memᴰ.tail (Memᴰ.tail (Memᴰ.tail (Memᴰ.tail (Memᴰ.head e)))))) m s =
    rw e refl
invoke-Delivers d (Memᴰ.tail (Memᴰ.tail (Memᴰ.tail (Memᴰ.tail (Memᴰ.tail (Memᴰ.tail n)))))) m s =
    elim n [ ]

abbrev dial : String → Result String
dial addr = ok addr

client_reaches_example :
    (c : Client String) × (new_client dial "jobs:8080" ≡ ok c)
    × ((s : State)
        → status invoke c s ≡ replied (handle a_process (status_rpc transaction 0 1 a_call) s))
    × ((r : JobEnqueueRequest) (s : State)
        → job_enqueue invoke c r s ≡ replied (handle a_process (enqueue r (ok 20) a_call) s))
    × ((r : JobGetRequest) (s : State)
        → job_get invoke c r s ≡ replied (handle a_process (get r a_call) s))
    × ((r : JobClaimRequest) (s : State)
        → job_claim invoke c r s ≡ replied (handle a_process (claim r a_call) s))
    × ((r : JobSettleRequest) (s : State)
        → job_settle invoke c r s ≡ replied (handle a_process (settle r a_session) s))
    × ((r : JobWatchRequest) (s : State)
        → job_watch invoke c r s ≡ replied (handle a_process (watch r a_call []) s))
client_reaches_example =
    client_reaches a_process x dial invoke "jobs:8080" "jobs:8080" refl invoke-Delivers
