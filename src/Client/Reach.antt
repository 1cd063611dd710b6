-- ===== src/Client/Reach.antt =====
-- The client's calls at the server: the service descriptors of internal/handlers/protogen with the
-- handlers that cmd/grpc/main.go registers.
use Prim.Native.String.{◌++◌}
use service_jobs.Prelude.{ℕ, List, [], ◌∷◌, Memᴰ, Option, none, some, String, ◌≡◌, refl}
use service_jobs.Errors.{Result, ok}
use service_jobs.Dao.Table.{Table}
use service_jobs.Dao.Exec.{Call}
use service_jobs.Core.Settle.{Session}
use service_jobs.Handlers.Enqueue.{JobEnqueueRequest}
use service_jobs.Handlers.Get.{JobGetRequest}
use service_jobs.Handlers.Claim.{JobClaimRequest}
use service_jobs.Handlers.Settle.{JobSettleRequest}
use service_jobs.Handlers.Watch.{JobWatchRequest, Round}
use service_jobs.Handlers.Status.{Handle}
use service_jobs.Server.{
  Process, State, Reply, status_rpc, enqueue, get, claim, settle, watch, handle,
}
use service_jobs.Client.{
  Message, status_request, job_enqueue_request, job_get_request, job_claim_request,
  job_settle_request, job_watch_request, Client, client_of, new_client, status, job_enqueue,
  job_get, job_claim, job_settle, job_watch,
}

-- What surrounds a call at the server.
pub record Surroundings : Type 0 where
  pub pool : Handle
  pub asked_at : ℕ
  pub stored_at : ℕ
  pub minted : Result ℕ
  pub statement : Call
  pub session : Session
  pub rounds : List (Round Table)

-- A method of a service descriptor, with its handler; none when the message is not its request.
pub record Registration : Type 0 where
  pub service_name : String
  pub method_name : String
  pub handler : Message → State → Option Reply × State

abbrev pub replied : Reply × State → Option Reply × State
replied (reply, s) = (some reply, s)

module _ (p : Process) (x : Surroundings) where
  abbrev pub on_status : Message → State → Option Reply × State
  on_status status_request s =
      replied (handle p (status_rpc x.pool x.asked_at x.stored_at x.statement) s)
  on_status _ s = (none, s)

  abbrev pub on_enqueue : Message → State → Option Reply × State
  on_enqueue (job_enqueue_request r) s = replied (handle p (enqueue r x.minted x.statement) s)
  on_enqueue _ s = (none, s)

  abbrev pub on_get : Message → State → Option Reply × State
  on_get (job_get_request r) s = replied (handle p (get r x.statement) s)
  on_get _ s = (none, s)

  abbrev pub on_claim : Message → State → Option Reply × State
  on_claim (job_claim_request r) s = replied (handle p (claim r x.statement) s)
  on_claim _ s = (none, s)

  abbrev pub on_settle : Message → State → Option Reply × State
  on_settle (job_settle_request r) s = replied (handle p (settle r x.session) s)
  on_settle _ s = (none, s)

  abbrev pub on_watch : Message → State → Option Reply × State
  on_watch (job_watch_request r) s = replied (handle p (watch r x.statement x.rounds) s)
  on_watch _ s = (none, s)

  abbrev pub registered : List Registration
  registered =
      record { service_name = "StatusService"; method_name = "Status"; handler = on_status }
      ∷ record {
        service_name = "JobEnqueueService";
        method_name = "JobEnqueue";
        handler = on_enqueue;
      }
      ∷ record { service_name = "JobGetService"; method_name = "JobGet"; handler = on_get }
      ∷ record { service_name = "JobClaimService"; method_name = "JobClaim"; handler = on_claim }
      ∷ record { service_name = "JobSettleService"; method_name = "JobSettle"; handler = on_settle }
      ∷ record { service_name = "JobWatchService"; method_name = "JobWatch"; handler = on_watch }
      ∷ []

  -- What grpc documents of a connection to the server: a call of `/service/method` is answered by the
  -- handler that is registered for that method of that service.
  abbrev pub Delivers :
      {Conn : Type 0} → (Conn → String → Message → State → Option Reply × State) → Conn → Type 0
  Delivers invoke conn =
      (d : Registration)
      → Memᴰ d registered
      → (m : Message) (s : State)
      → invoke conn ("/" ++ d.service_name ++ "/" ++ d.method_name) m s ≡ d.handler m s

-- Where dialling succeeds, the client is made, and over a connection that delivers, each of its
-- methods is answered by the server's handler of the same RPC.
pub client_reaches :
    {Conn : Type 0} (p : Process) (x : Surroundings) (dial : String → Result Conn)
    (invoke : Conn → String → Message → State → Option Reply × State) (addr : String) (conn : Conn)
    → dial addr ≡ ok conn
    → Delivers p x invoke conn
    → (c : Client Conn) × (new_client dial addr ≡ ok c)
      × ((s : State)
          → status invoke c s
            ≡ replied (handle p (status_rpc x.pool x.asked_at x.stored_at x.statement) s))
      × ((r : JobEnqueueRequest) (s : State)
          → job_enqueue invoke c r s ≡ replied (handle p (enqueue r x.minted x.statement) s))
      × ((r : JobGetRequest) (s : State)
          → job_get invoke c r s ≡ replied (handle p (get r x.statement) s))
      × ((r : JobClaimRequest) (s : State)
          → job_claim invoke c r s ≡ replied (handle p (claim r x.statement) s))
      × ((r : JobSettleRequest) (s : State)
          → job_settle invoke c r s ≡ replied (handle p (settle r x.session) s))
      × ((r : JobWatchRequest) (s : State)
          → job_watch invoke c r s ≡ replied (handle p (watch r x.statement x.rounds) s))
unfolding new_client status job_enqueue job_get job_claim job_settle job_watch
client_reaches p x dial invoke addr conn dialled delivers = (
  client_of conn,
  rw dialled refl,
  λ s. delivers _ (Memᴰ.head refl) status_request s,
  λ r s. delivers _ (Memᴰ.tail (Memᴰ.head refl)) (job_enqueue_request r) s,
  λ r s. delivers _ (Memᴰ.tail (Memᴰ.tail (Memᴰ.head refl))) (job_get_request r) s,
  λ r s. delivers _ (Memᴰ.tail (Memᴰ.tail (Memᴰ.tail (Memᴰ.head refl)))) (job_claim_request r) s,
  λ r s.
      delivers _ (Memᴰ.tail (Memᴰ.tail (Memᴰ.tail (Memᴰ.tail (Memᴰ.head refl)))))
        (job_settle_request r) s,
  λ r s.
      delivers _ (Memᴰ.tail (Memᴰ.tail (Memᴰ.tail (Memᴰ.tail (Memᴰ.tail (Memᴰ.head refl))))))
        (job_watch_request r) s,
)
