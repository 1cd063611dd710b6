-- ===== src/Client.antt =====
-- The client package (pkg/go/client.go) over the generated stubs of internal/handlers/protogen. Dialling,
-- calls and closing are the grpc package's, and parameters. The echo service is golib's.
pub mod Reach
use service_jobs.Prelude.{List, [], ◌∷◌, Option, String}
use service_jobs.Errors.{GoError, Result, ok, err, wrap}
use service_jobs.Handlers.Enqueue.{JobEnqueueRequest}
use service_jobs.Handlers.Get.{JobGetRequest}
use service_jobs.Handlers.Claim.{JobClaimRequest}
use service_jobs.Handlers.Settle.{JobSettleRequest}
use service_jobs.Handlers.Watch.{JobWatchRequest}

-- What a call carries.
pub data Message : Type 0 where
  status_request : Message
  job_enqueue_request : JobEnqueueRequest → Message
  job_get_request : JobGetRequest → Message
  job_claim_request : JobClaimRequest → Message
  job_settle_request : JobSettleRequest → Message
  job_watch_request : JobWatchRequest → Message

-- The constants `…_FullMethodName` of the stubs.
abbrev pub status_full_method_name : String
status_full_method_name = "/StatusService/Status"

abbrev pub job_enqueue_full_method_name : String
job_enqueue_full_method_name = "/JobEnqueueService/JobEnqueue"

abbrev pub job_get_full_method_name : String
job_get_full_method_name = "/JobGetService/JobGet"

abbrev pub job_claim_full_method_name : String
job_claim_full_method_name = "/JobClaimService/JobClaim"

abbrev pub job_settle_full_method_name : String
job_settle_full_method_name = "/JobSettleService/JobSettle"

abbrev pub job_watch_full_method_name : String
job_watch_full_method_name = "/JobWatchService/JobWatch"

-- A generated client is the connection that it was made with.
pub record Stub (Conn : Type 0) : Type 0 where
  pub cc : Conn

-- The struct `client`: a stub for each service, and the connection.
pub record Client (Conn : Type 0) : Type 0 where
  pub status_service : Stub Conn
  pub job_enqueue_service : Stub Conn
  pub job_get_service : Stub Conn
  pub job_claim_service : Stub Conn
  pub job_settle_service : Stub Conn
  pub job_watch_service : Stub Conn
  pub conn : Conn

module _ {Conn : Type 0} where
  abbrev pub client_of : Conn → Client Conn
  client_of conn = record {
    status_service = record { cc = conn };
    job_enqueue_service = record { cc = conn };
    job_get_service = record { cc = conn };
    job_claim_service = record { cc = conn };
    job_settle_service = record { cc = conn };
    job_watch_service = record { cc = conn };
    conn = conn;
  }

  abbrev pub connected : Result Conn → Result (Client Conn)
  connected (err e) = err (wrap "new grpc client" e)
  connected (ok conn) = ok (client_of conn)

  -- `NewClient`, over `grpc.NewClient`.
  unfoldable pub new_client : (String → Result Conn) → String → Result (Client Conn)
  new_client dial addr = connected (dial addr)

  -- The method Close, whose error it drops.
  unfoldable pub close : {S : Type 0} → (Conn → S → Option GoError × S) → Client Conn → S → S
  close shut c s = (shut c.conn s).1

  module _ {A S : Type 0} (invoke : Conn → String → Message → S → A × S) (c : Client Conn) where
    unfoldable pub status : S → A × S
    status s = invoke c.status_service.cc status_full_method_name status_request s

    unfoldable pub job_enqueue : JobEnqueueRequest → S → A × S
    job_enqueue r s =
        invoke c.job_enqueue_service.cc job_enqueue_full_method_name (job_enqueue_request r) s

    unfoldable pub job_get : JobGetRequest → S → A × S
    job_get r s = invoke c.job_get_service.cc job_get_full_method_name (job_get_request r) s

    unfoldable pub job_claim : JobClaimRequest → S → A × S
    job_claim r s = invoke c.job_claim_service.cc job_claim_full_method_name (job_claim_request r) s

    unfoldable pub job_settle : JobSettleRequest → S → A × S
    job_settle r s =
        invoke c.job_settle_service.cc job_settle_full_method_name (job_settle_request r) s

    unfoldable pub job_watch : JobWatchRequest → S → A × S
    job_watch r s = invoke c.job_watch_service.cc job_watch_full_method_name (job_watch_request r) s

-- The interface Client, but for the echo: a method for each RPC, and Close.
pub record ClientMethods (A S : Type 0) : Type 0 where
  pub status : S → A × S
  pub job_enqueue : JobEnqueueRequest → S → A × S
  pub job_get : JobGetRequest → S → A × S
  pub job_claim : JobClaimRequest → S → A × S
  pub job_settle : JobSettleRequest → S → A × S
  pub job_watch : JobWatchRequest → S → A × S
  pub close : S → S

-- The struct meets it.
abbrev pub methods_of :
    {Conn A S : Type 0}
    → (Conn → String → Message → S → A × S)
    → (Conn → S → Option GoError × S)
    → Client Conn
    → ClientMethods A S
unfolding status job_enqueue job_get job_claim job_settle job_watch close
methods_of invoke shut c = record {
  status = status invoke c;
  job_enqueue = job_enqueue invoke c;
  job_get = job_get invoke c;
  job_claim = job_claim invoke c;
  job_settle = job_settle invoke c;
  job_watch = job_watch invoke c;
  close = close shut c;
}
