-- ===== src/Handlers/Status.antt =====
-- The Status RPC (internal/handlers/grpc.status.go). The monotonic clock's readings, the ping, and
-- the conversion of a duration to its message are parameters.
use service_jobs.Prelude.{ℕ, Bool, Option, none, some, if◌then◌else◌}
use service_jobs.Prelude.Int.{ℤ, sub_ℕ, ltb_ℤ}
use service_jobs.Errors.{GoError, Result, ok, err}
use service_jobs.Core.Depth.{QueueDepth}

-- protogen.DependencyStatus.
pub data DependencyStatus : Type 0 where
  unspecified up down : DependencyStatus

abbrev pub new_grpc_health_status : Option GoError → DependencyStatus
new_grpc_health_status none = up
new_grpc_health_status (some e) = down

-- google.protobuf.Duration, and the message protogen.QueueDepth.
pub record Duration : Type 0 where
  pub seconds : ℤ
  pub nanos : ℤ

pub record ProtoQueueDepth : Type 0 where
  pub pending : ℕ
  pub oldest_pending_age : Option Duration

abbrev pub queue_depth_to_proto : (ℤ → Duration) → QueueDepth → ProtoQueueDepth
queue_depth_to_proto durationpb d = record {
  pending = d.pending;
  oldest_pending_age = elim d.oldest_pending_age [ none ↦ none | some a ↦ some (durationpb a) ];
}

-- What `postgres.GetContext` gives: an error, a transaction, or a pool and the error of its ping.
pub data Handle : Type 0 where
  missing : GoError → Handle
  transaction : Handle
  pool : Option GoError → Handle

abbrev pub report_postgres : Handle → Option GoError
report_postgres (missing e) = some e
report_postgres transaction = none
report_postgres (pool ping) = ping

-- The service that measures the backlog, in surroundings E and on a state S.
abbrev pub QueueDepthService : Type 0 → Type 0 → Type 0
QueueDepthService E S = E → S → Result QueueDepth × S

-- The fields of the struct GrpcStatus that do not change, and NewGrpcStatus; the lifetime is in
-- nanoseconds.
pub record GrpcStatus (E S : Type 0) : Type 0 where
  pub queue_depth : QueueDepthService E S
  pub cache_ttl : ℤ

abbrev pub new_grpc_status : {E S : Type 0} → QueueDepthService E S → ℤ → GrpcStatus E S
new_grpc_status queue_depth cache_ttl = record { queue_depth = queue_depth; cache_ttl = cache_ttl }

-- The mutable fields of GrpcStatus, which its mutex guards.
pub record Cache : Type 0 where
  pub cached : Option QueueDepth
  pub cached_at : ℕ

-- `time.Since(cachedAt) < cacheTTL`.
abbrev pub is_fresh : ℤ → ℕ → Cache → Bool
is_fresh ttl now c = ltb_ℤ (sub_ℕ now c.cached_at) ttl

abbrev pub measured :
    (ℤ → Duration) → ℕ → Result QueueDepth → Cache → Option ProtoQueueDepth × Cache
measured durationpb stored_at (err e) c = (none, c)
measured durationpb stored_at (ok d) c =
    (some (queue_depth_to_proto durationpb d), record { cached = some d; cached_at = stored_at })

abbrev pub report_cached :
    (ℤ → Duration)
    → Bool
    → Option QueueDepth
    → Option ProtoQueueDepth × Cache
    → Cache
    → Option ProtoQueueDepth × Cache
report_cached durationpb fresh none miss c = miss
report_cached durationpb fresh (some d) miss c =
    if fresh then (some (queue_depth_to_proto durationpb d), c) else miss

-- `asked_at` is the clock's reading for the age of the cache, `stored_at` the one kept with a new
-- measurement, `depth` what the measurement returns when it is made.
unfoldable pub report_queue_depth :
    (ℤ → Duration) → ℤ → ℕ → ℕ → Result QueueDepth → Cache → Option ProtoQueueDepth × Cache
report_queue_depth durationpb ttl asked_at stored_at depth c =
    report_cached durationpb (is_fresh ttl asked_at c) c.cached
      (measured durationpb stored_at depth c) c

pub record StatusResponse : Type 0 where
  pub postgres : DependencyStatus
  pub queue : Option ProtoQueueDepth

-- The RPC.
unfoldable pub status :
    (ℤ → Duration) → ℤ → Handle → ℕ → ℕ → Result QueueDepth → Cache → StatusResponse × Cache
unfolding report_queue_depth
status durationpb ttl handle asked_at stored_at depth c =
    let (queue, c') = report_queue_depth durationpb ttl asked_at stored_at depth c in
    (record { postgres = new_grpc_health_status (report_postgres handle); queue = queue }, c')
