-- ===== src/Probing.antt =====
-- The backlog that the Status RPC reports (internal/handlers/grpc.status.go): its cache over a
-- sequence of probes.
pub mod Interleaved
use service_jobs.Prelude.{
  ℕ, ◌≡◌, refl, Option, none, some, ◌⊎◌, inl, inr, Bool-cases, Option-cases, arith, List, [], ◌∷◌,
  Memᴰ,
}
use service_jobs.Prelude.Int.{ℤ, ◌<ℤ◌, sub_ℕ}
use service_jobs.Errors.{GoError, Result, ok, err, Result-cases}
use service_jobs.Core.Depth.{QueueDepth}
use service_jobs.Handlers.Status.{
  Duration, ProtoQueueDepth, queue_depth_to_proto, Cache, is_fresh, report_queue_depth, Handle,
  missing, transaction, pool, DependencyStatus, up, down, new_grpc_health_status, report_postgres,
  status,
}

-- One call of the probe: the clock before and after, and what a measurement would give.
pub record Probe : Type 0 where
  pub asked_at : ℕ
  pub stored_at : ℕ
  pub handle : Handle
  pub depth : Result QueueDepth

-- The cache after a sequence of probes.
abbrev pub probes : (ℤ → Duration) → ℤ → List Probe → Cache → Cache
probes durationpb ttl [] c = c
probes durationpb ttl (p ∷ ps) c =
    probes durationpb ttl ps (status durationpb ttl p.handle p.asked_at p.stored_at p.depth c).1

abbrev pub empty_cache : Cache
empty_cache = record { cached = none; cached_at = 0 }

-- Where a kept measurement comes from: one of the probes made it, and its time was kept with it.
abbrev pub IsMeasuredBy : List Probe → QueueDepth → ℕ → Type 0
IsMeasuredBy ps d at = (p : Probe) × Memᴰ p ps × (p.depth ≡ ok d) × (p.stored_at ≡ at)

-- What a probe reports of the queue: its own measurement, one that an earlier probe kept, at a time `at`
-- less than the lifetime before it asks, or nothing when its own measurement fails.
abbrev pub IsReport : (ℤ → Duration) → ℤ → List Probe → Probe → Option ProtoQueueDepth → Type 0
IsReport durationpb ttl ps p queue =
    ((d : QueueDepth) × (p.depth ≡ ok d) × (queue ≡ some (queue_depth_to_proto durationpb d)))
    ⊎ ((d : QueueDepth) × (at : ℕ) × IsMeasuredBy ps d at
        × (sub_ℕ p.asked_at at <ℤ ttl)
        × (queue ≡ some (queue_depth_to_proto durationpb d)))
    ⊎ ((e : GoError) × (p.depth ≡ err e) × (queue ≡ none))

-- The health of a database that a handle reaches, or not.
abbrev pub IsHealthOf : Handle → DependencyStatus → Type 0
IsHealthOf (missing e) health = health ≡ down
IsHealthOf transaction health = health ≡ up
IsHealthOf (pool none) health = health ≡ up
IsHealthOf (pool (some e)) health = health ≡ down

health-IsHealthOf : (h : Handle) → IsHealthOf h (new_grpc_health_status (report_postgres h))
health-IsHealthOf (missing e) = refl
health-IsHealthOf transaction = refl
health-IsHealthOf (pool none) = refl
health-IsHealthOf (pool (some e)) = refl

module _ (durationpb : ℤ → Duration) (ttl : ℤ) where
  -- A probe keeps the cache, or puts its own measurement there.
  probe-keeps :
      (p : Probe) (c : Cache)
      → ((status durationpb ttl p.handle p.asked_at p.stored_at p.depth c).1 ≡ c)
        ⊎ ((d : QueueDepth) × (p.depth ≡ ok d)
            × ((status durationpb ttl p.handle p.asked_at p.stored_at p.depth c).1
                ≡ record { cached = some d; cached_at = p.stored_at }))
  unfolding status report_queue_depth
  probe-keeps p c = elim (Result-cases p.depth) [
    | inl (e, failed) ↦ elim (Option-cases c.cached) [
      | inl nothing ↦ inl (rw (nothing, failed) refl)
      | inr (old, kept) ↦ elim (Bool-cases (is_fresh ttl p.asked_at c)) [
        | inl fresh ↦ inl (rw (kept, fresh) refl)
        | inr stale ↦ inl (rw (kept, stale, failed) refl)
      ]
    ]
    | inr (d, done) ↦ elim (Option-cases c.cached) [
      | inl nothing ↦ inr (d, done, rw (nothing, done) refl)
      | inr (old, kept) ↦ elim (Bool-cases (is_fresh ttl p.asked_at c)) [
        | inl fresh ↦ inl (rw (kept, fresh) refl)
        | inr stale ↦ inr (d, done, rw (kept, stale, done) refl)
      ]
    ]
  ]

  probes-keep :
      (ps : List Probe) (c : Cache)
      → (probes durationpb ttl ps c ≡ c)
        ⊎ ((d : QueueDepth) × ((probes durationpb ttl ps c).cached ≡ some d)
            × IsMeasuredBy ps d (probes durationpb ttl ps c).cached_at)
  probes-keep [] c = inl refl
  probes-keep (p ∷ ps) c =
      elim (probes-keep ps (status durationpb ttl p.handle p.asked_at p.stored_at p.depth c).1) [
        | inr (d, kept, by) ↦ inr (d, kept, (by.0, Memᴰ.tail by.1, by.2, by.3))
        | inl same ↦ elim (probe-keeps p c) [
          | inl unchanged ↦ inl (rw (same, unchanged) refl)
          | inr (d, made, it) ↦
              inr (d, rw (same, it) refl, (p, Memᴰ.head refl, made, rw (same, it) refl))
        ]
      ]

  -- What one probe answers from a cache whose origin is known.
  probe-reports :
      (ps : List Probe) (p : Probe) (c : Cache)
      → (c.cached ≡ none) ⊎ ((d : QueueDepth) × (c.cached ≡ some d) × IsMeasuredBy ps d c.cached_at)
      → IsReport durationpb ttl ps p
          (status durationpb ttl p.handle p.asked_at p.stored_at p.depth c).0.queue
  unfolding status report_queue_depth
  probe-reports ps p c (inl nothing) = elim (Result-cases p.depth) [
    | inl (e, failed) ↦ inr (inr (e, failed, rw (nothing, failed) refl))
    | inr (d, done) ↦ inl (d, done, rw (nothing, done) refl)
  ]
  probe-reports ps p c (inr (old, kept, made)) = elim (Bool-cases (is_fresh ttl p.asked_at c)) [
    | inl fresh ↦ inr (inl (old, c.cached_at, made, ground arith, rw (kept, fresh) refl))
    | inr stale ↦ elim (Result-cases p.depth) [
      | inl (e, failed) ↦ inr (inr (e, failed, rw (kept, stale, failed) refl))
      | inr (d, done) ↦ inl (d, done, rw (kept, stale, done) refl)
    ]
  ]

-- Whatever probes came before, from an empty cache, a probe tells the health of the database by its
-- own connection, never from the cache, and reports the depth that it measures itself, or one that
-- an earlier probe measured and put in the cache less than the cache's lifetime before this one asks;
-- how long before that it was measured is not bounded. It reports none only when its own measurement
-- fails.
pub probe_reports :
    (durationpb : ℤ → Duration) (ttl : ℤ) (ps : List Probe) (p : Probe)
    → let answer =
        (status durationpb ttl p.handle p.asked_at p.stored_at p.depth
          (probes durationpb ttl ps empty_cache)).0 in
      IsHealthOf p.handle answer.postgres × IsReport durationpb ttl ps p answer.queue
unfolding status
probe_reports durationpb ttl ps p = (
  health-IsHealthOf p.handle,
  probe-reports durationpb ttl ps p (probes durationpb ttl ps empty_cache)
      (elim (probes-keep durationpb ttl ps empty_cache) [
        | inl same ↦ inl (rw same refl)
        | inr made ↦ inr made
      ]),
)
