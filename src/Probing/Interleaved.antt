-- ===== src/Probing/Interleaved.antt =====
-- Probes that run at once (reportQueueDepth of internal/handlers/grpc.status.go). The mutex makes the
-- reading of the cache one step and its writing another; the measurement runs between the two, and
-- other probes run meanwhile. The clock is the monotonic one.
pub mod Tracked
use service_jobs.Prelude.{
  ℕ, ◌+◌, ◌==◌, ◌≤◌, ◌≡◌, refl, sym, ap, Bool-cases, inl, inr, Option, none, some, List, [], ◌∷◌,
  Memᴰ, arith, if◌then◌else◌, true, ◌⊎◌, Option-cases,
}
use service_jobs.Prelude.Int.{ℤ, pos, sub_ℕ, ◌<ℤ◌}
use service_jobs.Errors.{GoError, Result, ok, err}
use service_jobs.Core.Depth.{QueueDepth}
use service_jobs.Handlers.Status.{Cache, is_fresh}

-- Where one call of reportQueueDepth is: before its reading, in the measurement, before its writing, or
-- returned. The times are those of the measurement and of the return.
pub data Stage : Type 0 where
  idle : Stage
  measuring : Stage
  holding : QueueDepth → ℕ → Stage
  told : Option QueueDepth → ℕ → Stage

-- What was written to the cache.
pub record Measurement : Type 0 where
  pub depth : QueueDepth
  pub measured_at : ℕ
  pub stored_at : ℕ

-- The handler's fields and the calls, with a record of what was written that the code does not keep.
pub record World : Type 0 where
  pub cache : Cache
  pub now : ℕ
  pub calls : ℕ → Stage
  pub writings : List Measurement

pub data Event : Type 0 where
  looks : ℕ → Event
  measures : ℕ → Result QueueDepth → Event
  stores : ℕ → Event
  passes : ℕ → Event

abbrev pub set : ℕ → Stage → (ℕ → Stage) → ℕ → Stage
set i s calls k = if k == i then s else calls k

-- The first critical section and the test of `fresh`.
abbrev pub fresh_or_measuring : ℤ → ℕ → Cache → Option QueueDepth → Stage
fresh_or_measuring ttl now c none = measuring
fresh_or_measuring ttl now c (some d) = if is_fresh ttl now c then told (some d) now else measuring

abbrev pub look : ℤ → ℕ → World → Stage → World
look ttl i w idle = record w {
  calls = set i (fresh_or_measuring ttl w.now w.cache w.cache.cached) w.calls;
}
look ttl i w measuring = w
look ttl i w (holding d at_time) = w
look ttl i w (told answer at_time) = w

-- The call of the service, and the return on its error.
abbrev pub measure_stage : ℕ → Result QueueDepth → Stage
measure_stage now (err e) = told none now
measure_stage now (ok d) = holding d now

abbrev pub measure : ℕ → Result QueueDepth → World → Stage → World
measure i depth w idle = w
measure i depth w measuring = record w { calls = set i (measure_stage w.now depth) w.calls }
measure i depth w (holding d at_time) = w
measure i depth w (told answer at_time) = w

-- The second critical section, and the return.
abbrev pub store : ℕ → World → Stage → World
store i w idle = w
store i w measuring = w
store i w (holding d at_time) = record {
  cache = record { cached = some d; cached_at = w.now };
  now = w.now;
  calls = set i (told (some d) w.now) w.calls;
  writings = record { depth = d; measured_at = at_time; stored_at = w.now } ∷ w.writings;
}
store i w (told answer at_time) = w

abbrev pub advance : ℤ → World → Event → World
advance ttl w (looks i) = look ttl i w (w.calls i)
advance ttl w (measures i depth) = measure i depth w (w.calls i)
advance ttl w (stores i) = store i w (w.calls i)
advance ttl w (passes n) = record w { now = w.now + n }

-- A run of any number of calls, interleaved in any way.
abbrev pub interleave : ℤ → World → List Event → World
interleave ttl w [] = w
interleave ttl w (e ∷ es) = interleave ttl (advance ttl w e) es

abbrev pub fresh_world : World
fresh_world = record {
  cache = record { cached = none; cached_at = 0 };
  now = 0;
  calls = λ k. idle;
  writings = [];
}
