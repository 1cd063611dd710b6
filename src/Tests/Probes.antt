-- ===== src/Tests/Probes.antt =====
-- The theorems on interleaved probes, applied to concrete runs.
use service_jobs.Prelude.{ℕ, ◌≡◌, ◌≤◌, refl, List, [], ◌∷◌, some, none, Memᴰ, arith}
use service_jobs.Prelude.Int.{pos, sub_ℕ, ◌<ℤ◌}
use service_jobs.Errors.{ok}
use service_jobs.Core.Depth.{QueueDepth}
use service_jobs.Probing.Interleaved.{
  Measurement, Event, looks, measures, stores, passes, interleave, fresh_world,
}
use service_jobs.Probing.Interleaved.Tracked.{probes_interleaved}

abbrev three : QueueDepth
three = record { pending = 3; oldest_pending_age = none }

abbrev nine : QueueDepth
nine = record { pending = 9; oldest_pending_age = none }

-- The call 0 measures first and writes last, so that its older depth stays in the cache.
abbrev overtaken : List Event
overtaken =
    looks 0
    ∷ looks 1
    ∷ measures 0 (ok three)
    ∷ passes 50
    ∷ measures 1 (ok nine)
    ∷ stores 1
    ∷ passes 50
    ∷ stores 0
    ∷ passes 5
    ∷ looks 2
    ∷ []

overtaken-cached : (interleave (pos 10) fresh_world overtaken).cache.cached ≡ some three
overtaken-cached = refl

probes_interleaved_example :
    (m : Measurement) × Memᴰ m (interleave (pos 10) fresh_world overtaken).writings
    × (m.depth ≡ three)
    × (m.measured_at ≤ m.stored_at)
    × (m.stored_at ≤ 105)
    × (sub_ℕ 105 m.stored_at <ℤ pos 10)
    × ((k : ℕ) × Memᴰ (measures k (ok three)) overtaken)
probes_interleaved_example = probes_interleaved (pos 10) overtaken 2 three 105 (omega arith) refl
