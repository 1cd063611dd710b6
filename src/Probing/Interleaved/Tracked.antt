-- ===== src/Probing/Interleaved/Tracked.antt =====
-- Where the answers of interleaved probes come from (reportQueueDepth of
-- internal/handlers/grpc.status.go).
use service_jobs.Prelude.{
  ℕ, ◌==◌, ◌≤◌, ◌≡◌, refl, sym, ap, Bool-cases, inl, inr, Option, none, some, List, [], ◌∷◌, Memᴰ,
  arith, ◌⊎◌,
}
use service_jobs.Prelude.Int.{ℤ, pos, sub_ℕ, ◌<ℤ◌}
use service_jobs.Errors.{Result, ok, err}
use service_jobs.Core.Depth.{QueueDepth}
use service_jobs.Handlers.Status.{is_fresh}
use service_jobs.Probing.Interleaved.{
  Stage, idle, measuring, holding, told, Measurement, World, Event, looks, measures, stores, passes,
  set, fresh_or_measuring, look, measure, store, advance, interleave, fresh_world,
}

-- Each depth that a measurement of the run returns is as the predicate says.
abbrev AllMeasure : (QueueDepth → Type 0) → List Event → Type 0
AllMeasure Q es = (i : ℕ) (d : QueueDepth) → Memᴰ (measures i (ok d)) es → Q d

-- A depth that was measured, and written to the cache at a time.
abbrev IsWritten : (QueueDepth → Type 0) → List Measurement → QueueDepth → ℕ → Type 0
IsWritten Q ms d stored =
    (m : Measurement) × Memᴰ m ms
    × (m.depth ≡ d)
    × (m.stored_at ≡ stored)
    × (m.measured_at ≤ m.stored_at)
    × Q d

-- An answer and where it comes from.
abbrev IsAnswer : (QueueDepth → Type 0) → ℤ → List Measurement → QueueDepth → ℕ → Type 0
IsAnswer Q ttl ms d when =
    (stored : ℕ) × IsWritten Q ms d stored × (stored ≤ when) × (sub_ℕ when stored <ℤ ttl)

record IsTracked (Q : QueueDepth → Type 0) (ttl : ℤ) (w : World) : Type 0 where
  cached : (d : QueueDepth) → w.cache.cached ≡ some d → IsWritten Q w.writings d w.cache.cached_at
  past : w.cache.cached_at ≤ w.now
  held : (i : ℕ) (d : QueueDepth) (m : ℕ) → w.calls i ≡ holding d m → (m ≤ w.now) × Q d
  answers :
      (i : ℕ) (d : QueueDepth) (when : ℕ)
      → w.calls i ≡ told (some d) when
      → IsAnswer Q ttl w.writings d when

-- A call that is set has its stage, and every other one its old one.
set-cases :
    (i : ℕ) (s : Stage) (calls : ℕ → Stage) (k : ℕ) (x : Stage)
    → set i s calls k ≡ x
    → (s ≡ x) ⊎ (calls k ≡ x)
set-cases i s calls k x h = elim (Bool-cases (k == i)) [
  | inl hit ↦ inl (rw hit at h)
  | inr miss ↦ inr (rw miss at h)
]

-- A call that moves to a stage which is accounted for keeps the account.
set-IsTracked :
    (Q : QueueDepth → Type 0) (ttl : ℤ) (i : ℕ) (s : Stage) (w : World)
    → IsTracked Q ttl w
    → ((d : QueueDepth) (m : ℕ) → s ≡ holding d m → (m ≤ w.now) × Q d)
    → ((d : QueueDepth) (when : ℕ) → s ≡ told (some d) when → IsAnswer Q ttl w.writings d when)
    → IsTracked Q ttl (record w { calls = set i s w.calls })
set-IsTracked Q ttl i s w t held answers = record {
  cached = t.cached;
  past = t.past;
  held = λ k d m h. elim (set-cases i s w.calls k (holding d m) h) [
    | inl here ↦ held d m here
    | inr there ↦ t.held k d m there
  ];
  answers = λ k d when h. elim (set-cases i s w.calls k (told (some d) when) h) [
    | inl here ↦ answers d when here
    | inr there ↦ t.answers k d when there
  ];
}

module _ (Q : QueueDepth → Type 0) (ttl : ℤ) (i : ℕ) (w : World) (t : IsTracked Q ttl w) where
  -- What the reading found decides the stage.
  found-IsTracked :
      (found : Option QueueDepth)
      → w.cache.cached ≡ found
      → IsTracked Q ttl
          (record w { calls = set i (fresh_or_measuring ttl w.now w.cache found) w.calls })
  found-IsTracked none kept = set-IsTracked Q ttl i measuring w t (λ d m h. cc) (λ d when h. cc)
  found-IsTracked (some d) kept = elim (Bool-cases (is_fresh ttl w.now w.cache)) [
    | inr stale ↦ rw stale (set-IsTracked Q ttl i measuring w t (λ d m h. cc) (λ d when h. cc))
    | inl fresh ↦
        let young : sub_ℕ w.now w.cache.cached_at <ℤ ttl = ground arith in
        rw fresh (
          set-IsTracked Q ttl i (told (some d) w.now) w t (λ d m h. cc)
            (λ d' when h.
              let same : d ≡ d' = cc in
              let at_once : w.now ≡ when = cc in
              rw (← same, ← at_once) (w.cache.cached_at, t.cached d kept, t.past, young)))
  ]

  measured-IsTracked :
      (depth : Result QueueDepth)
      → ((d : QueueDepth) → depth ≡ ok d → Q d)
      → IsTracked Q ttl (measure i depth w measuring)
  measured-IsTracked (err e) q =
      set-IsTracked Q ttl i (told none w.now) w t (λ d m h. cc) (λ d when h. cc)
  measured-IsTracked (ok d) q =
      set-IsTracked Q ttl i (holding d w.now) w t
        (λ d' m h.
          let at_once : w.now ≡ m = cc in
          let same : d ≡ d' = cc in (omega (arith, at_once), rw (← same) (q d refl)))
        (λ d' when h. cc)

  -- A writing keeps what was written before.
  later-IsWritten :
      (m : Measurement) (d : QueueDepth) (stored : ℕ)
      → IsWritten Q w.writings d stored
      → IsWritten Q (m ∷ w.writings) d stored
  later-IsWritten m d stored (x, there, same, written, before, q) =
      (x, Memᴰ.tail there, same, written, before, q)

  stored-IsTracked :
      (d : QueueDepth) (m : ℕ)
      → pos 0 <ℤ ttl
      → (m ≤ w.now) × Q d
      → IsTracked Q ttl (store i w (holding d m))
  stored-IsTracked d m lasts (past, q) =
      let new : Measurement = record { depth = d; measured_at = m; stored_at = w.now } in
      let at_now : sub_ℕ w.now w.now <ℤ ttl = ground (arith, lasts) in
      let is_new : IsWritten Q (new ∷ w.writings) d w.now =
        (new, Memᴰ.head refl, refl, refl, past, q) in
      record {
        cached = λ d' h. let same : d ≡ d' = cc in rw (← same) is_new;
        past = omega arith;
        held = λ k d' m' h. elim (set-cases i (told (some d) w.now) w.calls k (holding d' m') h) [
          | inl here ↦ cc
          | inr there ↦ t.held k d' m' there
        ];
        answers = λ k d' when h.
            elim (set-cases i (told (some d) w.now) w.calls k (told (some d') when) h) [
              | inl here ↦
                  let same : d ≡ d' = cc in
                  let at_once : w.now ≡ when = cc in
                  rw (← same, ← at_once) (w.now, is_new, omega arith, at_now)
              | inr there ↦
                  let (stored, by, before, young) = t.answers k d' when there in
                  (stored, later-IsWritten new d' stored by, before, young)
            ];
      }

look-IsTracked :
    (Q : QueueDepth → Type 0) (ttl : ℤ) (i : ℕ) (w : World) (s : Stage)
    → IsTracked Q ttl w
    → IsTracked Q ttl (look ttl i w s)
look-IsTracked Q ttl i w idle t = found-IsTracked Q ttl i w t w.cache.cached refl
look-IsTracked Q ttl i w measuring t = t
look-IsTracked Q ttl i w (holding d m) t = t
look-IsTracked Q ttl i w (told a m) t = t

measure-IsTracked :
    (Q : QueueDepth → Type 0) (ttl : ℤ) (i : ℕ) (w : World) (depth : Result QueueDepth) (s : Stage)
    → ((d : QueueDepth) → depth ≡ ok d → Q d)
    → IsTracked Q ttl w
    → IsTracked Q ttl (measure i depth w s)
measure-IsTracked Q ttl i w depth idle q t = t
measure-IsTracked Q ttl i w depth measuring q t = measured-IsTracked Q ttl i w t depth q
measure-IsTracked Q ttl i w depth (holding d m) q t = t
measure-IsTracked Q ttl i w depth (told a m) q t = t

store-IsTracked :
    (Q : QueueDepth → Type 0) (ttl : ℤ) (i : ℕ) (w : World) (s : Stage)
    → pos 0 <ℤ ttl
    → w.calls i ≡ s
    → IsTracked Q ttl w
    → IsTracked Q ttl (store i w s)
store-IsTracked Q ttl i w idle lasts e t = t
store-IsTracked Q ttl i w measuring lasts e t = t
store-IsTracked Q ttl i w (holding d m) lasts e t =
    stored-IsTracked Q ttl i w t d m lasts (t.held i d m e)
store-IsTracked Q ttl i w (told a m) lasts e t = t

advance-IsTracked :
    (Q : QueueDepth → Type 0) (ttl : ℤ) (w : World) (e : Event)
    → pos 0 <ℤ ttl
    → AllMeasure Q (e ∷ [])
    → IsTracked Q ttl w
    → IsTracked Q ttl (advance ttl w e)
advance-IsTracked Q ttl w (looks i) lasts q t = look-IsTracked Q ttl i w (w.calls i) t
advance-IsTracked Q ttl w (measures i depth) lasts q t =
    measure-IsTracked Q ttl i w depth (w.calls i)
      (λ d e. q i d (Memᴰ.head (ap (λ r. measures i r) (sym e)))) t
advance-IsTracked Q ttl w (stores i) lasts q t = store-IsTracked Q ttl i w (w.calls i) lasts refl t
advance-IsTracked Q ttl w (passes n) lasts q t = record {
  cached = t.cached;
  past = omega (arith, t.past);
  held = λ i d m h. (omega (arith, (t.held i d m h).0), (t.held i d m h).1);
  answers = t.answers;
}

first : {A : Type 0} {x y : A} {ys : List A} → Memᴰ x (y ∷ []) → Memᴰ x (y ∷ ys)
first (Memᴰ.head e) = Memᴰ.head e
first (Memᴰ.tail m) = elim m [ ]

interleave-IsTracked :
    (Q : QueueDepth → Type 0) (ttl : ℤ) (w : World) (es : List Event)
    → pos 0 <ℤ ttl
    → AllMeasure Q es
    → IsTracked Q ttl w
    → IsTracked Q ttl (interleave ttl w es)
interleave-IsTracked Q ttl w [] lasts q t = t
interleave-IsTracked Q ttl w (e ∷ es) lasts q t =
    interleave-IsTracked Q ttl (advance ttl w e) es lasts (λ i d m. q i d (Memᴰ.tail m))
      (advance-IsTracked Q ttl w e lasts (λ i d m. q i d (first m)) t)

fresh_world-IsTracked : (Q : QueueDepth → Type 0) (ttl : ℤ) → IsTracked Q ttl fresh_world
fresh_world-IsTracked Q ttl = record {
  cached = λ d h. cc;
  past = omega arith;
  held = λ i d m h. cc;
  answers = λ i d when h. cc;
}

-- Any number of probes run from an empty cache, interleaved in any way, with a lifetime that is positive.
-- When a call has returned with a depth, a measurement of the run returned that depth, and a call
-- wrote it to the cache after it was measured; the writing is no later than the return, and at the
-- return it was younger than the lifetime.
pub probes_interleaved :
    (ttl : ℤ) (es : List Event) (i : ℕ) (d : QueueDepth) (when : ℕ)
    → pos 0 <ℤ ttl
    → (interleave ttl fresh_world es).calls i ≡ told (some d) when
    → (m : Measurement) × Memᴰ m (interleave ttl fresh_world es).writings
      × (m.depth ≡ d)
      × (m.measured_at ≤ m.stored_at)
      × (m.stored_at ≤ when)
      × (sub_ℕ when m.stored_at <ℤ ttl)
      × ((k : ℕ) × Memᴰ (measures k (ok d)) es)
probes_interleaved ttl es i d when lasts h =
    let Q : QueueDepth → Type 0 = (λ d. (k : ℕ) × Memᴰ (measures k (ok d)) es) in
    let (stored, (m, there, same, written, before, q), past, young) =
      (interleave-IsTracked Q ttl fresh_world es lasts (λ k d m. (k, m))
          (fresh_world-IsTracked Q ttl)).answers
        i d when h in
    (m, there, same, before, rw written past, rw written young, q)
