-- ===== src/Invariant/Exec.antt =====
-- A property of the table through the driver: it holds after a call if every new table has it.
use service_jobs.Prelude.{◌≡◌, ◌≢◌, refl, arith, inl, inr, Option-cases, Option, none, some}
use service_jobs.Errors.{GoError, Result, ok, err, Result-cases}
use service_jobs.Dao.Table.{Table}
use service_jobs.Dao.Exec.{Call, Statement, scan, answer, run_query}

answer-keeps {κ} :
    {A : Type 0} (P : Table → Type κ) (lost : Option GoError) (t : Table) (r : Result (A × Table))
    → P t
    → ((a : A) (u : Table) → r ≡ ok (a, u) → P u)
    → P (answer lost t r).1
answer-keeps P lost t (err e) h step = h
answer-keeps P none t (ok (a, u)) h step = step a u refl
answer-keeps P (some e) t (ok (a, u)) h step = step a u refl

scan-keeps_refused {κ} :
    {A : Type 0} (P : Table → Type κ) (refused : Option GoError) (c : Call) (query : Statement A)
    (t : Table)
    → c.refused ≡ refused
    → P t
    → ((a : A) (u : Table) → query t ≡ ok (a, u) → P u)
    → P (scan c query t).1
unfolding scan
scan-keeps_refused P (some x) c query t e h step = rw (e) h
scan-keeps_refused P none c query t e h step = rw (e) (answer-keeps P c.lost t (query t) h step)

pub scan-keeps {κ} :
    {A : Type 0} (P : Table → Type κ) (c : Call) (query : Statement A) (t : Table)
    → P t
    → ((a : A) (u : Table) → query t ≡ ok (a, u) → P u)
    → P (scan c query t).1
scan-keeps P c query t h step = scan-keeps_refused P c.refused c query t refl h step

pub run_query-keeps {κ} :
    {A B : Type 0} (P : Table → Type κ) (c : Call) (query : Statement A)
    (conclude : Result A → Result B) (t : Table)
    → P t
    → ((a : A) (u : Table) → query t ≡ ok (a, u) → P u)
    → P (run_query c query conclude t).1
unfolding run_query
run_query-keeps P c query conclude t h step = elim (Option-cases c.no_context) [
  | inl e ↦ rw (e, run_query) (scan-keeps P c query t h step)
  | inr (x, e) ↦ rw (e, run_query) h
]

-- What a statement answered, when the method succeeds.
scan-eq_ok :
    {A : Type 0} (c : Call) (query : Statement A) (t : Table) (a : A)
    → (scan c query t).0 ≡ ok a
    → query t ≡ ok (a, (scan c query t).1)
unfolding scan
scan-eq_ok c query t a h = ground arith

pub run_query-eq_ok :
    {A B : Type 0} (c : Call) (query : Statement A) (conclude : Result A → Result B) (t : Table)
    (b : B)
    → ((e : GoError) → conclude (err e) ≢ ok b)
    → (run_query c query conclude t).0 ≡ ok b
    → (a : A) × (query t ≡ ok (a, (run_query c query conclude t).1)) × (conclude (ok a) ≡ ok b)
unfolding run_query
run_query-eq_ok c query conclude t b never h = elim (Option-cases c.no_context) [
  | inr (x, e) ↦ let k = rw (e, run_query) at h in cc
  | inl e ↦
      let k = rw (e, run_query) at h in
      elim (Result-cases (scan c query t).0) [
        | inl (x, failed) ↦ absurd (never x (rw failed at k))
        | inr (a, done) ↦ (a, rw (e, run_query) (scan-eq_ok c query t a done), rw done at k)
      ]
]

-- A call that the driver answers.
pub record IsHealthy (c : Call) : Type 0 where
  pub context : c.no_context ≡ none
  pub runs : c.refused ≡ none
  pub answers : c.lost ≡ none

-- A call whose statement commits; its answer may be lost.
pub record Commits (c : Call) : Type 0 where
  pub context : c.no_context ≡ none
  pub runs : c.refused ≡ none

pub run_query-healthy :
    {A B : Type 0} (c : Call) (query : Statement A) (conclude : Result A → Result B) (t : Table)
    (a : A) (u : Table)
    → IsHealthy c
    → query t ≡ ok (a, u)
    → run_query c query conclude t ≡ (conclude (ok a), u)
unfolding run_query
run_query-healthy c query conclude t a u h q =
    rw (h.context, run_query) (rw (h.runs, scan, q, h.answers) refl)

pub run_query-failing :
    {A B : Type 0} (c : Call) (query : Statement A) (conclude : Result A → Result B) (t : Table)
    (x : GoError)
    → IsHealthy c
    → query t ≡ err x
    → run_query c query conclude t ≡ (conclude (err x), t)
unfolding run_query
run_query-failing c query conclude t x h q = rw (h.context, run_query) (rw (h.runs, scan, q) refl)

pub run_query-Commits :
    {A B : Type 0} (c : Call) (query : Statement A) (conclude : Result A → Result B) (t : Table)
    (a : A) (u : Table)
    → Commits c
    → query t ≡ ok (a, u)
    → (run_query c query conclude t).1 ≡ u
unfolding run_query
run_query-Commits c query conclude t a u h q = ground (arith, h.context, h.runs)
