-- ===== src/Unordered/Exec.antt =====
-- One call through the driver (internal/dao), on two tables of the same rows.
use service_jobs.Prelude.{refl, Option, none, some, Option-cases, inl, inr}
use service_jobs.Errors.{GoError, Result, ok, err}
use service_jobs.Dao.Table.{Table}
use service_jobs.Dao.Exec.{Call, Statement, answer, scan, run_query}
use service_jobs.Unordered.{SameRows, Alike, AlikeRuns}

module _ {A : Type 0} (R : A → A → Type 0) where
  -- Two answers of a statement.
  abbrev pub AlikeAnswers : Result (A × Table) → Result (A × Table) → Type 0
  AlikeAnswers = Alike (λ p q. R p.0 q.0 × SameRows p.1 q.1)

  answer-Alike :
      (lost : Option GoError) (t t' : Table) (r r' : Result (A × Table))
      → SameRows t t'
      → AlikeAnswers r r'
      → AlikeRuns R (answer lost t r) (answer lost t' r')
  answer-Alike lost t t' (err x) (err y) d h = (h, d)
  answer-Alike none t t' (ok p) (ok q) d h = h
  answer-Alike (some e) t t' (ok p) (ok q) d h = (refl, h.1)
  answer-Alike lost t t' (ok p) (err y) d h = absurd h
  answer-Alike lost t t' (err x) (ok q) d h = absurd h

  scan-Alike :
      (c : Call) (query : Statement A) (t t' : Table)
      → SameRows t t'
      → AlikeAnswers (query t) (query t')
      → AlikeRuns R (scan c query t) (scan c query t')
  unfolding scan
  scan-Alike c query t t' d h = elim (Option-cases c.refused) [
    | inl runs ↦ rw (runs, scan) (answer-Alike c.lost t t' (query t) (query t') d h)
    | inr (e, fails) ↦ rw (fails, scan) (refl, d)
  ]

  -- A method on two tables of the same rows, whose statement and conclusion keep results alike.
  pub run_query-Alike :
      {B : Type 0} (Q : B → B → Type 0) (c : Call) (query : Statement A)
      (conclude : Result A → Result B) (t t' : Table)
      → SameRows t t'
      → AlikeAnswers (query t) (query t')
      → ((r r' : Result A) → Alike R r r' → Alike Q (conclude r) (conclude r'))
      → AlikeRuns Q (run_query c query conclude t) (run_query c query conclude t')
  unfolding run_query
  run_query-Alike Q c query conclude t t' d h respects = elim (Option-cases c.no_context) [
    | inl runs ↦
        let both = scan-Alike c query t t' d h in
        rw (runs, run_query) (respects (scan c query t).0 (scan c query t').0 both.0, both.1)
    | inr (e, fails) ↦ rw (fails, run_query) (refl, d)
  ]
