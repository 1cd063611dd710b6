-- ===== src/Dao/Exec.antt =====
-- What every Exec method of internal/dao shares: the handle from the context, one statement through
-- the driver, and the error that it wraps. The driver is outside the repository: what it answers is
-- part of each call.
use service_jobs.Prelude.{ℕ, Bool, List, [], ◌∷◌, Option, none, some, if◌then◌else◌}
use service_jobs.Errors.{
  GoError, sentinel, join, wrap, Sentinel, no_rows, errors_is, Result, ok, err,
}
use service_jobs.Dao.Job.{Job}
use service_jobs.Dao.Table.{Table, Readings}

-- What the outside contributes to one call of a statement.
pub record Call : Type 0 where
  -- the error of `postgres.GetContext`
  pub no_context : Option GoError
  -- the driver's error when the statement did not run
  pub refused : Option GoError
  -- the driver's error when the statement committed and its answer was lost
  pub lost : Option GoError
  pub clock : Readings
  -- the rows that other transactions hold locked
  pub locked : ℕ → Bool

-- A statement fails as a whole or returns its rows with the new table.
abbrev pub Statement : Type 0 → Type 0
Statement A = Table → Result (A × Table)

abbrev pub answer : {A : Type 0} → Option GoError → Table → Result (A × Table) → Result A × Table
answer lost t (err e) = (err e, t)
answer none t (ok (a, u)) = (ok a, u)
answer (some e) t (ok (a, u)) = (err e, u)

-- `tx.NewRaw(query, …).Scan(ctx, …)`.
unfoldable pub scan : {A : Type 0} → Call → Statement A → Table → Result A × Table
scan c query t = elim c.refused [ some e ↦ (err e, t) | none ↦ answer c.lost t (query t) ]

-- `Scan` into one struct: no row is `sql.ErrNoRows`.
abbrev pub one_row : Result (List Job) → Result Job
one_row (err e) = err e
one_row (ok []) = err (sentinel no_rows)
one_row (ok (j ∷ _)) = ok j

-- `fmt.Errorf("execute query: %w", err)`.
abbrev pub query_error {ℓ} : {A : Type ℓ} → Result A → Result A
query_error (ok a) = ok a
query_error (err e) = err (wrap "execute query" e)

-- `if errors.Is(err, sql.ErrNoRows) { err = errors.Join(err, s) }`.
abbrev pub join_no_rows {ℓ} : {A : Type ℓ} → Sentinel → Result A → Result A
join_no_rows s (ok a) = ok a
join_no_rows s (err e) = err (if errors_is e no_rows then join e (sentinel s) else e)

-- An Exec method: `postgres.GetContext` and its error, then the statement and its conclusion.
unfoldable pub run_query :
    {A B : Type 0} → Call → Statement A → (Result A → Result B) → Table → Result B × Table
unfolding scan
run_query c query conclude t = elim c.no_context [
  | some e ↦ (err (wrap "get transaction" e), t)
  | none ↦ let (a, u) = scan c query t in (conclude a, u)
]
