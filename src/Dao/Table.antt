-- ===== src/Dao/Table.antt =====
-- The jobs table (internal/models/migrations/20260722233602_jobs_table.up.sql) and what its
-- statements share: the CHECK constraints, an UPDATE with its RETURNING rows, and JSON columns.
use service_jobs.Prelude.{
  ℕ, Bool, true, false, not, ◌&&◌, List, map, Option, none, some, String, str_eq, leb, is_set,
  if◌then◌else◌, filter, all,
}
use service_jobs.Errors.{Result, ok, err, foreign}
use service_jobs.Dao.Job.{Job, Bytes, RawMessage, is_claimed, is_terminal}

abbrev pub Table : Type 0
Table = List Job

-- The largest `smallint`.
abbrev pub max_int16 : ℕ
max_int16 = 32767

-- What `clock_timestamp()` reads at a call site (the second argument) for a row (the first).
abbrev pub Readings : Type 0
Readings = ℕ → ℕ → ℕ

-- A database that reads JSON: the stored form of a text, or nothing if the text is not JSON.
pub record Engine : Type 0 where
  pub jsonb : Bytes → Option Bytes

-- `CHECK (idempotency_key <> '')`, which a null passes.
abbrev pub key_check : Option String → Bool
key_check none = true
key_check (some k) = not (str_eq k "")

-- `(a) = (b)` on conditions.
abbrev pub same_truth : Bool → Bool → Bool
same_truth true b = b
same_truth false b = not b

-- The CHECK constraints of the table, and the range of its two `smallint` columns.
unfoldable pub satisfies_checks : Job → Bool
satisfies_checks j =
    not (str_eq j.kind "")
    && key_check j.idempotency_key
    && leb j.attempt max_int16
    && leb 1 j.max_attempts
    && leb j.max_attempts max_int16
    && same_truth (is_claimed j.status) (is_set j.lease_expires_at)
    && same_truth (is_terminal j.status) (is_set j.settled_at && is_set j.expires_at)

-- The rows that an UPDATE writes, and those that it leaves.
abbrev pub written : (Job → Bool) → (Job → Job) → Table → Table
written p f t = map (λ j. if p j then f j else j) t

-- `UPDATE jobs SET f WHERE p RETURNING *`: all rows or, when one breaks a constraint, none.
unfoldable pub update_where : (Job → Bool) → (Job → Job) → Table → Result (List Job × Table)
update_where p f t =
    let rows = map f (filter p t) in
    if all satisfies_checks rows
    then ok (rows, written p f t)
    else err (foreign "violates check constraint")

-- A JSON parameter: nil is null, and a text that is no JSON is refused.
abbrev pub to_jsonb : Engine → RawMessage → Result RawMessage
to_jsonb e none = ok none
to_jsonb e (some b) = elim (e.jsonb b) [
  | none ↦ err (foreign "invalid input syntax for type json")
  | some v ↦ ok (some v)
]
