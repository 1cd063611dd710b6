-- ===== src/Unordered.antt =====
-- The jobs table without the order of its rows (internal/models/migrations): SQL's tables have none, and
-- the lists that stand for them do.
pub mod Lists
pub mod Exec
pub mod Rows
pub mod Unique
pub mod Statements
pub mod Methods
pub mod Services
pub mod Settles
pub mod Handlers
pub mod Process
use mathlib.Core.List.{Permᴰ}
use service_jobs.Prelude.{◌≡◌}
use service_jobs.Errors.{Result, ok, err}
use service_jobs.Dao.Table.{Table}

-- The same rows, in any order.
abbrev pub SameRows : Table → Table → Type 0
SameRows t u = Permᴰ t u

-- The same error, or values that are related.
abbrev pub Alike : {A : Type 0} → (A → A → Type 0) → Result A → Result A → Type 0
Alike R (ok a) (ok b) = R a b
Alike R (ok a) (err y) = ⊥
Alike R (err x) (ok b) = ⊥
Alike R (err x) (err y) = x ≡ y

-- Two runs of a method: results alike, and tables of the same rows.
abbrev pub AlikeRuns :
    {A : Type 0} → (A → A → Type 0) → Result A × Table → Result A × Table → Type 0
AlikeRuns R p q = Alike R p.0 q.0 × SameRows p.1 q.1
