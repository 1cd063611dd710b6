-- ===== src/Abstract/Bounds.antt =====
-- How long the life of a job is, counted on the tables of a run.
use service_jobs.Prelude.{
  ℕ, ◌+◌, ◌-◌, ◌*◌, ◌==◌, ◌&&◌, ◌≤◌, ◌≡◌, ◌≢◌, Bool, false, inl, inr, if◌then◌else◌, arith,
}
use service_jobs.Dao.Table.{Table}
use service_jobs.Invariant.{IsWellFormed}
use service_jobs.System.{Service, Step, Steps, here, next, enqueue, claim, settle, reap, expire}
use service_jobs.Abstract.{
  Phase, absent, waiting, held, settled, Act, Move, Follows, submit, begin, hand_back, succeed,
  fail, recover, abandon, forget, phase_of,
}
use service_jobs.Abstract.Runs.{StepFollows, StepsFollow}
use service_jobs.Abstract.Steps.{service_refines}

-- Not recorded, waiting, held or settled.
abbrev pub kind_of : Phase → ℕ
kind_of absent = 0
kind_of (waiting a m) = 1
kind_of (held w a m) = 2
kind_of (settled s) = 3

-- What a change of the tables counts for: one if the job moved, and one if it was taken up.
abbrev pub moved : Phase → Phase → ℕ
moved p q = if kind_of p == kind_of q then 0 else 1

abbrev pub taken_up : Phase → Phase → ℕ
taken_up p q = if kind_of p == 1 && kind_of q == 2 then 1 else 0

-- The sum over the operations of a run. Those between the read of a settle and its write count where
-- it writes on what they left.
abbrev mutual
  count_step :
      (weigh : Phase → Phase → ℕ) (x : Service) (id : ℕ) {t u : Table} (step : Step x t u)
      → StepFollows x id step
      → ℕ
  count_step weigh x id {t} {u} (enqueue minted c r e) f = weigh (phase_of id t) (phase_of id u)
  count_step weigh x id {t} {u} (claim c r e) f = weigh (phase_of id t) (phase_of id u)
  count_step weigh x id {t} {u} (settle s r between same e) (fs, inl f) =
      weigh (phase_of id t) (phase_of id u)
  count_step weigh x id {t} {u} (settle s r between same e) (fs, inr f) =
      count weigh x id between fs + weigh (phase_of id (s.between t)) (phase_of id u)
  count_step weigh x id {t} {u} (reap c e) f = weigh (phase_of id t) (phase_of id u)
  count_step weigh x id {t} {u} (expire clock scheduled e) f = weigh (phase_of id t) (phase_of id u)

  pub count :
      (weigh : Phase → Phase → ℕ) (x : Service) (id : ℕ) {t u : Table} (path : Steps x t u)
      → StepsFollow x id path
      → ℕ
  count weigh x id here f = 0
  count weigh x id (next path step) (fs, f) =
      count weigh x id path fs + count_step weigh x id step f

-- The most moves that a job which is recorded can still make, and the most runs.
abbrev moves_left : Phase → ℕ
moves_left absent = 0
moves_left (waiting a m) = 2 * (m - a) + 1
moves_left (held w a m) = 2 * (m - a) + 2
moves_left (settled s) = 0

abbrev runs_left : Phase → ℕ
runs_left absent = 0
runs_left (waiting a m) = m - a
runs_left (held w a m) = m - a
runs_left (settled s) = 0

-- A job that is recorded.
abbrev IsRecorded : Phase → Type 0
IsRecorded absent = ⊥
IsRecorded (waiting a m) = Unit {0}
IsRecorded (held w a m) = Unit {0}
IsRecorded (settled s) = Unit {0}

-- A part of a run from one phase to another uses up what was left.
abbrev Uses : (moves runs : ℕ) → Phase → Phase → Type 0
Uses moves runs p q =
    IsRecorded q × (moves_left q + moves ≤ moves_left p) × (runs_left q + runs ≤ runs_left p)

Move-Uses :
    {b : Bool} {act : Act} {p q : Phase}
    → b ≡ false
    → Move b act p q
    → IsRecorded p
    → Uses (moved p q) (taken_up p q) p q
Move-Uses off (submit h) r = elim r [ ]
Move-Uses off (begin w h e) r = (tt, omega arith, omega arith)
Move-Uses off (hand_back h) r = (tt, omega arith, omega arith)
Move-Uses off succeed r = (tt, omega arith, omega arith)
Move-Uses off fail r = (tt, omega arith, omega arith)
Move-Uses off (recover h) r = (tt, omega arith, omega arith)
Move-Uses off (abandon h) r = (tt, omega arith, omega arith)
Move-Uses off (forget h) r = cc

stay-Uses : (p : Phase) → IsRecorded p → Uses (moved p p) (taken_up p p) p p
stay-Uses absent r = elim r [ ]
stay-Uses (waiting a m) r = (tt, omega arith, omega arith)
stay-Uses (held w a m) r = (tt, omega arith, omega arith)
stay-Uses (settled s) r = (tt, omega arith, omega arith)

Follows-Uses :
    {b : Bool} {act : Act} (p q : Phase)
    → b ≡ false
    → Follows b act p q
    → IsRecorded p
    → Uses (moved p q) (taken_up p q) p q
Follows-Uses p q off (inl same) r = rw (← same) (stay-Uses p r)
Follows-Uses p q off (inr move) r = Move-Uses off move r

Uses-append : (m n k l : ℕ) (p q r : Phase) → Uses m k p q → Uses n l q r → Uses (m + n) (k + l) p r
Uses-append m n k l p q r (_, a, b) (z, c, d) = (z, omega (arith, a, c), omega (arith, b, d))

module _ (x : Service) (id : ℕ) (off : x.purges ≡ false) where
  mutual
    step-Uses :
        {t u : Table} (step : Step x t u) (f : StepFollows x id step)
        → IsRecorded (phase_of id t)
        → Uses
            (count_step moved x id step f)
            (count_step taken_up x id step f)
            (phase_of id t)
            (phase_of id u)
    step-Uses (enqueue minted c r e) f there = Follows-Uses _ _ off f there
    step-Uses (claim c r e) f there = Follows-Uses _ _ off f there
    step-Uses (settle s r between same e) (fs, inl f) there = Follows-Uses _ _ off f there
    step-Uses (settle s r between same e) (fs, inr f) there =
        let first = steps-Uses between fs there in
        Uses-append _ _ _ _ _ _ _ first (Follows-Uses _ _ off f first.0)
    step-Uses (reap c e) f there = Follows-Uses _ _ off f there
    step-Uses (expire clock scheduled e) f there = cc

    steps-Uses :
        {t u : Table} (path : Steps x t u) (f : StepsFollow x id path)
        → IsRecorded (phase_of id t)
        → Uses
            (count moved x id path f)
            (count taken_up x id path f)
            (phase_of id t)
            (phase_of id u)
    steps-Uses here f there = (there, omega arith, omega arith)
    steps-Uses (next path step) (fs, f) there =
        let first = steps-Uses path fs there in
        Uses-append _ _ _ _ _ _ _ first (step-Uses step f first.0)

-- In every run from a well-formed table without a purge, a job that waits with `limit` runs allowed and
-- none begun is still recorded at the end, each operation moves it as the abstract life says, and
-- counted on the tables of the run it is taken up at most `limit` times and moves at most
-- 2 * limit + 1 times. The same operations as before may run between a settle's read and its write;
-- they count where the settle writes on what they left, and the bounds hold whichever it is.
pub life_bounded :
    (x : Service) (id limit : ℕ) (t u : Table) (path : Steps x t u)
    → x.purges ≡ false
    → IsWellFormed t
    → phase_of id t ≡ waiting 0 limit
    → (phase_of id u ≢ absent)
      × StepsFollow x id path
      × ((f : StepsFollow x id path)
          → (count taken_up x id path f ≤ limit) × (count moved x id path f ≤ 2 * limit + 1))
life_bounded x id limit t u path off w stands =
    let there : IsRecorded (phase_of id t) = rw stands tt in
    let f = service_refines x id t u path w in
    (
      (λ gone. rw gone at (steps-Uses x id off path f there).0),
      f,
      λ g.
          let (_, moves, runs) = steps-Uses x id off path g there in
          let most : moves_left (phase_of id t) ≡ 2 * limit + 1 = rw stands (omega arith) in
          let runs_most : runs_left (phase_of id t) ≡ limit = rw stands (omega arith) in
          (omega (arith, runs, runs_most), omega (arith, moves, most)),
    )
