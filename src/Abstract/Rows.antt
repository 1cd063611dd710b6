-- ===== src/Abstract/Rows.antt =====
-- The phase of a job through each statement of internal/dao.
use service_jobs.Prelude.{
  ℕ, ◌==◌, Bool, true, false, ◌≡◌, ◌≤◌, ◌<◌, refl, sym, [], ◌∷◌, ◌++◌, Option, none, some, String,
  Memᴰ, All, find?, filter, any, Bool-cases, Option-cases, inl, inr, arith, ltb, ◌⊎◌,
}
use service_jobs.Prelude.Int.{ℤ}
use service_jobs.Dao.Job.{
  Job, JobStatus, RawMessage, pending, claimed, abandoned, cancelled, is_pending, is_claimed,
  is_terminal, succeeded, failed,
}
use service_jobs.Dao.Table.{Table, Readings, written}
use service_jobs.Dao.Claim.{claim_row}
use service_jobs.Dao.Settle.{settle_row, JobSettleRequest}
use service_jobs.Dao.Requeue.{requeue_row}
use service_jobs.Dao.Reap.{reap_row}
use service_jobs.Invariant.{IsSound, Apart, same_id}
use service_jobs.Invariant.Update.{KeepsIdentity, rewrite}
use service_jobs.Abstract.{
  Act, claiming, settling, sweeping, purging, Move, Follows, begin, hand_back, succeed, fail,
  recover, abandon, forget, phase_of, phase_of_row, phase_by, absent, settled,
}

abbrev has_id : ℕ → Job → Bool
has_id id j = j.id == id

-- A search result is a member with the id.
find?-mem : (id : ℕ) (t : Table) (j : Job) → find? (has_id id) t ≡ some j → Memᴰ j t
find?-mem id [] j h = cc
find?-mem id (x ∷ xs) j h = elim (Bool-cases (has_id id x)) [
  | inl hit ↦ let e = rw hit at h in Memᴰ.head (sym (let e' : x ≡ j = cc in e'))
  | inr miss ↦ Memᴰ.tail (find?-mem id xs j (rw miss at h))
]

abbrev rewritten : (Job → Bool) → (Job → Job) → Option Job → Option Job
rewritten p f none = none
rewritten p f (some j) = some (rewrite p f j)

rewrite-id :
    (p : Job → Bool) (f : Job → Job) → KeepsIdentity f → (j : Job) → (rewrite p f j).id ≡ j.id
rewrite-id p f same j = elim (Bool-cases (p j)) [
  | inl hit ↦ rw hit (same.id j)
  | inr miss ↦ rw miss refl
]

-- An update does not change which row a search by id finds.
find?-written :
    (p : Job → Bool) (f : Job → Job) (same : KeepsIdentity f) (id : ℕ) (t : Table)
    → find? (has_id id) (written p f t) ≡ rewritten p f (find? (has_id id) t)
find?-written p f same id [] = refl
find?-written p f same id (x ∷ xs) = elim (Bool-cases (has_id id x)) [
  | inl hit ↦ rw (rewrite-id p f same x, hit) refl
  | inr miss ↦ rw (rewrite-id p f same x, miss) (find?-written p f same id xs)
]

-- An update whose rows each make one move moves every job by one move or none.
pub written-Follows :
    {b : Bool} {act : Act} (p : Job → Bool) (f : Job → Job)
    → KeepsIdentity f
    → (id : ℕ) (t : Table)
    → ((j : Job) → Memᴰ j t → p j ≡ true → Move b act (phase_of_row j) (phase_of_row (f j)))
    → Follows b act (phase_of id t) (phase_of id (written p f t))
written-Follows p f same id t step = elim (Option-cases (find? (has_id id) t)) [
  | inl nothing ↦ rw (find?-written p f same id t, nothing) (inl refl)
  | inr (j, found) ↦ elim (Bool-cases (p j)) [
    | inr miss ↦ rw (find?-written p f same id t, found, miss) (inl refl)
    | inl hit ↦
        rw (find?-written p f same id t, found, hit) (inr (step j (find?-mem id t j found) hit))
  ]
]

pending_of : (s : JobStatus) → is_pending s ≡ true → s ≡ pending
pending_of s h = ground arith

claimed_of : (s : JobStatus) → is_claimed s ≡ true → s ≡ claimed
claimed_of s h = ground arith

pub claim_row-Move :
    {b : Bool} (clock : Readings) (worker : String) (lease : ℤ) (j : Job)
    → IsSound j
    → is_pending j.status ≡ true
    → Move b claiming (phase_of_row j) (phase_of_row (claim_row clock worker lease j))
unfolding claim_row
claim_row-Move clock worker lease j s h =
    let left : j.attempt < j.max_attempts = s.attempt_left h in
    rw (pending_of j.status h) (begin worker left (omega arith))

pub requeue_row-Move :
    {b : Bool} (clock : Readings) (j : Job)
    → is_claimed j.status ≡ true
    → j.attempt < j.max_attempts
    → Move b settling (phase_of_row j) (phase_of_row (requeue_row clock j))
unfolding requeue_row
requeue_row-Move clock j h left = rw (claimed_of j.status h) (hand_back left)

pub reap_row-Move :
    {b : Bool} (clock : Readings) (error : RawMessage) (retention : ℤ) (j : Job)
    → is_claimed j.status ≡ true
    → Move b sweeping (phase_of_row j) (phase_of_row (reap_row clock error retention j))
unfolding reap_row
reap_row-Move clock error retention j h = elim (Bool-cases (ltb j.attempt j.max_attempts)) [
  | inl left ↦
      let more : j.attempt < j.max_attempts = ground arith in
      rw (left, claimed_of j.status h) (recover more)
  | inr none_left ↦
      let spent : j.max_attempts ≤ j.attempt = ground arith in
      rw (none_left, claimed_of j.status h) (abandon spent)
]

-- What the service settles a job as.
pub settle_row-Move :
    {b : Bool} (clock : Readings) (r : JobSettleRequest) (result error : RawMessage) (j : Job)
    → is_claimed j.status ≡ true
    → (r.status ≡ succeeded) ⊎ (r.status ≡ failed)
    → Move b settling (phase_of_row j) (phase_of_row (settle_row clock r result error j))
unfolding settle_row
settle_row-Move clock r result error j h (inl won) = rw (won, claimed_of j.status h) succeed
settle_row-Move clock r result error j h (inr lost) = rw (lost, claimed_of j.status h) fail

-- A new row at the end is found only by its own id, where nothing was.
pub insert-Follows :
    {b : Bool} {act : Act} (id : ℕ) (t : Table) (j : Job)
    → any (λ (x : Job). x.id == j.id) t ≡ false
    → Move b act absent (phase_of_row j)
    → Follows b act (phase_of id t) (phase_of id (t ++ j ∷ []))
insert-Follows id [] j free new = elim (Bool-cases (has_id id j)) [
  | inl hit ↦ rw hit (inr new)
  | inr miss ↦ rw miss (inl refl)
]
insert-Follows id (x ∷ xs) j free new = elim (Bool-cases (has_id id x)) [
  | inl hit ↦ rw hit (inl refl)
  | inr miss ↦ rw miss (insert-Follows id xs j (ground arith) new)
]

phase_by-settled :
    (s : JobStatus) (w : Option String) (a m : ℕ)
    → is_terminal s ≡ true
    → (x : JobStatus) × (phase_by s w a m ≡ settled x)
phase_by-settled pending w a m h = cc
phase_by-settled claimed w a m h = cc
phase_by-settled succeeded w a m h = (succeeded, refl)
phase_by-settled failed w a m h = (failed, refl)
phase_by-settled abandoned w a m h = (abandoned, refl)
phase_by-settled cancelled w a m h = (cancelled, refl)

-- No row after one with an id has that id.
find?-others :
    (kept : Job → Bool) (id : ℕ) (x : Job) (xs : Table)
    → All (λ y. same_id x y ≡ false) xs
    → has_id id x ≡ true
    → find? (has_id id) (filter kept xs) ≡ none
find?-others kept id x [] h e = refl
find?-others kept id x (y ∷ ys) h e =
    let other : has_id id y ≡ false = ground arith in
    elim (Bool-cases (kept y)) [
      | inl stays ↦ rw (stays, other) (find?-others kept id x ys h.1 e)
      | inr goes ↦ rw goes (find?-others kept id x ys h.1 e)
    ]

-- A deletion of settled rows forgets them, and moves no other job.
pub filter-Follows :
    {b : Bool}
    → b ≡ true
    → (kept : Job → Bool) (id : ℕ) (t : Table) → Apart same_id t
    → ((j : Job) → Memᴰ j t → kept j ≡ false → is_terminal j.status ≡ true)
    → Follows b purging (phase_of id t) (phase_of id (filter kept t))
filter-Follows on kept id [] apart over = inl refl
filter-Follows on kept id (x ∷ xs) apart over =
    let rest = filter-Follows on kept id xs apart.1 (λ j m. over j (Memᴰ.tail m)) in
    elim (Bool-cases (has_id id x)) [
      | inr miss ↦ elim (Bool-cases (kept x)) [
        | inl stays ↦ rw (stays, miss) rest
        | inr goes ↦ rw (goes, miss) rest
      ]
      | inl hit ↦ elim (Bool-cases (kept x)) [
        | inl stays ↦ rw (stays, hit) (inl refl)
        | inr goes ↦
            let (s, e) =
              phase_by-settled x.status x.claimed_by x.attempt x.max_attempts
                (over x (Memᴰ.head refl) goes) in
            rw (goes, hit, find?-others kept id x xs apart.0 hit, e) (inr (forget on))
      ]
    ]
