-- ===== src/Invariant/Update.antt =====
-- An UPDATE on a well-formed table: when it is accepted, and what it keeps.
use service_jobs.Prelude.{
  Bool, true, false, ◌≡◌, refl, List, [], ◌∷◌, map, filter, all, Memᴰ, All, All-imp, Bool-cases,
  inl, inr, if◌then◌else◌,
}
use service_jobs.Errors.{ok}
use service_jobs.Dao.Job.{Job}
use service_jobs.Dao.Table.{Table, satisfies_checks, written, update_where}
use service_jobs.Invariant.{IsSound, IsSound-checks, IsWellFormed, Apart, same_id, same_submission}

-- An update that leaves what identifies a row.
pub record KeepsIdentity (f : Job → Job) : Type 0 where
  pub id : (j : Job) → (f j).id ≡ j.id
  pub owner : (j : Job) → (f j).owner_id ≡ j.owner_id
  pub kind : (j : Job) → (f j).kind ≡ j.kind
  pub key : (j : Job) → (f j).idempotency_key ≡ j.idempotency_key

abbrev pub rewrite : (Job → Bool) → (Job → Job) → Job → Job
rewrite p f j = if p j then f j else j

rewrite-cases {κ} :
    (P : Job → Type κ) (p : Job → Bool) (f : Job → Job) (j : Job)
    → P j
    → (p j ≡ true → P (f j))
    → P (rewrite p f j)
rewrite-cases P p f j old new = elim (Bool-cases (p j)) [
  | inl hit ↦ rw hit (new hit)
  | inr miss ↦ rw miss old
]

-- A predicate that the update keeps on the rows that it writes holds of every row afterwards.
pub All-written {κ} :
    (P : Job → Type κ) (p : Job → Bool) (f : Job → Job) (t : Table)
    → All P t
    → ((j : Job) → Memᴰ j t → p j ≡ true → P j → P (f j))
    → All P (written p f t)
All-written P p f [] h step = tt
All-written P p f (j ∷ js) h step = (
  rewrite-cases P p f j h.0 (λ hit. step j (Memᴰ.head refl) hit h.0),
  All-written P p f js h.1 (λ x m. step x (Memᴰ.tail m)),
)

-- A relation that the update does not change keeps its rows apart.
Apart-written :
    (r : Job → Job → Bool) (p : Job → Bool) (f : Job → Job)
    → ((j x : Job) → r (f j) x ≡ r j x)
    → ((j x : Job) → r j (f x) ≡ r j x)
    → (t : Table) → Apart r t
    → Apart r (written p f t)
Apart-written r p f left right [] h = tt
Apart-written r p f left right (j ∷ js) h = (
  rewrite-cases (λ y. All (λ x. r y x ≡ false) (written p f js)) p f j later
      (λ _.
        All-imp (λ x. r j x ≡ false) (λ x. r (f j) x ≡ false) (written p f js)
          (λ x e. rw (left j x) e) later),
  Apart-written r p f left right js h.1,
)
  where
    later : All (λ x. r j x ≡ false) (written p f js)
    later = All-written (λ x. r j x ≡ false) p f js h.0 (λ x _ _ e. rw (right j x) e)

module _ (p : Job → Bool) (f : Job → Job) (same : KeepsIdentity f) (t : Table) where
  pub ids-written : Apart same_id t → Apart same_id (written p f t)
  ids-written h = Apart-written same_id p f (λ j x. rw (same.id j)) (λ j x. rw (same.id x)) t h

  pub keys-written : Apart same_submission t → Apart same_submission (written p f t)
  keys-written h =
      Apart-written same_submission p f (λ j x. rw (same.owner j, same.kind j, same.key j))
        (λ j x. rw (same.owner x, same.kind x, same.key x)) t h

  -- An update that keeps the rows it writes sound keeps the table well formed.
  pub written-IsWellFormed :
      IsWellFormed t
      → ((j : Job) → Memᴰ j t → p j ≡ true → IsSound j → IsSound (f j))
      → IsWellFormed (written p f t)
  written-IsWellFormed w step = record {
    sound = All-written IsSound p f t w.sound step;
    ids_differ = ids-written w.ids_differ;
    keys_differ = keys-written w.keys_differ;
  }

rows-checks :
    (p : Job → Bool) (f : Job → Job) (t : Table)
    → All IsSound t
    → ((j : Job) → Memᴰ j t → p j ≡ true → IsSound j → IsSound (f j))
    → all satisfies_checks (map f (filter p t)) ≡ true
rows-checks p f [] s step = refl
rows-checks p f (j ∷ js) s step = elim (Bool-cases (p j)) [
  | inl hit ↦ rw hit (
      rw (IsSound-checks (f j) (step j (Memᴰ.head refl) hit s.0))
        (rows-checks p f js s.1 (λ x m. step x (Memᴰ.tail m))))
  | inr miss ↦ rw miss (rows-checks p f js s.1 (λ x m. step x (Memᴰ.tail m)))
]

-- No constraint refuses an update that keeps the rows it writes sound.
pub update_where-accepted :
    (p : Job → Bool) (f : Job → Job) (t : Table)
    → All IsSound t
    → ((j : Job) → Memᴰ j t → p j ≡ true → IsSound j → IsSound (f j))
    → update_where p f t ≡ ok (map f (filter p t), written p f t)
unfolding update_where
update_where-accepted p f t s step = rw (rows-checks p f t s step)

-- An accepted update returns the new rows and writes them.
pub update_where-eq_ok :
    (p : Job → Bool) (f : Job → Job) (t : Table) {rows : List Job} {u : Table}
    → update_where p f t ≡ ok (rows, u)
    → (rows ≡ map f (filter p t)) × (u ≡ written p f t)
unfolding update_where
update_where-eq_ok p f t h = elim (Bool-cases (all satisfies_checks (map f (filter p t)))) [
  | inl pass ↦ let e = rw pass at h in (cc, cc)
  | inr fail ↦ let e = rw fail at h in cc
]
