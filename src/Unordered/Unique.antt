-- ===== src/Unordered/Unique.antt =====
-- The tests that one row at most passes (internal/dao), in a well-formed table.
use service_jobs.Prelude.{
  ℕ, Bool, true, false, ◌≡◌, sym, ◌∙◌, Option, none, some, String, eq_iff, [], ◌∷◌, Memᴰ, All-mem,
  arith,
}
use service_jobs.Dao.Job.{Job}
use service_jobs.Dao.Table.{Table}
use service_jobs.Dao.Enqueue.{conflicts, same_key}
use service_jobs.Invariant.{Apart, same_id, same_submission}
use service_jobs.Invariant.Chosen.{same_id-eq}
use service_jobs.Unordered.Rows.{IsUnique}

-- A test on the id passes one row of a table with distinct ids.
pub IsUnique-id :
    (id : ℕ) (p : Job → Bool) (t : Table)
    → ((j : Job) → p j ≡ true → j.id ≡ id)
    → Apart same_id t
    → IsUnique p t
IsUnique-id id p t named differ x y mx my hx hy =
    same_id-eq t y x differ my mx (named x hx ∙ sym (named y hy))

same_key_trans :
    (k a b : Option String) → same_key k a ≡ true → same_key k b ≡ true → same_key a b ≡ true
same_key_trans (some k) (some a) (some b) h h' = ground (arith, eq_iff k a, eq_iff k b, eq_iff a b)
same_key_trans (some k) none b h h' = cc
same_key_trans (some k) (some a) none h h' = cc
same_key_trans none a b h h' = cc

conflicts_trans :
    (owner : ℕ) (kind : String) (key : Option String) (x y : Job)
    → conflicts owner kind key x ≡ true
    → conflicts owner kind key y ≡ true
    → same_submission x y ≡ true
conflicts_trans owner kind key x y hx hy = ground (
  arith,
  same_key_trans key x.idempotency_key y.idempotency_key,
  eq_iff x.kind kind,
  eq_iff y.kind kind,
  eq_iff y.kind x.kind,
)

-- Two rows that relate each way are one in a table whose rows are apart.
Apart-eq :
    (r : Job → Job → Bool) (t : Table) (x y : Job)
    → Apart r t
    → Memᴰ x t
    → Memᴰ y t
    → r x y ≡ true
    → r y x ≡ true
    → x ≡ y
Apart-eq r [] x y a mx my h h' = elim mx [ ]
Apart-eq r (z ∷ zs) x y a (Memᴰ.head e) (Memᴰ.head f) h h' = e ∙ sym f
Apart-eq r (z ∷ zs) x y a (Memᴰ.head e) (Memᴰ.tail m) h h' =
    let out : r x y ≡ false = rw e (All-mem (λ w. r z w ≡ false) zs a.0 m) in cc
Apart-eq r (z ∷ zs) x y a (Memᴰ.tail m) (Memᴰ.head f) h h' =
    let out : r y x ≡ false = rw f (All-mem (λ w. r z w ≡ false) zs a.0 m) in cc
Apart-eq r (z ∷ zs) x y a (Memᴰ.tail m) (Memᴰ.tail n) h h' = Apart-eq r zs x y a.1 m n h h'

pub IsUnique-conflicts :
    (owner : ℕ) (kind : String) (key : Option String) (t : Table)
    → Apart same_submission t
    → IsUnique (conflicts owner kind key) t
IsUnique-conflicts owner kind key t differ x y mx my hx hy =
    Apart-eq same_submission t x y differ mx my (conflicts_trans owner kind key x y hx hy)
      (conflicts_trans owner kind key y x hy hx)
