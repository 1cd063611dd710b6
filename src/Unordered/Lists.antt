-- ===== src/Unordered/Lists.antt =====
-- Lists that hold the same elements in any order, under the list functions of the statements.
use mathlib.Core.List.Memᴰ
use mathlib.Core.List.{Permᴰ}
use mathlib.Core.List.Permᴰ
use service_jobs.Prelude.{
  suc, Bool, true, ◌&&◌, ◌||◌, ◌≡◌, refl, sym, ap, ◌∙◌, inl, inr, some, Option-cases, List, [], ◌∷◌,
  filter, find?, all, any, length, Memᴰ, Bool-cases, arith,
}

-- A function that takes in one element after the other, whichever of two comes first.
pub fold-Perm {ℓ κ} :
    {A : Type ℓ} {B : Type κ} (F : List A → B) (step : A → B → B)
    → ((x : A) (xs : List A) → F (x ∷ xs) ≡ step x (F xs))
    → ((x y : A) (b : B) → step x (step y b) ≡ step y (step x b))
    → {xs ys : List A} → Permᴰ xs ys
    → F xs ≡ F ys
fold-Perm F step by_step commute Permᴰ.nil = refl
fold-Perm F step by_step commute (Permᴰ.cons {a = a} {b = b} {l₁ = xs} {l₂ = ys} e d) =
    rw (by_step a xs, by_step b ys, e, fold-Perm F step by_step commute d) refl
fold-Perm F step by_step commute (Permᴰ.swap {a = a} {b = b} {a' = a'} {b' = b'} {l = l} e e') =
    rw (by_step a (b ∷ l), by_step b l, by_step a' (b' ∷ l), by_step b' l, e, e')
      (commute b' a' (F l))
fold-Perm F step by_step commute (Permᴰ.trans d d') =
    fold-Perm F step by_step commute d ∙ fold-Perm F step by_step commute d'

module _ {ℓ} {A : Type ℓ} where
  pub mem-Perm : {xs ys : List A} {a : A} → Permᴰ xs ys → Memᴰ a xs → Memᴰ a ys
  mem-Perm Permᴰ.nil m = m
  mem-Perm (Permᴰ.cons e d) (Memᴰ.head f) = Memᴰ.head (f ∙ e)
  mem-Perm (Permᴰ.cons e d) (Memᴰ.tail m) = Memᴰ.tail (mem-Perm d m)
  mem-Perm (Permᴰ.swap e e') (Memᴰ.head f) = Memᴰ.tail (Memᴰ.head (f ∙ e))
  mem-Perm (Permᴰ.swap e e') (Memᴰ.tail (Memᴰ.head f)) = Memᴰ.head (f ∙ e')
  mem-Perm (Permᴰ.swap e e') (Memᴰ.tail (Memᴰ.tail m)) = Memᴰ.tail (Memᴰ.tail m)
  mem-Perm (Permᴰ.trans d d') m = mem-Perm d' (mem-Perm d m)

  pub length-Perm : {xs ys : List A} → Permᴰ xs ys → length xs ≡ length ys
  length-Perm = fold-Perm length (λ x n. suc n) (λ x xs. refl) (λ x y n. refl)

  pub all-Perm : (p : A → Bool) {xs ys : List A} → Permᴰ xs ys → all p xs ≡ all p ys
  all-Perm p = fold-Perm (all p) (λ x b. p x && b) (λ x xs. refl) (λ x y b. ground arith)

  pub any-Perm : (p : A → Bool) {xs ys : List A} → Permᴰ xs ys → any p xs ≡ any p ys
  any-Perm p = fold-Perm (any p) (λ x b. p x || b) (λ x xs. refl) (λ x y b. ground arith)

  filter-Perm_cons :
      (p : A → Bool) {a b : A} (xs ys : List A)
      → a ≡ b
      → Permᴰ (filter p xs) (filter p ys)
      → Permᴰ (filter p (a ∷ xs)) (filter p (b ∷ ys))
  filter-Perm_cons p {a} {b} xs ys e d = elim (Bool-cases (p b)) [
    | inl hit ↦ rw (e, hit) (Permᴰ.cons refl d)
    | inr miss ↦ rw (e, miss) d
  ]

  filter-Perm_swap :
      (p : A → Bool) (a b : A) (xs : List A) → Permᴰ (filter p (a ∷ b ∷ xs)) (filter p (b ∷ a ∷ xs))
  filter-Perm_swap p a b xs = elim (Bool-cases (p a)) [
    | inl hit ↦ elim (Bool-cases (p b)) [
      | inl hit' ↦ rw (hit, hit') (Permᴰ.swap refl refl)
      | inr miss ↦ rw (hit, miss) (Permᴰ.refl _)
    ]
    | inr miss ↦ elim (Bool-cases (p b)) [
      | inl hit' ↦ rw (miss, hit') (Permᴰ.refl _)
      | inr miss' ↦ rw (miss, miss') (Permᴰ.refl _)
    ]
  ]

  pub filter-Perm :
      (p : A → Bool) {xs ys : List A} → Permᴰ xs ys → Permᴰ (filter p xs) (filter p ys)
  filter-Perm p Permᴰ.nil = Permᴰ.nil
  filter-Perm p (Permᴰ.cons {l₁ = xs} {l₂ = ys} e d) = filter-Perm_cons p xs ys e (filter-Perm p d)
  filter-Perm p (Permᴰ.swap {a = a} {b = b} {l = l} e e') =
      rw (← e, ← e') (filter-Perm_swap p a b l)
  filter-Perm p (Permᴰ.trans d d') = Permᴰ.trans (filter-Perm p d) (filter-Perm p d')

  -- What a search finds.
  pub find?-some :
      (p : A → Bool) (xs : List A) (a : A) → find? p xs ≡ some a → Memᴰ a xs × (p a ≡ true)
  find?-some p [] a h = cc
  find?-some p (x ∷ xs) a h = elim (Bool-cases (p x)) [
    | inl hit ↦ let e : x ≡ a = (let f = rw hit at h in cc) in (Memᴰ.head (sym e), rw (← e) hit)
    | inr miss ↦ let (m, passes) = find?-some p xs a (rw miss at h) in (Memᴰ.tail m, passes)
  ]

  pub find?-mem :
      (p : A → Bool) (xs : List A) (a : A)
      → Memᴰ a xs
      → p a ≡ true
      → (b : A) × (find? p xs ≡ some b)
  find?-mem p [] a m h = elim m [ ]
  find?-mem p (x ∷ xs) a m h = elim (Bool-cases (p x)) [
    | inl hit ↦ (x, rw hit refl)
    | inr miss ↦ elim (Memᴰ.cases_cons m) [
      | inl e ↦ (let f = ap p e in cc)
      | inr rest ↦ let (b, found) = find?-mem p xs a rest h in (b, rw miss found)
    ]
  ]

  -- A search for what one element at most can be.
  pub find?-Perm :
      (p : A → Bool) {xs ys : List A}
      → ((x y : A) → Memᴰ x xs → Memᴰ y xs → p x ≡ true → p y ≡ true → x ≡ y)
      → Permᴰ xs ys
      → find? p xs ≡ find? p ys
  find?-Perm p {xs} {ys} one d = elim (Option-cases (find? p xs)) [
    | inl nowhere ↦ elim (Option-cases (find? p ys)) [
      | inl nowhere' ↦ nowhere ∙ sym nowhere'
      | inr (b, found) ↦
          let (m, passes) = find?-some p ys b found in
          let (a, there) = find?-mem p xs b (mem-Perm (Permᴰ.symm d) m) passes in cc
    ]
    | inr (a, found) ↦
        let (m, passes) = find?-some p xs a found in
        let (b, there) = find?-mem p ys a (mem-Perm d m) passes in
        let (m', passes') = find?-some p ys b there in
        let same : a ≡ b = one a b m (mem-Perm (Permᴰ.symm d) m') passes passes' in
        found ∙ ap some same ∙ sym there
  ]
