-- ===== src/Common/Lists.antt =====
-- Lists under Boolean tests, as the `where` clauses and the callbacks of the program write them.
use Prim.Native.Nat.{ℕ, zero, suc}
use mathlib.Core.Path.{◌≡◌, refl}
use mathlib.Core.Logic.{inl, inr}
use mathlib.Core.Bool.{Bool, true, false, ◌||◌, ◌&&◌}
use mathlib.Core.Option.{Option, none, some}
use mathlib.Core.List.{List, [], ◌∷◌}
use native.Mathlib.Omega.{arith}
use sstsaas_pv.Common.Tests.{if◌then◌else◌, Bool-cases}

module _ {ℓ} {A : Type ℓ} where
  abbrev pub length : List A → ℕ
  length [] = 0
  length (x ∷ xs) = suc (length xs)

  abbrev pub filter : (A → Bool) → List A → List A
  filter p [] = []
  filter p (x ∷ xs) = if p x then x ∷ filter p xs else filter p xs

  -- `count` and the `count` of `updateMany`.
  abbrev pub count_if : (A → Bool) → List A → ℕ
  count_if p [] = 0
  count_if p (x ∷ xs) = if p x then suc (count_if p xs) else count_if p xs

  abbrev pub find? : (A → Bool) → List A → Option A
  find? p [] = none
  find? p (x ∷ xs) = if p x then some x else find? p xs

  -- The rows that match are rewritten, the others stay.
  abbrev pub map_if : (A → Bool) → (A → A) → List A → List A
  map_if p f [] = []
  map_if p f (x ∷ xs) = (if p x then f x else x) ∷ map_if p f xs

  -- `some`
  abbrev pub any : (A → Bool) → List A → Bool
  any p [] = false
  any p (x ∷ xs) = p x || any p xs

  -- `slice(0, n)`
  abbrev pub take : ℕ → List A → List A
  take zero xs = []
  take (suc n) [] = []
  take (suc n) (x ∷ xs) = x ∷ take n xs

  abbrev pub insert_by : (A → A → Bool) → A → List A → List A
  insert_by le a [] = a ∷ []
  insert_by le a (x ∷ xs) = if le a x then a ∷ x ∷ xs else x ∷ insert_by le a xs

  -- The stable order of `orderBy`.
  abbrev pub sort_by : (A → A → Bool) → List A → List A
  sort_by le [] = []
  sort_by le (x ∷ xs) = insert_by le x (sort_by le xs)

  abbrev pub All {κ} : (A → Type κ) → List A → Type κ
  All P [] = Unit
  All P (x ∷ xs) = P x × All P xs

module _ {ℓ} {A : Type ℓ} where
  pub All-map {κ μ} :
      {P : A → Type κ} {Q : A → Type μ}
      → ((x : A) → P x → Q x)
      → (xs : List A) → All P xs
      → All Q xs
  All-map h [] a = tt
  All-map h (x ∷ xs) a = (h x a.0, All-map h xs a.1)

  pub All-intro {κ} : {P : A → Type κ} → ((x : A) → P x) → (xs : List A) → All P xs
  All-intro h [] = tt
  All-intro h (x ∷ xs) = (h x, All-intro h xs)

  -- A test that fails on every row counts none, and the other way round.
  pub count_if-eq-zero :
      (p : A → Bool) (xs : List A) → All (λ x. p x ≡ false) xs → count_if p xs ≡ 0
  count_if-eq-zero p [] a = refl
  count_if-eq-zero p (x ∷ xs) a = ground (arith, count_if-eq-zero p xs a.1)

  pub count_if-zero-All :
      (p : A → Bool) (xs : List A) → count_if p xs ≡ 0 → All (λ x. p x ≡ false) xs
  count_if-zero-All p [] e = tt
  count_if-zero-All p (x ∷ xs) e = ground (arith, count_if-zero-All p xs)

  pub find?-holds : (p : A → Bool) (xs : List A) (a : A) → find? p xs ≡ some a → p a ≡ true
  find?-holds p [] a e = cc
  find?-holds p (x ∷ xs) a e = elim (Bool-cases (p x)) [
    | inl hit ↦ ground (arith, hit)
    | inr miss ↦ ground (arith, miss, find?-holds p xs a)
  ]

  pub find?-none-All : (p : A → Bool) (xs : List A) → find? p xs ≡ none → All (λ x. p x ≡ false) xs
  find?-none-All p [] e = tt
  find?-none-All p (x ∷ xs) e = ground (arith, find?-none-All p xs)

  pub All-find? {κ} :
      (P : A → Type κ) (p : A → Bool) (xs : List A) (a : A) → All P xs → find? p xs ≡ some a → P a
  All-find? P p [] a h e = cc
  All-find? P p (x ∷ xs) a h e = elim (Bool-cases (p x)) [
    | inl hit ↦ rw (← found hit) h.0
    | inr miss ↦ All-find? P p xs a h.1 (ground arith)
  ]
    where
      found : p x ≡ true → x ≡ a
      found hit = ground arith

  -- What a rewrite of the matching rows preserves.
  pub All-map_if {κ} :
      {P : A → Type κ} (p : A → Bool) (f : A → A)
      → ((x : A) → p x ≡ true → P x → P (f x))
      → (xs : List A) → All P xs
      → All P (map_if p f xs)
  All-map_if p f keep [] h = tt
  All-map_if p f keep (x ∷ xs) h = elim (Bool-cases (p x)) [
    | inl hit ↦ rw hit (keep x hit h.0, All-map_if p f keep xs h.1)
    | inr miss ↦ rw miss (h.0, All-map_if p f keep xs h.1)
  ]

  -- A rewrite that hides its rows from a test removes exactly those from its count.
  pub count_if-map_if :
      (p q : A → Bool) (f : A → A)
      → ((x : A) → q x ≡ true → p (f x) ≡ p x)
      → (xs : List A) → count_if p (map_if q f xs) ≡ count_if p xs
  count_if-map_if p q f keep [] = refl
  count_if-map_if p q f keep (x ∷ xs) = ground (arith, keep x, count_if-map_if p q f keep xs)

module _ {ℓ} {A : Type ℓ} (le : A → A → Bool) (p : A → Bool) where
  any-insert_by : (a : A) (xs : List A) → any p (insert_by le a xs) ≡ any p (a ∷ xs)
  any-insert_by a [] = refl
  any-insert_by a (x ∷ xs) = ground (arith, any-insert_by a xs)

  -- An order keeps what a list holds.
  pub any-sort_by : (xs : List A) → any p (sort_by le xs) ≡ any p xs
  any-sort_by [] = refl
  any-sort_by (x ∷ xs) = ground (arith, any-insert_by x (sort_by le xs), any-sort_by xs)

module _ {ℓ} {A : Type ℓ} where
  -- A search by what a rewrite does not touch finds the rewritten row.
  pub find?-map_if :
      (p q : A → Bool) (f : A → A)
      → ((x : A) → p (f x) ≡ p x)
      → (xs : List A) (a : A) → find? p xs ≡ some a
      → find? p (map_if q f xs) ≡ some (if q a then f a else a)
  find?-map_if p q f same [] a e = cc
  find?-map_if p q f same (x ∷ xs) a e = elim (Bool-cases (p x)) [
    | inl hit ↦ ground (arith, hit, same x)
    | inr miss ↦ ground (arith, miss, same x, find?-map_if p q f same xs a)
  ]

  pub find?-none-map_if :
      (p q : A → Bool) (f : A → A)
      → ((x : A) → p (f x) ≡ p x)
      → (xs : List A) → find? p xs ≡ none
      → find? p (map_if q f xs) ≡ none
  find?-none-map_if p q f same [] e = refl
  find?-none-map_if p q f same (x ∷ xs) e = ground (arith, same x, find?-none-map_if p q f same xs)

  -- The first row that meets a test meets it and more when it meets the rest too.
  pub find?-refine :
      (p q : A → Bool) (xs : List A) (a : A)
      → find? p xs ≡ some a
      → q a ≡ true
      → find? (λ x. p x && q x) xs ≡ some a
  find?-refine p q [] a e h = cc
  find?-refine p q (x ∷ xs) a e h = elim (Bool-cases (p x)) [
    | inl hit ↦ ground (arith, hit, h)
    | inr miss ↦ ground (arith, miss, find?-refine p q xs a)
  ]
