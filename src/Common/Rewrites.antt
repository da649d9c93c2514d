-- ===== src/Common/Rewrites.antt =====
-- What a rewrite of the matching rows does to searches, counts and filters.
use Prim.Native.Nat.{ℕ, ◌≤◌, ◌<◌}
use mathlib.Core.Path.{◌≡◌, refl, subst}
use mathlib.Core.Logic.{◌⊎◌, inl, inr}
use mathlib.Core.Bool.{Bool, true, false, not, ◌&&◌}
use mathlib.Core.Option.{some}
use mathlib.Core.List.{List, [], ◌∷◌}
use native.Mathlib.Omega.{arith}
use sstsaas_pv.Common.Tests.{◌==◌, if◌then◌else◌, Bool-cases, and_left}
use sstsaas_pv.Common.Lists.{All, count_if, any, filter, find?, map_if}

zero_or_more : (n : ℕ) → (n ≡ 0) ⊎ (0 < n)
zero_or_more n = omega arith

module _ {ℓ} {A : Type ℓ} where
  pub All-map₂ {κ μ ν} :
      {P : A → Type κ} {Q : A → Type μ} {R : A → Type ν}
      → ((x : A) → P x → Q x → R x)
      → (xs : List A) → All P xs
      → All Q xs
      → All R xs
  All-map₂ h [] a b = tt
  All-map₂ h (x ∷ xs) a b = (h x a.0 b.0, All-map₂ h xs a.1 b.1)

  count_if-le-cons :
      (p : A → Bool) (x : A) (xs : List A) (n : ℕ) → n ≤ count_if p xs → n ≤ count_if p (x ∷ xs)
  count_if-le-cons p x xs n h = ground arith

  pub any-filter : (p q : A → Bool) (xs : List A) → any p (filter q xs) ≡ any (λ x. q x && p x) xs
  any-filter p q [] = refl
  any-filter p q (x ∷ xs) = ground (arith, any-filter p q xs)

  pub any-false : (p : A → Bool) (xs : List A) → All (λ x. p x ≡ false) xs → any p xs ≡ false
  any-false p [] h = refl
  any-false p (x ∷ xs) h = ground (arith, any-false p xs h.1)

  pub map_if-congr :
      (p q : A → Bool) (f : A → A) (xs : List A)
      → All (λ x. p x ≡ q x) xs
      → map_if p f xs ≡ map_if q f xs
  map_if-congr p q f [] h = refl
  map_if-congr p q f (x ∷ xs) h = rw (h.0, map_if-congr p q f xs h.1)

  pub any-congr : (p q : A → Bool) → ((x : A) → p x ≡ q x) → (xs : List A) → any p xs ≡ any q xs
  any-congr p q h [] = refl
  any-congr p q h (x ∷ xs) = rw (h x, any-congr p q h xs)

  pub map_if-none :
      (p : A → Bool) (f : A → A) → ((x : A) → p x ≡ false) → (xs : List A) → map_if p f xs ≡ xs
  map_if-none p f h [] = refl
  map_if-none p f h (x ∷ xs) = rw (h x, map_if-none p f h xs)

  -- A row that counts before and is a row that counts after its rewrite.
  pub count_if-le-map_if :
      (p r q : A → Bool) (f : A → A)
      → ((x : A) → p x ≡ true → r (if q x then f x else x) ≡ true)
      → (xs : List A) → count_if p xs ≤ count_if r (map_if q f xs)
  count_if-le-map_if p r q f keep [] = omega arith
  count_if-le-map_if p r q f keep (x ∷ xs) = elim (Bool-cases (p x)) [
    | inl h ↦ rw (h, keep x h) (omega (arith, count_if-le-map_if p r q f keep xs))
    | inr h ↦
        rw h (count_if-le-cons r (if q x then f x else x) _ _ (count_if-le-map_if p r q f keep xs))
  ]

  -- Where a search finds a row, the count is not zero.
  pub found-counted :
      (q : A → Bool) (a : A) (xs : List A) → find? q xs ≡ some a → (count_if q xs == 0) ≡ false
  found-counted q a [] e = cc
  found-counted q a (x ∷ xs) e = ground (arith, found-counted q a xs)

  -- The row found is rewritten, so a test that its rewrite passes counts at least one.
  pub count_if-found :
      (q r : A → Bool) (f : A → A) (a : A) (xs : List A)
      → find? q xs ≡ some a
      → r (f a) ≡ true
      → 0 < count_if r (map_if q f xs)
  count_if-found q r f a [] e h = cc
  count_if-found q r f a (x ∷ xs) e h = elim (Bool-cases (q x)) [
    | inl hit ↦ rw (hit, found hit, h) (omega arith)
    | inr miss ↦ count_if-le-cons r _ _ 1 (count_if-found q r f a xs (rw miss at e) h)
  ]
    where
      found : q x ≡ true → x ≡ a
      found hit = ground (arith, hit)

  -- Two rewrites by one function are one, where the second leaves the first's rows alone.
  pub map_if-map_if :
      (p q r : A → Bool) (f : A → A)
      → ((x : A) → p x ≡ true → (q (f x) ≡ false) × (r x ≡ true))
      → ((x : A) → p x ≡ false → r x ≡ q x)
      → (xs : List A) → map_if q f (map_if p f xs) ≡ map_if r f xs
  map_if-map_if p q r f hit miss [] = refl
  map_if-map_if p q r f hit miss (x ∷ xs) = elim (Bool-cases (p x)) [
    | inl h ↦ rw (h, (hit x h).0, (hit x h).1, map_if-map_if p q r f hit miss xs)
    | inr h ↦ rw (h, miss x h, map_if-map_if p q r f hit miss xs)
  ]

  -- A rewrite that takes its rows out of a test leaves none that passes it.
  pub All-gone :
      (p r : A → Bool) (f : A → A)
      → ((x : A) → p x ≡ true → r (f x) ≡ false)
      → ((x : A) → p x ≡ false → r x ≡ false)
      → (xs : List A) → All (λ x. r x ≡ false) (map_if p f xs)
  All-gone p r f hit miss [] = tt
  All-gone p r f hit miss (x ∷ xs) = elim (Bool-cases (p x)) [
    | inl h ↦ rw h (hit x h, All-gone p r f hit miss xs)
    | inr h ↦ rw h (miss x h, All-gone p r f hit miss xs)
  ]

  -- A rewrite of rows that a filter drops, before and after, is not seen through the filter.
  pub filter-map_if :
      (p q : A → Bool) (f : A → A)
      → ((x : A) → q x ≡ true → (p x ≡ false) × (p (f x) ≡ false))
      → (xs : List A) → filter p (map_if q f xs) ≡ filter p xs
  filter-map_if p q f unseen [] = refl
  filter-map_if p q f unseen (x ∷ xs) = elim (Bool-cases (q x)) [
    | inl hit ↦ rw (hit, (unseen x hit).0, (unseen x hit).1) (filter-map_if p q f unseen xs)
    | inr miss ↦ rw (miss, filter-map_if p q f unseen xs)
  ]

  -- Where no row besides `m` passes a test and some row does, `m` does.
  sole-passes :
      (p k : A → Bool) (m : A) (xs : List A)
      → All (λ x. (k x ≡ false) ⊎ (x ≡ m)) xs
      → count_if (λ x. p x && not (k x)) xs ≡ 0
      → 0 < count_if p xs
      → p m ≡ true
  sole-passes p k m [] only zero h = absurd (omega arith)
  sole-passes p k m (x ∷ xs) only zero h = elim (Bool-cases (p x)) [
    | inl passes ↦ here passes only.0
    | inr fails ↦ sole-passes p k m xs only.1 (ground (arith, fails)) (ground (arith, fails))
  ]
    where
      here : p x ≡ true → ((k x ≡ false) ⊎ (x ≡ m)) → p m ≡ true
      here passes (inl other) = absurd (ground (arith, passes, other))
      here passes (inr same) = subst (λ y. p y ≡ true) same passes

  passes-kept :
      (p k q : A → Bool) (f : A → A)
      → ((x : A) → q x ≡ true → k x ≡ true)
      → (x : A) → (p x && not (k x)) ≡ true
      → p (if q x then f x else x) ≡ true
  passes-kept p k q f named x h = elim (Bool-cases (q x)) [
    | inl hit ↦ absurd (ground (arith, named x hit, h))
    | inr miss ↦ rw miss (and_left (p x) (not (k x)) h)
  ]

  -- A rewrite of the one row `m` keeps a row that passes a test, if `m` still passes it whenever it
  -- alone did.
  pub map_if-keeps_one :
      (p k q : A → Bool) (f : A → A) (m : A) (xs : List A)
      → ((x : A) → q x ≡ true → k x ≡ true)
      → All (λ x. (k x ≡ false) ⊎ (x ≡ m)) xs
      → find? q xs ≡ some m
      → (count_if (λ x. p x && not (k x)) xs ≡ 0 → p m ≡ true → p (f m) ≡ true)
      → 0 < count_if p xs
      → 0 < count_if p (map_if q f xs)
  map_if-keeps_one p k q f m xs named only found kept h =
      elim (zero_or_more (count_if (λ x. p x && not (k x)) xs)) [
        | inl zero ↦ count_if-found q p f m xs found (kept zero (sole-passes p k m xs only zero h))
        | inr more ↦ omega (
          arith,
          more,
          count_if-le-map_if (λ x. p x && not (k x)) p q f (passes-kept p k q f named) xs,
        )
      ]
