-- ===== src/Common/Counts.antt =====
-- Counts of rows compared: under a stronger test, and after a rewrite.
use Prim.Native.Nat.{ℕ, ◌≤◌, ◌<◌}
use mathlib.Core.Path.{◌≡◌, refl, sym, ap, subst, ◌∙◌}
use mathlib.Core.Logic.{inl, inr}
use mathlib.Core.Bool.{Bool, true, false, not, ◌&&◌}
use mathlib.Core.Option.{none, some}
use mathlib.Core.List.{List, [], ◌∷◌}
use native.Mathlib.Omega.{arith}
use sstsaas_pv.Common.Tests.{Bool-cases}
use sstsaas_pv.Common.Lists.{All, count_if, map_if, find?}

module _ {ℓ} {A : Type ℓ} where
  pub count_if-le :
      (p q : A → Bool)
      → ((x : A) → p x ≡ true → q x ≡ true)
      → (xs : List A) → count_if p xs ≤ count_if q xs
  count_if-le p q up [] = omega arith
  count_if-le p q up (x ∷ xs) = ground (arith, up x, count_if-le p q up xs)

  -- Where a stronger test counts as many, every row that meets the weaker one meets it.
  pub count_if-full :
      (p q : A → Bool)
      → ((x : A) → p x ≡ true → q x ≡ true)
      → (xs : List A) → count_if q xs ≤ count_if p xs
      → All (λ x. q x && not (p x) ≡ false) xs
  count_if-full p q up [] le = tt
  count_if-full p q up (x ∷ xs) le =
      ground (arith, up x, count_if-le p q up xs, count_if-full p q up xs)

  -- A rewrite after which no row meets the test that did not before.
  pub count_if-map_if-le :
      (p q : A → Bool) (f : A → A)
      → ((x : A) → q x ≡ true → p (f x) ≡ true → p x ≡ true)
      → (xs : List A) → count_if p (map_if q f xs) ≤ count_if p xs
  count_if-map_if-le p q f down [] = omega arith
  count_if-map_if-le p q f down (x ∷ xs) = ground (arith, down x, count_if-map_if-le p q f down xs)

  -- A count that is not zero finds a row.
  pub counted-found :
      (p : A → Bool) (xs : List A) → 0 < count_if p xs → (a : A) × (find? p xs ≡ some a)
  counted-found p [] h = absurd (omega arith)
  counted-found p (x ∷ xs) h = elim (Bool-cases (p x)) [
    | inl hit ↦ (x, rw hit refl)
    | inr miss ↦ let (a, e) = counted-found p xs (rw miss at h) in (a, rw miss e)
  ]

  held-counted :
      (p q : A → Bool) (xs : List A) (a : A) → find? q xs ≡ some a → p a ≡ true → 0 < count_if p xs
  held-counted p q [] a found hit = cc
  held-counted p q (x ∷ xs) a found hit = elim (Bool-cases (q x)) [
    | inl here ↦
        let same : x ≡ a = cc (rw here at found) in
        let first : p x ≡ true = subst (λ y. p y ≡ true) (sym same) hit in rw first (omega arith)
    | inr later ↦ ground (arith, held-counted p q xs a (rw later at found) hit)
  ]

  -- A row found by one test is found by another that it alone meets.
  pub find?-alone :
      (p q : A → Bool) (xs : List A) (a : A)
      → find? q xs ≡ some a
      → p a ≡ true
      → count_if p xs ≤ 1
      → find? p xs ≡ some a
  find?-alone p q [] a found hit one = cc
  find?-alone p q (x ∷ xs) a found hit one = elim (Bool-cases (q x)) [
    | inl here ↦
        let same : x ≡ a = cc (rw here at found) in
        let first : p x ≡ true = subst (λ y. p y ≡ true) (sym same) hit in rw first (ap some same)
    | inr later ↦ elim (Bool-cases (p x)) [
      | inr other ↦ rw other (find?-alone p q xs a (rw later at found) hit (rw other at one))
      | inl first ↦
          let more = held-counted p q xs a (rw later at found) hit in
          let one' = rw first at one in absurd (omega (arith, more, one'))
    ]
  ]

  -- What holds after a rewrite, of the rows rewritten and of the others.
  pub All-rewritten {κ μ} :
      {P : A → Type κ} {Q : A → Type μ} (q : A → Bool) (f : A → A)
      → ((x : A) → q x ≡ true → Q (f x))
      → ((x : A) → q x ≡ false → P x → Q x)
      → (xs : List A) → All P xs
      → All Q (map_if q f xs)
  All-rewritten q f hit miss [] h = tt
  All-rewritten q f hit miss (x ∷ xs) h = elim (Bool-cases (q x)) [
    | inl met ↦ rw met (hit x met, All-rewritten q f hit miss xs h.1)
    | inr missed ↦ rw missed (miss x missed h.0, All-rewritten q f hit miss xs h.1)
  ]

  -- Where at most one row meets a test and the first that does fails a stronger one, none meets that.
  pub count_if-alone :
      (p q : A → Bool) (xs : List A) (a : A)
      → ((x : A) → q x ≡ true → p x ≡ true)
      → find? p xs ≡ some a
      → q a ≡ false
      → count_if p xs ≤ 1
      → count_if q xs ≡ 0
  count_if-alone p q [] a up e fails_a one = refl
  count_if-alone p q (x ∷ xs) a up e fails_a one = elim (Bool-cases (p x)) [
    | inl hit ↦
        let same : x ≡ a = some-eq (rw hit at e) in
        let fails : q x ≡ false = rw same fails_a in
        let rest : count_if p xs ≤ 0 = ground (arith, hit, one) in
        rw fails (none_left (count_if-le q p up xs) rest)
    | inr miss ↦
        let fails : q x ≡ false = weaker (q x) (p x) miss (up x) in
        rw fails (count_if-alone p q xs a up (rw miss at e) fails_a (rw miss at one))
  ]
    where
      some-eq : {b c : A} → some b ≡ some c → b ≡ c
      some-eq f = cc

      none_left : {m n : ℕ} → m ≤ n → n ≤ 0 → m ≡ 0
      none_left f g = omega arith

      weaker : (b c : Bool) → c ≡ false → (b ≡ true → c ≡ true) → b ≡ false
      weaker false c h k = refl
      weaker true c h k = let absurd : false ≡ true = sym h ∙ k refl in cc

  pub find?-none : (p : A → Bool) (xs : List A) → All (λ x. p x ≡ false) xs → find? p xs ≡ none
  find?-none p [] h = refl
  find?-none p (x ∷ xs) h = rw h.0 (find?-none p xs h.1)
