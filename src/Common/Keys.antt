-- ===== src/Common/Keys.antt =====
-- Rows told apart by a key, and what a search or a rewrite by key then does.
use Prim.Native.Nat.{ℕ}
use mathlib.Core.Path.{◌≡◌, refl, sym, subst}
use mathlib.Core.Logic.{◌⊎◌, inl, inr}
use mathlib.Core.Bool.{Bool, true, false, ◌&&◌, ◌||◌}
use mathlib.Core.Option.{some}
use mathlib.Core.List.{List, [], ◌∷◌}
use native.Mathlib.Omega.{arith}
use sstsaas_pv.Common.Tests.{◌==◌, if◌then◌else◌, ==_refl, Bool-cases}
use sstsaas_pv.Common.Lists.{All-map_if, All, All-map, All-find?, any, find?, find?-holds, map_if}
use sstsaas_pv.Common.Rewrites.{any-false, All-map₂}

-- No two rows have the same key, as a primary key or a unique index guarantees.
abbrev pub Distinct {ℓ} : {A : Type ℓ} → (A → ℕ) → List A → Type ℓ
Distinct key [] = Unit
Distinct key (x ∷ xs) = All (λ y. (key x == key y) ≡ false) xs × Distinct key xs

module _ {ℓ} {A : Type ℓ} (key : A → ℕ) where
  same_sym : (a b : ℕ) → (a == b) ≡ false → (b == a) ≡ false
  same_sym a b h = ground arith

  or_false : (b : Bool) → (b || false) ≡ b
  or_false b = ground arith

  -- Among distinct rows a search by a row's key meets that row alone.
  pub any-Distinct :
      (r : A → Bool) (xs : List A)
      → Distinct key xs
      → All (λ x. any (λ y. (key x == key y) && r y) xs ≡ r x) xs
  any-Distinct r [] d = tt
  any-Distinct r (x ∷ xs) d = (
    rw (==_refl (key x), any-false (λ y. (key x == key y) && r y) xs (All-map (λ y h. rw h) xs d.0))
        (or_false (r x)),
    All-map₂ {R = λ y. any (λ z. (key y == key z) && r z) (x ∷ xs) ≡ r y}
        (λ y apart alone. rw (same_sym (key x) (key y) apart) alone) xs d.0 (any-Distinct r xs d.1),
  )

  All-apart-map_if :
      (k : ℕ) (q : A → Bool) (f : A → A)
      → ((x : A) → key (f x) ≡ key x)
      → (xs : List A) → All (λ y. (k == key y) ≡ false) xs
      → All (λ y. (k == key y) ≡ false) (map_if q f xs)
  All-apart-map_if k q f same =
      All-map_if {P = λ y. (k == key y) ≡ false} q f
        (λ x hit apart. subst (λ n. (k == n) ≡ false) (sym (same x)) apart)

  -- A rewrite that keeps the keys keeps the rows distinct.
  pub map_if-Distinct :
      (q : A → Bool) (f : A → A)
      → ((x : A) → key (f x) ≡ key x)
      → (xs : List A) → Distinct key xs
      → Distinct key (map_if q f xs)
  map_if-Distinct q f same [] d = tt
  map_if-Distinct q f same (x ∷ xs) d = (
    All-apart-map_if (key (if q x then f x else x)) q f same xs
        (subst (λ n. All (λ y. (n == key y) ≡ false) xs) (sym (head_key (q x))) d.0),
    map_if-Distinct q f same xs d.1,
  )
    where
      head_key : (b : Bool) → key (if b then f x else x) ≡ key x
      head_key true = same x
      head_key false = refl

  -- A search by key finds the one row with the key.
  pub find?-Distinct :
      (k : ℕ) (p : A → Bool) (a : A) (xs : List A)
      → ((x : A) → p x ≡ true → (key x == k) ≡ true)
      → Distinct key xs
      → find? p xs ≡ some a
      → All (λ x. ((key x == k) ≡ false) ⊎ (x ≡ a)) xs
  find?-Distinct k p a [] names d e = tt
  find?-Distinct k p a (x ∷ xs) names d e = elim (Bool-cases (p x)) [
    | inl hit ↦ (inr (ground (arith, hit)), All-map (λ y apart. inl (transfer y hit apart)) xs d.0)
    | inr miss ↦
        let later : find? p xs ≡ some a = rw miss at e in
        (inl (earlier later), find?-Distinct k p a xs names d.1 later)
  ]
    where
      apart : find? p xs ≡ some a → (key x == key a) ≡ false
      apart f = All-find? (λ y. (key x == key y) ≡ false) p xs a d.0 f

      earlier : find? p xs ≡ some a → (key x == k) ≡ false
      earlier f = ground (arith, names a (find?-holds p xs a f), apart f)

      transfer : (y : A) → p x ≡ true → (key x == key y) ≡ false → (key y == k) ≡ false
      transfer y hit apart = ground (arith, names x hit)
