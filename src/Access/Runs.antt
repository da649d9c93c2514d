-- ===== src/Access/Runs.antt =====
-- Steps that read and write a state and may throw, and transactions over it: the code inside
-- `$transaction` and `withTenantTransaction`. Transactions run one after the other.
pub mod Steps
use sstsaas_pv.Common.{◌≡◌, refl, Bool, true, false, Option, none, some, List, [], ◌∷◌}
use sstsaas_pv.Access.Faults.{Fault, Result, ok, err}

-- What runs inside a transaction.
abbrev pub Run : Type 0 → Type 0 → Type 0
Run S A = S → Result (A × S)

module _ {S : Type 0} {A : Type 0} where
  abbrev pub pure : A → Run S A
  pure a s = ok (a, s)

  abbrev pub fail : Fault → Run S A
  fail e s = err e

  abbrev pub gets : (S → A) → Run S A
  gets f s = ok (f s, s)

  abbrev pub lift : Result A → Run S A
  lift (ok a) s = ok (a, s)
  lift (err e) s = err e

  abbrev pub or_fail : Option A → Fault → Run S A
  or_fail none e s = err e
  or_fail (some a) e s = ok (a, s)

infixl 5 ◌>>=◌ ◌>>◌
abbrev pub ◌>>=◌ : {S : Type 0} {A B : Type 0} → Run S A → (A → Run S B) → Run S B
◌>>=◌ m f s = elim (m s) [ ok (a, s') ↦ f a s' | err e ↦ err e ]

abbrev pub ◌>>◌ : {S : Type 0} {A B : Type 0} → Run S A → Run S B → Run S B
m >> k = m >>= λ _. k

abbrev pub is_empty : {A : Type 0} → List A → Bool
is_empty [] = true
is_empty (x ∷ xs) = false

-- `if (refused) throw fault`
abbrev pub refuse_if : {S : Type 0} → Bool → Fault → Run S (Unit {0})
refuse_if true e s = err e
refuse_if false e s = ok (tt, s)

abbrev pub modify : {S : Type 0} → (S → S) → Run S (Unit {0})
modify f s = ok (tt, f s)

-- A database transaction: what is thrown inside rolls the writes back.
abbrev pub settle : {S : Type 0} {A : Type 0} → S → Result (A × S) → Result A × S
settle s (ok (a, s')) = (ok a, s')
settle s (err e) = (err e, s)

-- The parts of a successful chain.
pub >>=-eq-ok :
    {S : Type 0} {A B : Type 0} (m : Run S A) (f : A → Run S B) (s : S) {r : B × S}
    → (m >>= f) s ≡ ok r
    → (a : A) × (s' : S) × (m s ≡ ok (a, s')) × (f a s' ≡ ok r)
>>=-eq-ok {S} {A} {B} m f s {r} e = go (m s) refl e
  where
    go :
        (x : Result (A × S))
        → m s ≡ x
        → (elim x [ ok (a, s') ↦ f a s' | err e ↦ err e ]) ≡ ok r
        → (a : A) × (s' : S) × (m s ≡ ok (a, s')) × (f a s' ≡ ok r)
    go (ok (a, s')) p q = (a, s', p, q)
    go (err e) p q = cc
