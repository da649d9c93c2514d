-- ===== src/Access/Runs/Steps.antt =====
-- What each step of a chain tells when it succeeds, and chains by their steps.
use sstsaas_pv.Common.{◌≡◌, refl, ap, ◌∙◌, subst, Bool, true, false, Option, none, some}
use sstsaas_pv.Access.Faults.{Fault, Result, ok, err}
use sstsaas_pv.Access.Runs.{Run, ◌>>=◌, >>=-eq-ok, settle, lift, or_fail, refuse_if}

module _ {S : Type 0} where
  pub lift-ok :
      {A : Type 0} (x : Result A) (s : S) {a : A} {s' : S}
      → lift x s ≡ ok (a, s')
      → (x ≡ ok a) × (s' ≡ s)
  lift-ok (ok a) s e = (cc, cc)
  lift-ok (err f) s e = cc

  pub refuse_if-ok :
      (b : Bool) (f : Fault) (s : S) {a : Unit {0}} {s' : S}
      → refuse_if b f s ≡ ok (a, s')
      → (b ≡ false) × (s' ≡ s)
  refuse_if-ok true f s e = cc
  refuse_if-ok false f s e = (refl, cc)

  pub or_fail-ok :
      {A : Type 0} (o : Option A) (f : Fault) (s : S) {a : A} {s' : S}
      → or_fail o f s ≡ ok (a, s')
      → (o ≡ some a) × (s' ≡ s)
  or_fail-ok none f s e = cc
  or_fail-ok (some a) f s e = (cc, cc)

-- A step that only reads.
abbrev pub IsReader : {S : Type 0} {A : Type 0} → Run S A → Type 0
IsReader {S} {A} m = (s : S) (a : A) (s' : S) → m s ≡ ok (a, s') → s' ≡ s

-- After a reader the chain goes on in the same state.
pub after_reader :
    {S : Type 0} {A B : Type 0} {P : Type 0} (m : Run S A) (f : A → Run S B) (s : S) {r : B × S}
    → IsReader m
    → (m >>= f) s ≡ ok r
    → ((a : A) → m s ≡ ok (a, s) → f a s ≡ ok r → P)
    → P
after_reader m f s {r} reads e k =
    let (a, s', p, q) = >>=-eq-ok m f s e in
    k a (subst (λ t. m s ≡ ok (a, t)) (reads s a s' p) p)
      (subst (λ t. f a t ≡ ok r) (reads s a s' p) q)

-- After a writer, whose effect is known, in the state that it leaves.
pub after_writer :
    {S : Type 0} {B : Type 0} {P : Type 0} (m : Run S (Unit {0})) (f : Unit {0} → Run S B) (s t : S)
    {r : B × S}
    → ((a : Unit {0}) (s' : S) → m s ≡ ok (a, s') → s' ≡ t)
    → (m >>= f) s ≡ ok r
    → (f tt t ≡ ok r → P)
    → P
after_writer m f s t {r} writes e k =
    let (a, s', p, q) = >>=-eq-ok m f s e in k (subst (λ u. f tt u ≡ ok r) (writes a s' p) q)

-- A chain by its steps: the first succeeds, or the first throws.
pub and_then :
    {S : Type 0} {A B : Type 0} (m : Run S A) (f : A → Run S B) (s : S) (a : A) (s' : S)
    {r : Result (B × S)}
    → m s ≡ ok (a, s')
    → f a s' ≡ r
    → (m >>= f) s ≡ r
and_then {S} {A} {B} m f s a s' e rest =
    ap (λ x. elim x as (λ y. Result (B × S)) [ ok (b, t) ↦ f b t | err g ↦ err g ]) e ∙ rest

pub or_throw :
    {S : Type 0} {A B : Type 0} (m : Run S A) (f : A → Run S B) (s : S) (g : Fault)
    → m s ≡ err g
    → (m >>= f) s ≡ err g
or_throw {S} {A} {B} m f s g e =
    ap (λ x. elim x as (λ y. Result (B × S)) [ ok (b, t) ↦ f b t | err h ↦ err h ]) e

module _ {S : Type 0} where
  -- A search that throws when it finds nothing, and a test that throws.
  pub find-IsReader :
      {A : Type 0} (find : S → Option A) (f : Fault) → IsReader {S = S} (λ s. or_fail (find s) f s)
  find-IsReader find f s a s' e = (or_fail-ok (find s) f s e).1

  pub refuse-IsReader :
      (test : S → Bool) (f : Fault) → IsReader {S = S} (λ s. refuse_if (test s) f s)
  refuse-IsReader test f s a s' e = (refuse_if-ok (test s) f s e).1

  -- A transaction that answers has run to its end.
  pub settle-ok :
      {A : Type 0} (x : Result (A × S)) (s : S) {a : A}
      → (settle s x).0 ≡ ok a
      → x ≡ ok (a, (settle s x).1)
  settle-ok (ok (a, s')) s e = cc
  settle-ok (err f) s e = cc
