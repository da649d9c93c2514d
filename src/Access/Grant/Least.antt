-- ===== src/Access/Grant/Least.antt =====
-- What `assertActorMayGrant` decides, and which permission its refusal names.
use sstsaas_pv.Common.{
  ℕ, ◌≤◌, ◌≡◌, refl, sym, subst, ◌↔◌, ◌⊎◌, inl, inr, true, false, leb, leb→le, List, [], ◌∷◌, arith,
  All, All-map, Bool-cases, ==_refl,
}
use sstsaas_pv.Access.Catalog.{Permission, includes, tag}
use sstsaas_pv.Access.Faults.{Fault, ok, err}
use sstsaas_pv.Access.Grant.{
  Key, known, other, TenantContext, known_permissions, denied, missing, rank, insert_by_rank,
  sort_by_rank, refuse_first, assert_actor_may_grant,
}

-- Everything that the actor is asked to grant is held.
abbrev pub Holds : TenantContext → List Key → Type 0
Holds ctx granted = All (λ p. includes ctx.permissions p ≡ true) (known_permissions granted)

missing-nil-Holds : (ctx : TenantContext) (ks : List Key) → missing ctx ks ≡ [] → Holds ctx ks
unfolding missing known_permissions
missing-nil-Holds ctx [] e = tt
missing-nil-Holds ctx (known p ∷ ks) e = elim (Bool-cases (includes ctx.permissions p)) [
  | inl h ↦ (h, missing-nil-Holds ctx ks (rw h at e))
  | inr h ↦ cc (rw h at e)
]
missing-nil-Holds ctx (other n ∷ ks) e = missing-nil-Holds ctx ks e

Holds-missing-nil : (ctx : TenantContext) (ks : List Key) → Holds ctx ks → missing ctx ks ≡ []
unfolding missing known_permissions
Holds-missing-nil ctx [] h = refl
Holds-missing-nil ctx (known p ∷ ks) h = rw h.0 (Holds-missing-nil ctx ks h.1)
Holds-missing-nil ctx (other n ∷ ks) h = Holds-missing-nil ctx ks h

insert-cons :
    (p : Permission) (qs : List Permission)
    → (r : Permission) × (rs : List Permission) × (insert_by_rank p qs ≡ r ∷ rs)
unfolding insert_by_rank
insert-cons p [] = (p, [], refl)
insert-cons p (q ∷ qs) = elim (Bool-cases (leb (rank p) (rank q))) [
  | inl h ↦ (p, q ∷ qs, rw h)
  | inr h ↦ (q, insert_by_rank p qs, rw h)
]

sort-nil : (ps : List Permission) → sort_by_rank ps ≡ [] → ps ≡ []
unfolding sort_by_rank
sort-nil [] e = refl
sort-nil (p ∷ ps) e = let (r, rs, f) = insert-cons p (sort_by_rank ps) in cc

leb-false : (a b : ℕ) → leb a b ≡ false → b ≤ a
leb-false a b h = ground arith

-- The head of an insertion, by the head of the list.
abbrev Heads : Permission → List Permission → Permission → Type 0
Heads p [] r = r ≡ p
Heads p (q ∷ qs) r = ((rank p ≤ rank q) × (r ≡ p)) ⊎ ((rank q ≤ rank p) × (r ≡ q))

insert-Heads :
    (p : Permission) (qs : List Permission) (r : Permission) (rs : List Permission)
    → insert_by_rank p qs ≡ r ∷ rs
    → Heads p qs r
unfolding insert_by_rank
insert-Heads p [] r rs e = cc
insert-Heads p (q ∷ qs) r rs e = elim (Bool-cases (leb (rank p) (rank q))) [
  | inl h ↦ let f : p ∷ q ∷ qs ≡ r ∷ rs = rw h at e in inl (leb→le _ _ h, cc)
  | inr h ↦ let f : q ∷ insert_by_rank p qs ≡ r ∷ rs = rw h at e in inr (leb-false _ _ h, cc)
]

-- The head of a sorted list that is not empty, by the head of the sorted rest.
sort-Heads :
    (p : Permission) (ps qs : List Permission) (q : Permission)
    → sort_by_rank (p ∷ ps) ≡ q ∷ qs
    → Heads p (sort_by_rank ps) q
unfolding sort_by_rank
sort-Heads p ps qs q e = insert-Heads p (sort_by_rank ps) q qs e

abbrev IsFirst : (Permission → Type 0) → List Permission → Permission → Type 0
IsFirst P ps q = P q × All (λ r. rank q ≤ rank r) ps

-- The first of the sorted list comes from the list and has the least rank.
sort-First :
    (P : Permission → Type 0) (ps qs : List Permission) (q : Permission)
    → sort_by_rank ps ≡ q ∷ qs
    → All P ps
    → IsFirst P ps q
unfolding sort_by_rank
sort-First P [] qs q e h = cc
sort-First P (p ∷ ps) qs q e h =
    go (sort_by_rank ps) refl (sort-Heads p ps qs q e) (λ r rs f. sort-First P ps rs r f h.1)
  where
    go :
        (s : List Permission)
        → sort_by_rank ps ≡ s
        → Heads p s q
        → ((r : Permission) (rs : List Permission) → sort_by_rank ps ≡ r ∷ rs → IsFirst P ps r)
        → IsFirst P (p ∷ ps) q
    go [] f same ih =
        subst (IsFirst P (p ∷ ps)) (sym same)
          (h.0, (omega arith, subst (All λ r. rank p ≤ rank r) (sym (sort-nil ps f)) tt))
    go (r ∷ rs) f (inl (le, same)) ih =
        subst (IsFirst P (p ∷ ps)) (sym same)
          (h.0, (omega arith, All-map (λ x k. omega arith) ps (ih r rs f).1))
    go (r ∷ rs) f (inr (le, same)) ih =
        subst (IsFirst P (p ∷ ps)) (sym same) ((ih r rs f).0, (le, (ih r rs f).1))

refuse_first-nil :
    (ctx : TenantContext) (ps : List Permission) → refuse_first ctx ps ≡ ok tt → ps ≡ []
unfolding refuse_first
refuse_first-nil ctx [] e = refl
refuse_first-nil ctx (p ∷ ps) e = cc

refuse_first-cons :
    (ctx : TenantContext) (ps : List Permission) (f : Fault)
    → refuse_first ctx ps ≡ err f
    → (p : Permission) × (qs : List Permission) × (ps ≡ p ∷ qs) × (f ≡ denied p ctx)
unfolding refuse_first
refuse_first-cons ctx [] f e = cc
refuse_first-cons ctx (p ∷ ps) f e = (p, ps, refl, cc)

-- The call passes exactly when the actor holds every permission of the catalogue that is granted;
-- other strings are ignored.
pub assert_actor_may_grant-ok_iff :
    (ctx : TenantContext) (granted : List Key)
    → (assert_actor_may_grant ctx granted ≡ ok tt) ↔ Holds ctx granted
unfolding assert_actor_may_grant sort_by_rank refuse_first
assert_actor_may_grant-ok_iff ctx granted = (
  λ e. missing-nil-Holds ctx granted (
      sort-nil (missing ctx granted) (refuse_first-nil ctx (sort_by_rank (missing ctx granted)) e)),
  λ h. rw (Holds-missing-nil ctx granted h, assert_actor_may_grant),
)

All-missing :
    (P : Permission → Type 0) (ctx : TenantContext) (ks : List Key)
    → All P (known_permissions ks)
    → All (λ p. P p × (includes ctx.permissions p ≡ false)) (missing ctx ks)
unfolding missing known_permissions
All-missing P ctx [] h = tt
All-missing P ctx (known p ∷ ks) h = elim (Bool-cases (includes ctx.permissions p)) [
  | inl held ↦ rw held (All-missing P ctx ks h.1)
  | inr lacks ↦ rw lacks ((h.0, lacks), All-missing P ctx ks h.1)
]
All-missing P ctx (other n ∷ ks) h = All-missing P ctx ks h

All-of-missing :
    (P : Permission → Type 0) (ctx : TenantContext) (ks : List Key)
    → All P (missing ctx ks)
    → All (λ p. (includes ctx.permissions p ≡ true) ⊎ P p) (known_permissions ks)
unfolding missing known_permissions
All-of-missing P ctx [] h = tt
All-of-missing P ctx (known p ∷ ks) h = elim (Bool-cases (includes ctx.permissions p)) [
  | inl held ↦ (inl held, All-of-missing P ctx ks (rw held at h))
  | inr lacks ↦
      let g : All P (p ∷ missing ctx ks) = rw lacks at h in (inr g.0, All-of-missing P ctx ks g.1)
]
All-of-missing P ctx (other n ∷ ks) h = All-of-missing P ctx ks h

-- A refusal names a permission that was to be granted, that the actor lacks, and that stands first
-- in the catalogue among those.
abbrev pub Names : TenantContext → List Key → Permission → Type 0
Names ctx granted required =
    (includes (known_permissions granted) required ≡ true)
    × (includes ctx.permissions required ≡ false)
    × All (λ p. (includes ctx.permissions p ≡ true) ⊎ (rank required ≤ rank p))
        (known_permissions granted)

includes-cons :
    (p q : Permission) (ps : List Permission) → includes ps p ≡ true → includes (q ∷ ps) p ≡ true
includes-cons p q ps h = ground (arith, h)

All-includes : (ps : List Permission) → All (λ p. includes ps p ≡ true) ps
All-includes [] = tt
All-includes (p ∷ ps) =
    (rw (==_refl (tag p)), All-map (λ x h. includes-cons x p ps h) ps (All-includes ps))

-- A refusal is `PERMISSION_DENIED` for a permission that was to be granted, that the actor lacks,
-- and that stands first in the catalogue among all such.
pub assert_actor_may_grant-Names :
    (ctx : TenantContext) (granted : List Key) (f : Fault)
    → assert_actor_may_grant ctx granted ≡ err f
    → (required : Permission) × (f ≡ denied required ctx) × Names ctx granted required
unfolding assert_actor_may_grant
assert_actor_may_grant-Names ctx granted f e =
    let (p, qs, sorted, same) = refuse_first-cons ctx _ f e in
    let ks = known_permissions granted in
    let first =
      sort-First (λ q. (includes ks q ≡ true) × (includes ctx.permissions q ≡ false))
        (missing ctx granted) qs p sorted
        (All-missing (λ q. includes ks q ≡ true) ctx granted (All-includes ks)) in
    (p, same, (first.0.0, first.0.1, All-of-missing (λ q. rank p ≤ rank q) ctx granted first.1))
