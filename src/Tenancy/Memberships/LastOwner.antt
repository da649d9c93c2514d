-- ===== src/Tenancy/Memberships/LastOwner.antt =====
-- The tests of `assertOrganizationKeepsAnOwner` (apps/api/src/modules/memberships/membership.service.ts)
-- in plain terms.
use sstsaas_pv.Common.{
  ℕ, zero, suc, ◌==◌, ◌≡◌, ◌≢◌, refl, sym, ap, ◌∙◌, inl, inr, Bool, true, false, none, is_none,
  is_none-none, Bool-cases, and_left, and_right, ==_iff, ==_refl, arith, if◌then◌else◌,
}
use sstsaas_pv.Access.Catalog.{
  Role, owner, admin, security_lead, member, viewer, auditor, guest, role_tag, same_role,
}
use sstsaas_pv.Tenancy.Rows.{MembershipStatus, is_active, is_active-active, is_owner, Membership}
use sstsaas_pv.Tenancy.Memberships.{is_other_owner, loses_owner}

-- Every role is the one of its number, so equal numbers are equal roles.
role_of : ℕ → Role
role_of n =
    if n == 0
    then owner
    else (if n == 1
        then admin
        else (if n == 2
            then security_lead
            else (if n == 3
                then member
                else (if n == 4 then viewer else (if n == 5 then auditor else guest)))))

role_of-role_tag : (r : Role) → role_of (role_tag r) ≡ r
unfolding role_of
role_of-role_tag owner = refl
role_of-role_tag admin = refl
role_of-role_tag security_lead = refl
role_of-role_tag member = refl
role_of-role_tag viewer = refl
role_of-role_tag auditor = refl
role_of-role_tag guest = refl

pub same_role-eq : (r s : Role) → same_role r s ≡ true → r ≡ s
same_role-eq r s e =
    sym (role_of-role_tag r)
    ∙ ap role_of ((==_iff (role_tag r) (role_tag s)).0 e)
    ∙ role_of-role_tag s

-- A membership that makes its user an owner of the organisation.
abbrev pub IsOwnerOf : ℕ → Membership → Type 0
IsOwnerOf org x =
    (x.organization_id ≡ org)
    × (x.status ≡ MembershipStatus.active)
    × (x.deleted_at ≡ none)
    × (x.role_key ≡ owner)

is_owner-IsOwnerOf : (org : ℕ) (x : Membership) → is_owner org x ≡ true → IsOwnerOf org x
is_owner-IsOwnerOf org x h =
    let rest = and_right (x.organization_id == org) _ h in
    let last = and_right (is_active x.status) _ rest in
    (
      (==_iff x.organization_id org).0 (and_left _ _ h),
      is_active-active x.status (and_left _ _ rest),
      is_none-none x.deleted_at (and_left _ _ last),
      same_role-eq x.role_key owner (and_right (is_none x.deleted_at) _ last),
    )

IsOwnerOf-is_owner : (org : ℕ) (x : Membership) → IsOwnerOf org x → is_owner org x ≡ true
IsOwnerOf-is_owner org x (o, a, d, r) = rw (o, a, d, r, ==_refl org) refl

-- The test of the count, as it reads.
pub other_owner-false :
    (org mid : ℕ) (x : Membership)
    → is_other_owner org mid x ≡ false
    → ¬ (IsOwnerOf org x × (x.id ≢ mid))
other_owner-false org mid x miss (owns_it, apart) = elim (Bool-cases (x.id == mid)) [
  | inl same ↦ apart ((==_iff x.id mid).0 same)
  | inr other ↦
      let hit : is_other_owner org mid x ≡ true =
        rw (IsOwnerOf-is_owner org x owns_it, other) refl in
      let never : true ≡ false = sym hit ∙ miss in absurd (cc)
]

pub false-other_owner :
    (org mid : ℕ) (x : Membership)
    → ¬ (IsOwnerOf org x × (x.id ≢ mid))
    → is_other_owner org mid x ≡ false
false-other_owner org mid x h = elim (Bool-cases (is_other_owner org mid x)) [
  | inr miss ↦ miss
  | inl hit ↦ absurd (
      h (
        is_owner-IsOwnerOf org x (and_left _ _ hit),
        λ same.
            let apart = and_right (is_owner org x) _ hit in
            let never : false ≡ true = sym (rw ((==_iff x.id mid).1 same) refl) ∙ apart in cc,
      ))
]

pub loses_owner-parts :
    (others : ℕ) (now after : Bool)
    → loses_owner others now after ≡ true
    → (others ≡ 0) × (now ≡ true) × (after ≡ false)
loses_owner-parts zero true false h = (refl, refl, refl)
loses_owner-parts zero true true h = cc
loses_owner-parts zero false false h = cc
loses_owner-parts zero false true h = cc
loses_owner-parts (suc n) now after h = absurd (ground (arith, h))
