-- ===== src/Guards/Resolving.antt =====
-- Which organisation a request acts in and whether it may without a second factor: `resolveTenant`
-- of apps/api/src/common/guards/tenant-context.ts, `requireMfaDecision` of
-- apps/api/src/modules/auth/require-mfa.ts, and the two queries of
-- apps/api/src/modules/roles/tenant-resolver.store.ts.
use mathlib.Core.Option
use sstsaas_pv.Common.{
  ℕ, ◌==◌, Bool, true, false, not, ◌&&◌, Option, none, some, is_none, List, [], if◌then◌else◌,
}
use sstsaas_pv.Access.Catalog.{Role, Permission, same_role}
use sstsaas_pv.Access.Grant.{Key, TenantContext, known_permissions}
use sstsaas_pv.Tenancy.Rows.{Membership, Organization, is_active}
use sstsaas_pv.Tenancy.Database.{Database, Db}
use sstsaas_pv.Identity.Store.{IdentityDatabase, Accounts}
use sstsaas_pv.Identity.Login.{has_confirmed_factor}

-- The membership of `TenantResolutionInput`.
pub record MembershipFacts : Type 0 where
  pub id : ℕ
  pub is_active : Bool
  pub role_key : Role
  pub permissions : List Permission

-- `TenantResolutionInput`
pub record TenantResolutionInput : Type 0 where
  pub active_organization_id : Option ℕ
  pub membership : Option MembershipFacts
  pub organization_is_active : Bool

-- `TenantResolution`
pub data TenantResolution : Type 0 where
  resolved : TenantContext → TenantResolution
  no_active_organization not_a_member organization_is_suspended : TenantResolution

-- `resolveTenant`, in an organisation.
unfoldable pub resolve_member : ℕ → Option MembershipFacts → Bool → TenantResolution
resolve_member org none organization_is_active = not_a_member
resolve_member org (some m) organization_is_active =
    if not m.is_active
    then not_a_member
    else (if not organization_is_active
        then organization_is_suspended
        else resolved (record {
          organization_id = org;
          membership_id = m.id;
          role_key = m.role_key;
          permissions = m.permissions;
        }))

-- `resolveTenant`
unfoldable pub resolve_tenant : TenantResolutionInput → TenantResolution
resolve_tenant input = elim input.active_organization_id [
  | none ↦ no_active_organization
  | some org ↦ resolve_member org input.membership input.organization_is_active
]

-- `requireMfaDecision`: whether the answer is `allow`.
unfoldable pub require_mfa_allows : Bool → Bool → Bool → Bool
require_mfa_allows organization_requires_mfa has_factor route_is_exempt =
    if route_is_exempt then true else (if not organization_requires_mfa then true else has_factor)

-- `{ organizationId, userId, deletedAt: null }`
abbrev pub is_membership_of : ℕ → ℕ → Membership → Bool
is_membership_of org user m =
    m.organization_id == org && (m.user_id == user && is_none m.deleted_at)

module _ (D : Database) where
  -- The membership's role with its permissions; the foreign key makes the role exist.
  unfoldable pub granted_keys : Role → Db D → List Key
  granted_keys key s = elim (D.roles.find_first (λ r. same_role r.key key) s.roles) [
    | none ↦ []
    | some r ↦ r.permissions
  ]

  unfoldable pub facts_of : Membership → Db D → MembershipFacts
  facts_of m s = record {
    id = m.id;
    is_active = is_active m.status;
    role_key = m.role_key;
    permissions = known_permissions (granted_keys m.role_key s);
  }

  unfoldable pub find_organization : ℕ → Db D → Option Organization
  find_organization org s = D.organizations.find_first (λ o. o.id == org) s.organizations

  abbrev pub holds_organization : (Organization → Bool) → Option Organization → Bool
  holds_organization p none = false
  holds_organization p (some o) = p o

  -- `tenantResolver`
  unfoldable pub tenant_resolver : ℕ → ℕ → Db D → TenantResolutionInput
  tenant_resolver user org s = record {
    active_organization_id = some org;
    membership =
        Option.map (λ m. facts_of m s)
          (D.memberships.find_first (is_membership_of org user) s.memberships);
    organization_is_active = holds_organization (λ o. o.is_active) (find_organization org s);
  }

  module _ (I : IdentityDatabase) where
    -- `mfaEnrolmentPolicy`: whether the organisation requires a factor, and whether the user has one.
    unfoldable pub mfa_enrolment_policy : ℕ → ℕ → Db D → Accounts I → Bool × Bool
    mfa_enrolment_policy user org s accounts =
        if holds_organization (λ o. o.require_mfa) (find_organization org s)
        then (true, has_confirmed_factor I user accounts)
        else (false, false)
