-- ===== src/Tenancy/Rows.antt =====
-- The rows that the membership and invitation services read and write. Identifiers, e-mail
-- addresses and token hashes are only compared, so they are numbers; a date is its milliseconds.
-- A `roleId` is modelled by the key of the role that it refers to.
use sstsaas_pv.Common.{◌≡◌, refl, ℕ, ◌==◌, Bool, true, false, ◌&&◌, Option, List, is_none}
use sstsaas_pv.Access.Catalog.{Role, owner, same_role}
use sstsaas_pv.Access.Grant.{Key}

pub data MembershipStatus : Type 0 where
  active invited removed : MembershipStatus

abbrev pub is_active : MembershipStatus → Bool
is_active active = true
is_active invited = false
is_active removed = false

pub is_active-active : (x : MembershipStatus) → is_active x ≡ true → x ≡ MembershipStatus.active
is_active-active MembershipStatus.active e = refl
is_active-active MembershipStatus.invited e = cc
is_active-active MembershipStatus.removed e = cc

pub record Membership : Type 0 where
  pub id : ℕ
  pub organization_id : ℕ
  pub user_id : ℕ
  pub role_key : Role
  pub status : MembershipStatus
  pub deleted_at : Option ℕ
  pub created_at : ℕ

pub record Invitation : Type 0 where
  pub id : ℕ
  pub organization_id : ℕ
  pub email : ℕ
  pub role_key : Role
  pub token_hash : ℕ
  pub invited_by_user_id : ℕ
  pub expires_at : ℕ
  pub accepted_at : Option ℕ
  pub revoked_at : Option ℕ
  pub created_at : ℕ

pub record Organization : Type 0 where
  pub id : ℕ
  pub name : ℕ
  pub is_active : Bool
  pub require_mfa : Bool

pub record User : Type 0 where
  pub id : ℕ
  pub email : ℕ

-- A `Role` row with the keys of its `permissions` relation.
pub record RoleRow : Type 0 where
  pub key : Role
  pub permissions : List Key

-- `AuthRequestContext`
pub record RequestContext : Type 0 where
  pub ip : Option ℕ
  pub user_agent : Option ℕ
  pub request_id : Option ℕ

-- `InvitationRevocationReason`
pub data RevocationReason : Type 0 where
  issuer_removed issuer_role_changed : RevocationReason

-- An audit action with its `metadata`.
pub data AuditAction : Type 0 where
  -- before, after, memberUserId
  role_changed : Role → Role → ℕ → AuditAction
  member_removed : Role → ℕ → AuditAction
  -- email, roleKey, supersededInvitationId
  member_invited : ℕ → Role → Option ℕ → AuditAction
  -- email, roleKey, and the cascade's reason and issuerUserId
  invitation_revoked : ℕ → Role → Option (RevocationReason × ℕ) → AuditAction
  -- membershipId, roleKey, memberUserId
  invitation_accepted : ℕ → Role → ℕ → AuditAction

pub record AuditEvent : Type 0 where
  pub organization_id : ℕ
  pub actor_id : ℕ
  pub action : AuditAction
  pub resource_id : ℕ
  pub request : RequestContext

-- `{ id, organizationId, deletedAt: null }`
abbrev pub is_live_membership : ℕ → ℕ → Membership → Bool
is_live_membership org mid m = m.id == mid && (m.organization_id == org && is_none m.deleted_at)

-- `{ organizationId, status: 'ACTIVE', deletedAt: null, role: { key: 'OWNER' } }`
abbrev pub is_owner : ℕ → Membership → Bool
is_owner org m =
    m.organization_id == org
    && (is_active m.status && (is_none m.deleted_at && same_role m.role_key owner))

-- `LIVE_INVITATION`
abbrev pub is_live : Invitation → Bool
is_live i = is_none i.accepted_at && is_none i.revoked_at
