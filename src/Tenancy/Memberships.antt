-- ===== src/Tenancy/Memberships.antt =====
-- `MembershipService` of apps/api/src/modules/memberships/membership.service.ts: `updateRole` and
-- `remove`, each one transaction, with the last-owner rule. The clock is an argument.
pub mod Decisions
pub mod Owners
pub mod Calls
pub mod LastOwner
pub mod Outcomes
mod Tests
use sstsaas_pv.Common.{
  ℕ, List, ◌+◌, ◌==◌, ltb, Bool, true, false, not, ◌&&◌, Option, none, some, is_none, if◌then◌else◌,
}
use sstsaas_pv.Access.Catalog.{Role, owner, same_role}
use sstsaas_pv.Access.Faults.{
  OwnerAction, demoted, removed, Fault, resource_not_found, last_owner, record_missing, Result, ok,
  err,
}
use sstsaas_pv.Access.Grant.{Key, TenantContext, assert_actor_may_grant}
use sstsaas_pv.Tenancy.Rows.{
  MembershipStatus, is_active, Membership, RequestContext, issuer_removed, issuer_role_changed,
  AuditEvent, AuditAction, role_changed, member_removed, is_live_membership, is_owner,
}
use sstsaas_pv.Tenancy.Database.{
  Database, Db, Tx, pure, fail, gets, lift, or_fail, refuse_if, modify, ◌>>=◌, ◌>>◌,
  with_tenant_transaction, lock_organization, role_grants, record_event,
}
use sstsaas_pv.Tenancy.Cascade.{RevokeIssuedInvitationsInput, revoke_issued}

-- `UpdateMembershipRoleCommand`
pub record UpdateMembershipRoleCommand : Type 0 where
  pub actor_user_id : ℕ
  pub role_key : Role
  pub request : RequestContext

-- `RemoveMembershipCommand`
pub record RemoveMembershipCommand : Type 0 where
  pub actor_user_id : ℕ
  pub request : RequestContext

-- `membership.status === 'ACTIVE' && role === 'OWNER'`
abbrev pub owns : MembershipStatus → Role → Bool
owns status role = is_active status && same_role role owner

abbrev pub as_count : Bool → ℕ
as_count b = if b then 1 else 0

-- The `where` of the count in `assertOrganizationKeepsAnOwner`.
abbrev pub is_other_owner : ℕ → ℕ → Membership → Bool
is_other_owner org mid m = is_owner org m && not (m.id == mid)

-- The organisation had an owner and would have none.
abbrev pub loses_owner : ℕ → Bool → Bool → Bool
loses_owner others now after = (others + as_count after) == 0 && ltb 0 (others + as_count now)

abbrev pub set_role : Role → Membership → Membership
set_role role m = record m { role_key = role }

abbrev pub mark_removed : ℕ → Membership → Membership
mark_removed now m = record m { status = MembershipStatus.removed; deleted_at = some now }

abbrev pub event_of : ℕ → ℕ → AuditAction → ℕ → RequestContext → AuditEvent
event_of org actor action resource request = record {
  organization_id = org;
  actor_id = actor;
  action = action;
  resource_id = resource;
  request = request;
}

module _ (D : Database) where
  -- `liveMembership`
  unfoldable pub live_membership : ℕ → ℕ → Tx D Membership
  live_membership org mid s =
      or_fail (D.memberships.find_first (is_live_membership org mid) s.memberships)
        resource_not_found s

  -- `assertOrganizationKeepsAnOwner`
  unfoldable pub assert_organization_keeps_an_owner :
      ℕ → ℕ → Bool → Bool → OwnerAction → Tx D (Unit {0})
  assert_organization_keeps_an_owner org mid now after action s =
      refuse_if (loses_owner (D.memberships.count (is_other_owner org mid) s.memberships) now after)
        (last_owner action) s

  -- `tx.membership.update`, which throws where no row matches.
  pub write_role : ℕ → ℕ → Role → Tx D (Unit {0})
  write_role org mid role s =
      let mine = is_live_membership org mid in
      if D.memberships.updated_count mine s.memberships == 0
      then err record_missing
      else ok (
        tt,
        record s { memberships = D.memberships.update_many mine (set_role role) s.memberships },
      )

  -- `tx.membership.updateMany` of `remove`, with its count test.
  unfoldable pub write_removal : ℕ → ℕ → ℕ → Tx D (Unit {0})
  write_removal org mid now s =
      let mine = is_live_membership org mid in
      if D.memberships.updated_count mine s.memberships == 0
      then err resource_not_found
      else ok (
        tt,
        record s { memberships = D.memberships.update_many mine (mark_removed now) s.memberships },
      )

  -- `this.revokeIssuedInvitations`
  unfoldable pub run_cascade : RevokeIssuedInvitationsInput → ℕ → Tx D (Unit {0})
  run_cascade input now s = ok (tt, (revoke_issued D input now s).1)

  -- `updateRole` from the owner rule on.
  pub apply_role :
      TenantContext → ℕ → UpdateMembershipRoleCommand → ℕ → Membership → List Key → Tx D Membership
  apply_role ctx mid command now m granted = do
    assert_organization_keeps_an_owner ctx.organization_id mid (owns m.status m.role_key)
        (owns m.status command.role_key) demoted
    write_role ctx.organization_id mid command.role_key
    record_event D (
        event_of ctx.organization_id command.actor_user_id
          (role_changed m.role_key command.role_key m.user_id) mid command.request)
    run_cascade
        (record {
          organization_id = ctx.organization_id;
          issuer_user_id = m.user_id;
          actor_user_id = command.actor_user_id;
          reason = issuer_role_changed;
          retained_permissions = some granted;
          request = command.request;
        })
        now
    pure (set_role command.role_key m)

  -- The body of `updateRole`'s transaction; the membership comes back with its new role.
  pub update_role_tx : TenantContext → ℕ → UpdateMembershipRoleCommand → ℕ → Tx D Membership
  unfolding apply_role
  update_role_tx ctx mid command now = do
    lock_organization D ctx.organization_id
    m ← live_membership ctx.organization_id mid
    granted ← role_grants D command.role_key
    lift (assert_actor_may_grant ctx granted)
    apply_role ctx mid command now m granted

  -- `remove` from the owner rule on.
  unfoldable pub apply_removal :
      TenantContext → ℕ → RemoveMembershipCommand → ℕ → ℕ → Membership → Tx D ℕ
  apply_removal ctx mid command removed_at revoked_at m = do
    assert_organization_keeps_an_owner ctx.organization_id mid (owns m.status m.role_key) false
        OwnerAction.removed
    write_removal ctx.organization_id mid removed_at
    record_event D (
        event_of ctx.organization_id command.actor_user_id (member_removed m.role_key m.user_id) mid
          command.request)
    run_cascade
        (record {
          organization_id = ctx.organization_id;
          issuer_user_id = m.user_id;
          actor_user_id = command.actor_user_id;
          reason = issuer_removed;
          retained_permissions = none;
          request = command.request;
        })
        revoked_at
    pure m.user_id

  -- The body of `remove`'s transaction; the user comes back whose sessions are then revoked.
  unfoldable pub remove_tx : TenantContext → ℕ → RemoveMembershipCommand → ℕ → ℕ → Tx D ℕ
  unfolding apply_removal
  remove_tx ctx mid command removed_at revoked_at = do
    lock_organization D ctx.organization_id
    m ← live_membership ctx.organization_id mid
    held ← role_grants D m.role_key
    lift (assert_actor_may_grant ctx held)
    apply_removal ctx mid command removed_at revoked_at m

  -- `updateRole`
  pub update_role :
      TenantContext → ℕ → ℕ → UpdateMembershipRoleCommand → ℕ → Db D → Result Membership × Db D
  update_role ctx path_id mid command now s =
      if path_id == ctx.organization_id
      then with_tenant_transaction (update_role_tx ctx mid command now) s
      else (err resource_not_found, s)

  -- `remove`, up to the call of `revokeSessions` for the user that it returns.
  unfoldable pub remove :
      TenantContext → ℕ → ℕ → RemoveMembershipCommand → ℕ → ℕ → Db D → Result ℕ × Db D
  remove ctx path_id mid command removed_at revoked_at s =
      if path_id == ctx.organization_id
      then with_tenant_transaction (remove_tx ctx mid command removed_at revoked_at) s
      else (err resource_not_found, s)
