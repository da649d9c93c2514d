-- ===== src/Tenancy/Invitations.antt =====
-- `InvitationService` of apps/api/src/modules/invitations/invitation.service.ts: `create`, `revoke`
-- and `accept`, each one transaction. The clock, the new identifiers and the minted token's hash are
-- arguments; mail is sent after the transaction and is not modelled. The advisory lock of
-- `lockInvitationSlot` only orders transactions, which the model runs one by one.
pub mod Accepting
pub mod Inviting
mod Tests
use sstsaas_pv.Common.{
  ℕ, List, ◌+◌, ◌*◌, ◌==◌, ltb, leb, Bool, true, false, not, ◌&&◌, ◌||◌, Option, none, some,
  is_none, is_some, holds_value, if◌then◌else◌,
}
use sstsaas_pv.Access.Catalog.{Role, Permission, organization_manage_members, includes}
use sstsaas_pv.Access.Faults.{
  Fault, resource_not_found, already_a_member, token_invalid, Result, ok, err,
}
use sstsaas_pv.Access.Grant.{Key, TenantContext, known_permissions, denied, assert_actor_may_grant}
use sstsaas_pv.Tenancy.Rows.{
  MembershipStatus, is_active, Membership, Invitation, Organization, User, RequestContext,
  AuditEvent, AuditAction, member_invited, invitation_revoked, invitation_accepted,
  is_live_membership, is_live,
}
use sstsaas_pv.Tenancy.Database.{
  Database, Db, Tx, pure, fail, gets, lift, or_fail, refuse_if, modify, ◌>>=◌, ◌>>◌,
  with_tenant_transaction, lock_organization, role_grants, record_event,
}
use sstsaas_pv.Tenancy.Cascade.{granted_by, is_live_invitation, revoke_at}
use sstsaas_pv.Tenancy.Memberships.{event_of}

-- `CreateInvitationCommand`
pub record CreateInvitationCommand : Type 0 where
  pub actor_user_id : ℕ
  pub email : ℕ
  pub role_key : Role
  pub request : RequestContext

-- `RevokeInvitationCommand`
pub record RevokeInvitationCommand : Type 0 where
  pub actor_user_id : ℕ
  pub request : RequestContext

-- `AcceptInvitationCommand`, with the token's hash.
pub record AcceptInvitationCommand : Type 0 where
  pub actor_user_id : ℕ
  pub token_hash : ℕ
  pub request : RequestContext

-- `{ organizationId, email, ...LIVE_INVITATION }`
abbrev pub is_live_for : ℕ → ℕ → Invitation → Bool
is_live_for org email i = i.organization_id == org && (i.email == email && is_live i)

-- `{ tokenHash, organizationId }`
abbrev pub has_hash : ℕ → ℕ → Invitation → Bool
has_hash org h i = i.token_hash == h && i.organization_id == org

-- `{ organizationId, userId, status: 'ACTIVE', deletedAt: null }`
abbrev pub is_active_member : ℕ → ℕ → Membership → Bool
is_active_member org user m =
    m.organization_id == org && (m.user_id == user && (is_active m.status && is_none m.deleted_at))

-- `{ id, organizationId, ...LIVE_INVITATION, expiresAt: { gt: now } }`
abbrev pub is_consumable : ℕ → ℕ → ℕ → Invitation → Bool
is_consumable org iid now i = is_live_invitation org iid i && ltb now i.expires_at

abbrev pub accept_at : ℕ → Invitation → Invitation
accept_at now i = record i { accepted_at = some now }

-- The row that `create` inserts.
abbrev pub new_invitation : CreateInvitationCommand → ℕ → ℕ → ℕ → ℕ → ℕ → Invitation
new_invitation command org id token_hash expires_at now = record {
  id = id;
  organization_id = org;
  email = command.email;
  role_key = command.role_key;
  token_hash = token_hash;
  invited_by_user_id = command.actor_user_id;
  expires_at = expires_at;
  accepted_at = none;
  revoked_at = none;
  created_at = now;
}

-- The row that `accept` inserts.
abbrev pub new_membership : ℕ → ℕ → ℕ → Role → ℕ → Membership
new_membership id org user role now = record {
  id = id;
  organization_id = org;
  user_id = user;
  role_key = role;
  status = MembershipStatus.active;
  deleted_at = none;
  created_at = now;
}

-- The tests of `accept` on the invitation found, after those on the account: used up, or expired.
abbrev pub is_stale : ℕ → Invitation → Bool
is_stale now i = is_some i.accepted_at || is_some i.revoked_at || leb i.expires_at now

module _ (D : Database) where
  -- The context that `actorAuthority` builds from the row found.
  abbrev pub authority_of : TenantContext → Membership → Db D → TenantContext
  authority_of ctx m s = record ctx {
    role_key = m.role_key;
    permissions = known_permissions (granted_by D s m.role_key);
  }

  -- `actorAuthority`
  pub actor_authority : TenantContext → Tx D TenantContext
  actor_authority ctx = do
    m ← λ s.
        or_fail
          (D.memberships.find_first (is_live_membership ctx.organization_id ctx.membership_id)
            s.memberships)
          (denied organization_manage_members ctx) s
    live ← gets (authority_of ctx m)
    refuse_if (not (includes live.permissions organization_manage_members))
        (denied organization_manage_members live)
    pure live

  -- `assertUserIsNotAlreadyAMember`
  pub assert_user_is_not_already_a_member : ℕ → ℕ → Tx D (Unit {0})
  assert_user_is_not_already_a_member org user s =
      refuse_if (is_some (D.memberships.find_first (is_active_member org user) s.memberships))
        already_a_member s

  -- `assertNotAlreadyAMember`, on the user found.
  pub refuse_member : ℕ → Option User → Tx D (Unit {0})
  refuse_member org none = pure tt
  refuse_member org (some user) = assert_user_is_not_already_a_member org user.id

  -- `assertNotAlreadyAMember`
  pub assert_not_already_a_member : ℕ → ℕ → Tx D (Unit {0})
  unfolding refuse_member
  assert_not_already_a_member org email s =
      refuse_member org (D.users.find_first (λ u. u.email == email) s.users) s

  -- The invitation that `create` supersedes is read, and the live ones to this address are revoked.
  pub supersede : ℕ → ℕ → ℕ → Tx D (Option Invitation)
  supersede org email now s =
      let found = D.invitations.find_first (is_live_for org email) s.invitations in
      ok (
        found,
        (if is_some found
            then record s {
              invitations =
                  D.invitations.update_many (is_live_for org email) (revoke_at now) s.invitations;
            }
            else s),
      )

  abbrev pub id_of : Option Invitation → Option ℕ
  id_of none = none
  id_of (some i) = some i.id

  -- `tx.invitation.create`
  pub insert_invitation : Invitation → Tx D (Unit {0})
  insert_invitation i =
      modify (λ s. record s { invitations = D.invitations.create i s.invitations })

  -- `tx.organization.findUnique`, and `notFound` where there is none.
  pub organization_of : ℕ → Tx D Organization
  organization_of org s =
      or_fail (D.organizations.find_first (λ o. o.id == org) s.organizations) resource_not_found s

  -- `create` from the membership test on.
  pub issue_invitation : TenantContext → CreateInvitationCommand → ℕ → ℕ → ℕ → ℕ → Tx D Invitation
  issue_invitation ctx command id token_hash expires_at now = do
    assert_not_already_a_member ctx.organization_id command.email
    superseded ← supersede ctx.organization_id command.email now
    let made = new_invitation command ctx.organization_id id token_hash expires_at now
    insert_invitation made
    record_event D (
        event_of ctx.organization_id command.actor_user_id
          (member_invited command.email command.role_key (id_of superseded)) id command.request)
    organization_of ctx.organization_id
    pure made

  -- The body of `create`'s transaction.
  pub create_tx : TenantContext → CreateInvitationCommand → ℕ → ℕ → ℕ → ℕ → Tx D Invitation
  unfolding issue_invitation
  create_tx ctx command id token_hash expires_at now = do
    lock_organization D ctx.organization_id
    granted ← role_grants D command.role_key
    live ← actor_authority ctx
    lift (assert_actor_may_grant live granted)
    issue_invitation ctx command id token_hash expires_at now

  -- `create`
  pub create :
      TenantContext → ℕ → CreateInvitationCommand → ℕ → ℕ → ℕ → ℕ → Db D → Result Invitation × Db D
  create ctx path_id command id token_hash expires_at now s =
      if path_id == ctx.organization_id
      then with_tenant_transaction (create_tx ctx command id token_hash expires_at now) s
      else (err resource_not_found, s)

  -- `tx.invitation.updateMany` of `revoke`, with its count test.
  pub write_revocation : ℕ → ℕ → ℕ → Tx D (Unit {0})
  write_revocation org iid now s =
      let mine = is_live_invitation org iid in
      if D.invitations.updated_count mine s.invitations == 0
      then err resource_not_found
      else ok (
        tt,
        record s { invitations = D.invitations.update_many mine (revoke_at now) s.invitations },
      )

  -- The body of `revoke`'s transaction.
  pub revoke_tx : TenantContext → ℕ → RevokeInvitationCommand → ℕ → Tx D (Unit {0})
  revoke_tx ctx iid command now = do
    i ← λ s.
        or_fail
          (D.invitations.find_first (is_live_invitation ctx.organization_id iid) s.invitations)
          resource_not_found s
    write_revocation ctx.organization_id iid now
    record_event D (
        event_of ctx.organization_id command.actor_user_id
          (invitation_revoked i.email i.role_key none) iid command.request)

  -- `revoke`
  pub revoke : TenantContext → ℕ → ℕ → RevokeInvitationCommand → ℕ → Db D → Result (Unit {0}) × Db D
  revoke ctx path_id iid command now s =
      if path_id == ctx.organization_id
      then with_tenant_transaction (revoke_tx ctx iid command now) s
      else (err resource_not_found, s)

-- `parse_email` is zod's `emailSchema.parse` on a stored address.
module _ (D : Database) (parse_email : ℕ → ℕ) where
  -- The account of the caller, which the invitation has to be addressed to.
  pub assert_addressed : ℕ → Invitation → Tx D (Unit {0})
  assert_addressed user i = do
    account ← λ s. or_fail (D.users.find_first (λ u. u.id == user) s.users) token_invalid s
    refuse_if (not (parse_email account.email == parse_email i.email)) token_invalid

  -- `tx.invitation.updateMany` of `accept`, with its count test.
  pub consume : ℕ → ℕ → ℕ → Tx D (Unit {0})
  consume org iid now s =
      let mine = is_consumable org iid now in
      if D.invitations.updated_count mine s.invitations == 1
      then ok (
        tt,
        record s { invitations = D.invitations.update_many mine (accept_at now) s.invitations },
      )
      else err token_invalid

  -- `tx.membership.create`
  pub insert_membership : Membership → Tx D (Unit {0})
  insert_membership m =
      modify (λ s. record s { memberships = D.memberships.create m s.memberships })

  -- `accept` from the membership test on.
  pub join : ℕ → AcceptInvitationCommand → ℕ → ℕ → Invitation → Tx D Membership
  join org command id now i = do
    assert_user_is_not_already_a_member D org command.actor_user_id
    consume org i.id now
    let made = new_membership id org command.actor_user_id i.role_key now
    insert_membership made
    record_event D (
        event_of org command.actor_user_id (invitation_accepted id i.role_key command.actor_user_id)
          i.id command.request)
    pure made

  -- The body of `accept`'s transaction.
  pub accept_tx : ℕ → AcceptInvitationCommand → ℕ → ℕ → Tx D Membership
  unfolding join
  accept_tx org command id now = do
    lock_organization D org
    i ← λ s.
        or_fail (D.invitations.find_first (has_hash org command.token_hash) s.invitations)
          token_invalid s
    assert_addressed command.actor_user_id i
    refuse_if (is_stale now i) token_invalid
    join org command id now i

  -- `accept`, on the invitation whose organisation the lookup found.
  pub accept_found :
      Option Invitation → AcceptInvitationCommand → ℕ → ℕ → Db D → Result Membership × Db D
  accept_found none command id now s = (err token_invalid, s)
  accept_found (some i) command id now s =
      with_tenant_transaction (accept_tx i.organization_id command id now) s

  -- `accept`; the lookup is the SQL function `invitation_organization_by_token_hash`.
  pub accept : AcceptInvitationCommand → ℕ → ℕ → Db D → Result Membership × Db D
  unfolding accept_found
  accept command id now s =
      accept_found
        (D.invitations.find_first (λ i. i.token_hash == command.token_hash) s.invitations) command
        id now s
