-- ===== src/Tenancy/Invitations/Tests.antt =====
-- The invitation service on a small organisation, in memory.
use sstsaas_pv.Common.{ℕ, ◌==◌, ◌≡◌, ◌≢◌, refl, true, false, none, [], ◌∷◌}
use sstsaas_pv.Access.Catalog.{admin, member, organization_read, organization_manage_members}
use sstsaas_pv.Access.Faults.{ok}
use sstsaas_pv.Access.Grant.{
  known, TenantContext, known_permissions, assert_actor_may_grant, missing, sort_by_rank,
  refuse_first,
}
use sstsaas_pv.Tenancy.Rows.{Membership, Invitation, RequestContext, active}
use sstsaas_pv.Tenancy.Database.{
  Db, in_memory, with_tenant_transaction, lock_organization, role_grants, record_event,
}
use sstsaas_pv.Tenancy.Cascade.{granted_by}
use sstsaas_pv.Tenancy.Invitations.{
  CreateInvitationCommand, AcceptInvitationCommand, new_invitation, new_membership, create,
  create_tx, issue_invitation, actor_authority, assert_not_already_a_member, refuse_member,
  supersede, insert_invitation, organization_of, accept, accept_found, accept_tx, assert_addressed,
  join, consume, insert_membership, assert_user_is_not_already_a_member,
}
use sstsaas_pv.Tenancy.Invitations.Accepting.{Accepts, accept-Accepts, accept-once}
use sstsaas_pv.Tenancy.Invitations.Inviting.{Creates, create-Creates}

abbrev quiet : RequestContext
quiet = record { ip = none; user_agent = none; request_id = none }

abbrev boss : Membership
boss = record {
  id = 11;
  organization_id = 1;
  user_id = 21;
  role_key = admin;
  status = active;
  deleted_at = none;
  created_at = 5;
}

abbrev letter : Invitation
letter = record {
  id = 31;
  organization_id = 1;
  email = 70;
  role_key = member;
  token_hash = 90;
  invited_by_user_id = 21;
  expires_at = 900;
  accepted_at = none;
  revoked_at = none;
  created_at = 6;
}

abbrev seeded : Db in_memory
seeded = record {
  memberships = boss ∷ [];
  invitations = letter ∷ [];
  organizations = record { id = 1; name = 8; is_active = true; require_mfa = false } ∷ [];
  users = record { id = 22; email = 70 } ∷ [];
  roles =
      record {
        key = admin;
        permissions = known organization_manage_members ∷ known organization_read ∷ [];
      }
      ∷ record { key = member; permissions = known organization_read ∷ [] }
      ∷ [];
  audit_events = [];
}

-- The caller's context claims nothing that is stored.
abbrev by_boss : TenantContext
by_boss = record { organization_id = 1; membership_id = 11; role_key = member; permissions = [] }

abbrev invite : CreateInvitationCommand
invite = record { actor_user_id = 21; email = 70; role_key = member; request = quiet }

abbrev take_up : AcceptInvitationCommand
take_up = record { actor_user_id = 22; token_hash = 90; request = quiet }

abbrev same_email : ℕ → ℕ
same_email e = e

abbrev joined : Membership
joined = new_membership 12 1 22 member 40

invites :
    (create in_memory by_boss 1 invite 32 91 950 50 seeded).0
    ≡ ok (new_invitation invite 1 32 91 950 50)
unfolding create create_tx issue_invitation actor_authority assert_not_already_a_member
    refuse_member supersede insert_invitation organization_of assert_user_is_not_already_a_member
    with_tenant_transaction lock_organization role_grants record_event granted_by known_permissions
    assert_actor_may_grant missing sort_by_rank refuse_first
invites = refl

accepts : (accept in_memory same_email take_up 12 40 seeded).0 ≡ ok joined
unfolding accept accept_found accept_tx assert_addressed join consume insert_membership
    assert_user_is_not_already_a_member with_tenant_transaction lock_organization record_event
accepts = refl

create-Creates_example :
    ((1 == 1) ≡ true)
    × Creates in_memory by_boss invite 32 91 950 50 seeded
        (new_invitation invite 1 32 91 950 50)
        (create in_memory by_boss 1 invite 32 91 950 50 seeded).1
create-Creates_example =
    create-Creates in_memory by_boss 1 invite 32 91 950 50 seeded
      (new_invitation invite 1 32 91 950 50) invites

accept-Accepts_example :
    Accepts in_memory same_email take_up 12 40 seeded joined
      (accept in_memory same_email take_up 12 40 seeded).1
accept-Accepts_example = accept-Accepts in_memory same_email take_up 12 40 seeded joined accepts

accept-once_example :
    (accept in_memory same_email take_up 13 45
      (accept in_memory same_email take_up 12 40 seeded).1).0
    ≢ ok joined
accept-once_example =
    accept-once in_memory same_email take_up take_up 12 40 13 45 seeded joined joined accepts refl
