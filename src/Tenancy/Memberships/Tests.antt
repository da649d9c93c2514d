-- ===== src/Tenancy/Memberships/Tests.antt =====
-- The membership service on a small organisation, in memory.
use sstsaas_pv.Common.{
  ◌⊎◌, ◌&&◌, ◌==◌, is_none, find?, map_if, some, ℕ, ◌≡◌, refl, true, false, none, [], ◌∷◌, arith,
  All,
}
use sstsaas_pv.Access.Catalog.{
  Role, owner, admin, member, Permission, organization_read, organization_delete,
  organization_manage_members,
}
use sstsaas_pv.Access.Faults.{demoted, last_owner, ok, err}
use sstsaas_pv.Access.Grant.{
  known, TenantContext, denied, known_permissions, assert_actor_may_grant, missing, sort_by_rank,
  refuse_first,
}
use sstsaas_pv.Access.Grant.Least.{Names}
use sstsaas_pv.Tenancy.Rows.{
  Membership, Invitation, RoleRow, RequestContext, issuer_removed, active, is_live_membership,
}
use sstsaas_pv.Tenancy.Database.{
  Db, in_memory, with_tenant_transaction, lock_organization, role_grants, record_event,
}
use sstsaas_pv.Tenancy.Cascade.{
  RevokeIssuedInvitationsInput, revoke_at, revoke_issued, revoke_all, revoke_one, doomed,
  granted_by,
}
use sstsaas_pv.Tenancy.Cascade.Covers.{must_go, revoke_issued-rows}
use sstsaas_pv.Tenancy.Memberships.{
  UpdateMembershipRoleCommand, RemoveMembershipCommand, update_role, remove, remove_tx,
  live_membership, assert_organization_keeps_an_owner, write_removal, run_cascade, apply_removal,
}
use sstsaas_pv.Tenancy.Memberships.Owners.{HasOwner}
use sstsaas_pv.Tenancy.Memberships.Calls.{updates, removes, run, run-HasOwner}
use sstsaas_pv.Tenancy.Memberships.Outcomes.{
  DemotesLast, update_role-answers, update_role-denied, remove-leaves_nothing, issued_live,
}

abbrev quiet : RequestContext
quiet = record { ip = none; user_agent = none; request_id = none }

abbrev person : ℕ → ℕ → Role → Membership
person id user role = record {
  id = id;
  organization_id = 1;
  user_id = user;
  role_key = role;
  status = active;
  deleted_at = none;
  created_at = 5;
}

abbrev letter : ℕ → ℕ → Role → Invitation
letter id issuer role = record {
  id = id;
  organization_id = 1;
  email = 70;
  role_key = role;
  token_hash = id;
  invited_by_user_id = issuer;
  expires_at = 900;
  accepted_at = none;
  revoked_at = none;
  created_at = 6;
}

abbrev owner_row : RoleRow
owner_row = record {
  key = owner;
  permissions = known organization_manage_members ∷ known organization_delete ∷ [];
}

abbrev admin_row : RoleRow
admin_row = record { key = admin; permissions = known organization_manage_members ∷ [] }

abbrev member_row : RoleRow
member_row = record { key = member; permissions = known organization_read ∷ [] }

-- An owner, an administrator and an invitation that the administrator issued.
abbrev seeded : Db in_memory
seeded = record {
  memberships = person 11 21 owner ∷ person 12 22 admin ∷ [];
  invitations = letter 31 22 member ∷ letter 32 21 member ∷ [];
  organizations = record { id = 1; name = 8; is_active = true; require_mfa = false } ∷ [];
  users = [];
  roles = owner_row ∷ admin_row ∷ member_row ∷ [];
  audit_events = [];
}

abbrev by_owner : TenantContext
by_owner = record {
  organization_id = 1;
  membership_id = 11;
  role_key = owner;
  permissions = organization_manage_members ∷ organization_delete ∷ [];
}

abbrev by_admin : TenantContext
by_admin = record {
  organization_id = 1;
  membership_id = 12;
  role_key = admin;
  permissions = organization_manage_members ∷ [];
}

abbrev become : Role → UpdateMembershipRoleCommand
become role = record { actor_user_id = 21; role_key = role; request = quiet }

abbrev leave : RemoveMembershipCommand
leave = record { actor_user_id = 21; request = quiet }

run-HasOwner_example : HasOwner in_memory 1 (
    run in_memory
      (updates by_owner 1 11 (become admin) 50 ∷ removes by_owner 1 11 leave 60 61 ∷ [])
      seeded)
run-HasOwner_example =
    run-HasOwner in_memory
      (updates by_owner 1 11 (become admin) 50 ∷ removes by_owner 1 11 leave 60 61 ∷ []) seeded
      ((refl, tt), (tt, tt)) 1 (omega arith)

-- The change of role that succeeds, and the demotion of the only owner, by one theorem.
update_role-answers_example :
    (DemotesLast in_memory by_owner 11 seeded (person 11 21 owner) refl refl admin
      × (update_role in_memory by_owner 1 11 (become admin) 50 seeded
          ≡ (err (last_owner demoted), seeded)))
    ⊎ (¬ DemotesLast in_memory by_owner 11 seeded (person 11 21 owner) refl refl admin
        × ((s' : Db in_memory) × (update_role in_memory by_owner 1 11 (become admin) 50 seeded
              ≡ (ok (person 11 21 admin), s'))
            × (find? (is_live_membership 1 11) s'.memberships ≡ some (person 11 21 admin))
            × (s'.memberships
                ≡ map_if
                    (λ x. x.id == 11 && (x.organization_id == 1 && is_none x.deleted_at))
                    (λ x. record x { role_key = admin })
                    seeded.memberships)))
unfolding known_permissions
update_role-answers_example =
    update_role-answers in_memory by_owner 11 seeded (person 11 21 owner) refl refl (become admin)
      50 admin_row refl (refl, tt)

update_role-denied_example :
    (required : Permission) × (update_role in_memory by_admin 1 12 (become owner) 50 seeded
      ≡ (err (denied required by_admin), seeded))
    × Names by_admin owner_row.permissions required
unfolding known_permissions
update_role-denied_example =
    update_role-denied in_memory by_admin 12 seeded (person 12 22 admin) refl refl (become owner) 50
      owner_row refl (λ h. let absent : false ≡ true = h.1.0 in cc)

remove-leaves_nothing_example :
    let s' = (remove in_memory by_owner 1 12 leave 60 61 seeded).1 in
    All (λ x. is_live_membership 1 12 x ≡ false) s'.memberships
    × All (λ i. issued_live 1 22 i ≡ false) s'.invitations
unfolding remove remove_tx apply_removal live_membership assert_organization_keeps_an_owner
    write_removal run_cascade with_tenant_transaction lock_organization role_grants record_event
    revoke_issued revoke_all revoke_one doomed granted_by assert_actor_may_grant missing
    sort_by_rank refuse_first
remove-leaves_nothing_example =
    remove-leaves_nothing in_memory by_owner 1 12 seeded ((refl, tt), (tt, tt)) leave 60 61 22 _
      refl

abbrev cut : RevokeIssuedInvitationsInput
cut = record {
  organization_id = 1;
  issuer_user_id = 22;
  actor_user_id = 21;
  reason = issuer_removed;
  retained_permissions = none;
  request = quiet;
}

revoke_issued-rows_example :
    (revoke_issued in_memory cut 61 seeded).1.invitations
    ≡ map_if (must_go (granted_by in_memory seeded) cut) (revoke_at 61) seeded.invitations
revoke_issued-rows_example = revoke_issued-rows in_memory cut 61 seeded ((refl, tt), (tt, tt))
