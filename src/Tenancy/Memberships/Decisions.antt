-- ===== src/Tenancy/Memberships/Decisions.antt =====
-- What a successful `updateRole` and a successful `remove` have found, and what they wrote.
use sstsaas_pv.Common.{
  ℕ, ◌==◌, ◌≡◌, refl, ap, ◌∙◌, map_if, Distinct, ◌⊎◌, inl, inr, Bool, false, none, some, List,
  Bool-cases,
}
use sstsaas_pv.Access.Catalog.{Role}
use sstsaas_pv.Access.Faults.{Fault, resource_not_found, OwnerAction, demoted, Result, ok, err}
use sstsaas_pv.Access.Grant.{Key, TenantContext, assert_actor_may_grant}
use sstsaas_pv.Tenancy.Rows.{
  Membership, issuer_removed, issuer_role_changed, role_changed, member_removed, is_live_membership,
}
use sstsaas_pv.Tenancy.Database.{
  Database, Db, lift, role_grants, record_event, with_tenant_transaction, settle,
}
use sstsaas_pv.Tenancy.Database.Steps.{
  lift-ok, or_fail-ok, refuse_if-ok, IsReader, after_reader, after_writer,
  lock_organization-IsReader, role_grants-IsReader,
}
use sstsaas_pv.Tenancy.Cascade.{RevokeIssuedInvitationsInput, revoke_issued, revoke_at, granted_by}
use sstsaas_pv.Tenancy.Cascade.Covers.{must_go, revoke_issued-rows, revoke_issued-memberships}
use sstsaas_pv.Tenancy.Memberships.{
  UpdateMembershipRoleCommand, RemoveMembershipCommand, owns, is_other_owner, loses_owner, set_role,
  mark_removed, event_of, live_membership, assert_organization_keeps_an_owner, write_role,
  write_removal, run_cascade, update_role_tx, remove_tx, update_role, remove,
}

module _ (D : Database) where
  pub live_membership-IsReader : (org mid : ℕ) → IsReader (live_membership D org mid)
  unfolding live_membership
  live_membership-IsReader org mid s a s' e = (or_fail-ok _ _ s e).1

  keeps-IsReader :
      (org mid : ℕ) (now after : Bool) (action : OwnerAction)
      → IsReader (assert_organization_keeps_an_owner D org mid now after action)
  unfolding assert_organization_keeps_an_owner
  keeps-IsReader org mid now after action s a s' e = (refuse_if-ok _ _ s e).1

  write_role-ok :
      (org mid : ℕ) (role : Role) (s : Db D) (a : Unit {0}) (s' : Db D)
      → write_role D org mid role s ≡ ok (a, s')
      → s' ≡ record s {
        memberships =
            D.memberships.update_many (is_live_membership org mid) (set_role role) s.memberships;
      }
  unfolding write_role
  write_role-ok org mid role s a s' e =
      elim (Bool-cases
        (D.memberships.updated_count (is_live_membership org mid) s.memberships == 0)) [
          | inl nothing ↦ cc (rw nothing at e)
          | inr some_row ↦ let f = rw some_row at e in cc
        ]

  write_removal-ok :
      (org mid now : ℕ) (s : Db D) (a : Unit {0}) (s' : Db D)
      → write_removal D org mid now s ≡ ok (a, s')
      → s' ≡ record s {
        memberships =
            D.memberships.update_many (is_live_membership org mid) (mark_removed now) s.memberships;
      }
  unfolding write_removal
  write_removal-ok org mid now s a s' e =
      elim (Bool-cases
        (D.memberships.updated_count (is_live_membership org mid) s.memberships == 0)) [
          | inl nothing ↦ cc (rw nothing at e)
          | inr some_row ↦ let f = rw some_row at e in cc
        ]

  -- The guards that both transactions pass: the row found, the stored permissions of the role in
  -- question, the authority over them, and the owner rule.
  pub record Admitted (ctx : TenantContext) (mid : ℕ) (role : Membership → Role)
      (after : Membership → Bool) (s : Db D) : Type 0 where
    pub m : Membership
    pub granted : List Key
    pub found :
        D.memberships.find_first (is_live_membership ctx.organization_id mid) s.memberships ≡ some m
    pub stored : role_grants D (role m) s ≡ ok (granted, s)
    pub may : assert_actor_may_grant ctx granted ≡ ok tt
    pub kept :
        loses_owner
          (D.memberships.count (is_other_owner ctx.organization_id mid) s.memberships)
          (owns m.status m.role_key)
          (after m)
        ≡ false

  live_membership-ok :
      (org mid : ℕ) (s : Db D) (m : Membership)
      → live_membership D org mid s ≡ ok (m, s)
      → D.memberships.find_first (is_live_membership org mid) s.memberships ≡ some m
  unfolding live_membership
  live_membership-ok org mid s m e = (or_fail-ok _ _ s e).0

  keeps-ok :
      (org mid : ℕ) (now after : Bool) (action : OwnerAction) (s : Db D) (a : Unit {0})
      → assert_organization_keeps_an_owner D org mid now after action s ≡ ok (a, s)
      → loses_owner (D.memberships.count (is_other_owner org mid) s.memberships) now after ≡ false
  unfolding assert_organization_keeps_an_owner
  keeps-ok org mid now after action s a e = (refuse_if-ok _ _ s e).0

  lift-IsReader : {A : Type 0} (x : Result A) → IsReader (lift {S = Db D} x)
  lift-IsReader x s a s' e = (lift-ok x s e).1

  -- What the transaction of `updateRole` has written before it runs the cascade.
  unfoldable pub before_cascade_update :
      TenantContext → ℕ → UpdateMembershipRoleCommand → Membership → Db D → Db D
  before_cascade_update ctx mid command m s = record s {
    memberships =
        D.memberships.update_many (is_live_membership ctx.organization_id mid)
          (set_role command.role_key) s.memberships;
    audit_events =
        D.audit_events.create
          (event_of ctx.organization_id command.actor_user_id
            (role_changed m.role_key command.role_key m.user_id) mid command.request)
          s.audit_events;
  }

  abbrev pub update_cascade :
      TenantContext
      → UpdateMembershipRoleCommand
      → Membership
      → List Key
      → RevokeIssuedInvitationsInput
  update_cascade ctx command m granted = record {
    organization_id = ctx.organization_id;
    issuer_user_id = m.user_id;
    actor_user_id = command.actor_user_id;
    reason = issuer_role_changed;
    retained_permissions = some granted;
    request = command.request;
  }

  abbrev pub Updates : TenantContext → ℕ → UpdateMembershipRoleCommand → ℕ → Db D → Db D → Type 0
  Updates ctx mid command now s s' =
      (a : Admitted ctx mid (λ m. command.role_key) (λ m. owns m.status command.role_key) s) × (s'
        ≡ (revoke_issued D (update_cascade ctx command a.m a.granted) now
            (before_cascade_update ctx mid command a.m s)).1)

  update_role_tx-Updates :
      (ctx : TenantContext) (mid : ℕ) (command : UpdateMembershipRoleCommand) (now : ℕ)
      (s s' : Db D) (r : Membership)
      → update_role_tx D ctx mid command now s ≡ ok (r, s')
      → Updates ctx mid command now s s'
  unfolding update_role_tx before_cascade_update run_cascade record_event
  update_role_tx-Updates ctx mid command now s s' r e =
      after_reader _ _ s (lock_organization-IsReader D ctx.organization_id) e λ _ _ e₁.
        after_reader _ _ s (live_membership-IsReader ctx.organization_id mid) e₁ λ m p e₂.
          after_reader _ _ s (role_grants-IsReader D command.role_key) e₂ λ granted q e₃.
            after_reader _ _ s (lift-IsReader (assert_actor_may_grant ctx granted)) e₃ λ _ may e₄.
              after_reader _ _ s
                (keeps-IsReader ctx.organization_id mid (owns m.status m.role_key)
                  (owns m.status command.role_key) demoted)
                e₄
                λ _ kept e₅.
                  after_writer (write_role D ctx.organization_id mid command.role_key) _ s _
                    (write_role-ok ctx.organization_id mid command.role_key s) e₅
                    λ e₆. (
                      record {
                        m = m;
                        granted = granted;
                        found = live_membership-ok ctx.organization_id mid s m p;
                        stored = q;
                        may = (lift-ok (assert_actor_may_grant ctx granted) s may).0;
                        kept =
                            keeps-ok ctx.organization_id mid (owns m.status m.role_key)
                              (owns m.status command.role_key) demoted s _ kept;
                      },
                      cc,
                    )

  pub before_cascade_removal :
      TenantContext → ℕ → RemoveMembershipCommand → ℕ → Membership → Db D → Db D
  before_cascade_removal ctx mid command removed_at m s = record s {
    memberships =
        D.memberships.update_many (is_live_membership ctx.organization_id mid)
          (mark_removed removed_at) s.memberships;
    audit_events =
        D.audit_events.create
          (event_of ctx.organization_id command.actor_user_id (member_removed m.role_key m.user_id)
            mid command.request)
          s.audit_events;
  }

  abbrev pub removal_cascade :
      TenantContext → RemoveMembershipCommand → Membership → RevokeIssuedInvitationsInput
  removal_cascade ctx command m = record {
    organization_id = ctx.organization_id;
    issuer_user_id = m.user_id;
    actor_user_id = command.actor_user_id;
    reason = issuer_removed;
    retained_permissions = none;
    request = command.request;
  }

  -- What a successful `remove` has found and written; the user comes back whose sessions end.
  abbrev pub Removes :
      TenantContext → ℕ → RemoveMembershipCommand → ℕ → ℕ → Db D → ℕ → Db D → Type 0
  Removes ctx mid command removed_at revoked_at s user s' =
      (a : Admitted ctx mid (λ m. m.role_key) (λ m. false) s) × (s'
        ≡ (revoke_issued D (removal_cascade ctx command a.m) revoked_at
            (before_cascade_removal ctx mid command removed_at a.m s)).1)
      × (user ≡ a.m.user_id)

  remove_tx-Removes :
      (ctx : TenantContext) (mid : ℕ) (command : RemoveMembershipCommand)
      (removed_at revoked_at : ℕ) (s s' : Db D) (user : ℕ)
      → remove_tx D ctx mid command removed_at revoked_at s ≡ ok (user, s')
      → Removes ctx mid command removed_at revoked_at s user s'
  unfolding remove_tx before_cascade_removal run_cascade record_event
  remove_tx-Removes ctx mid command removed_at revoked_at s s' user e =
      after_reader _ _ s (lock_organization-IsReader D ctx.organization_id) e λ _ _ e₁.
        after_reader _ _ s (live_membership-IsReader ctx.organization_id mid) e₁ λ m p e₂.
          after_reader _ _ s (role_grants-IsReader D m.role_key) e₂ λ held q e₃.
            after_reader _ _ s (lift-IsReader (assert_actor_may_grant ctx held)) e₃ λ _ may e₄.
              after_reader _ _ s
                (keeps-IsReader ctx.organization_id mid (owns m.status m.role_key) false
                  OwnerAction.removed)
                e₄
                λ _ kept e₅.
                  after_writer (write_removal D ctx.organization_id mid removed_at) _ s _
                    (write_removal-ok ctx.organization_id mid removed_at s) e₅
                    λ e₆. (
                      record {
                        m = m;
                        granted = held;
                        found = live_membership-ok ctx.organization_id mid s m p;
                        stored = q;
                        may = (lift-ok (assert_actor_may_grant ctx held) s may).0;
                        kept =
                            keeps-ok ctx.organization_id mid (owns m.status m.role_key) false
                              OwnerAction.removed s _ kept;
                      },
                      cc,
                      cc,
                    )

  -- The membership rows that a successful call leaves.
  pub Updates-rows :
      (ctx : TenantContext) (mid : ℕ) (command : UpdateMembershipRoleCommand) (now : ℕ)
      (s s' : Db D)
      → Updates ctx mid command now s s'
      → D.memberships.rows s'.memberships
        ≡ map_if
            (is_live_membership ctx.organization_id mid)
            (set_role command.role_key)
            (D.memberships.rows s.memberships)
  unfolding before_cascade_update
  Updates-rows ctx mid command now s s' (a, same) =
      ap (λ t. D.memberships.rows t.memberships) same
      ∙ ap D.memberships.rows
          (revoke_issued-memberships D (update_cascade ctx command a.m a.granted) now _)
      ∙ D.memberships.rows-update_many _ _ s.memberships

  pub Removes-rows :
      (ctx : TenantContext) (mid : ℕ) (command : RemoveMembershipCommand)
      (removed_at revoked_at : ℕ) (s : Db D) (user : ℕ) (s' : Db D)
      → Removes ctx mid command removed_at revoked_at s user s'
      → D.memberships.rows s'.memberships
        ≡ map_if
            (is_live_membership ctx.organization_id mid)
            (mark_removed removed_at)
            (D.memberships.rows s.memberships)
  unfolding before_cascade_removal
  Removes-rows ctx mid command removed_at revoked_at s user s' (a, same, _) =
      ap (λ t. D.memberships.rows t.memberships) same
      ∙ ap D.memberships.rows
          (revoke_issued-memberships D (removal_cascade ctx command a.m) revoked_at _)
      ∙ D.memberships.rows-update_many _ _ s.memberships

  -- The invitation rows that a successful call leaves, where their identifiers are unique.
  pub Updates-invitations :
      (ctx : TenantContext) (mid : ℕ) (command : UpdateMembershipRoleCommand) (now : ℕ)
      (s s' : Db D) (u : Updates ctx mid command now s s')
      → Distinct (λ i. i.id) (D.invitations.rows s.invitations)
      → D.invitations.rows s'.invitations
        ≡ map_if
            (must_go (granted_by D s) (update_cascade ctx command u.0.m u.0.granted))
            (revoke_at now)
            (D.invitations.rows s.invitations)
  unfolding before_cascade_update granted_by
  Updates-invitations ctx mid command now s s' (a, same) d =
      ap (λ t. D.invitations.rows t.invitations) same
      ∙ revoke_issued-rows D (update_cascade ctx command a.m a.granted) now
          (before_cascade_update ctx mid command a.m s) d

  pub Removes-invitations :
      (ctx : TenantContext) (mid : ℕ) (command : RemoveMembershipCommand)
      (removed_at revoked_at : ℕ) (s : Db D) (user : ℕ) (s' : Db D)
      (u : Removes ctx mid command removed_at revoked_at s user s')
      → Distinct (λ i. i.id) (D.invitations.rows s.invitations)
      → D.invitations.rows s'.invitations
        ≡ map_if
            (must_go (granted_by D s) (removal_cascade ctx command u.0.m))
            (revoke_at revoked_at)
            (D.invitations.rows s.invitations)
  unfolding before_cascade_removal granted_by
  Removes-invitations ctx mid command removed_at revoked_at s user s' (a, same, _) d =
      ap (λ t. D.invitations.rows t.invitations) same
      ∙ revoke_issued-rows D (removal_cascade ctx command a.m) revoked_at
          (before_cascade_removal ctx mid command removed_at a.m s) d

  -- A call whose path names another organisation, or whose transaction throws, changes nothing; a
  -- call that answers has passed every guard.
  pub update_role-cases :
      (ctx : TenantContext) (path mid : ℕ) (command : UpdateMembershipRoleCommand) (now : ℕ)
      (s : Db D)
      → ((f : Fault) × (update_role D ctx path mid command now s ≡ (err f, s)))
        ⊎ Updates ctx mid command now s (update_role D ctx path mid command now s).1
  unfolding update_role with_tenant_transaction
  update_role-cases ctx path mid command now s = elim (Bool-cases (path == ctx.organization_id)) [
    | inl mine ↦ rw mine (go (update_role_tx D ctx mid command now s) refl)
    | inr foreign ↦ rw foreign (inl (resource_not_found, refl))
  ]
    where
      go :
          (x : Result (Membership × Db D))
          → update_role_tx D ctx mid command now s ≡ x
          → ((f : Fault) × (settle s x ≡ (err f, s))) ⊎ Updates ctx mid command now s (settle s x).1
      go (ok (r, s')) e = inr (update_role_tx-Updates ctx mid command now s s' r e)
      go (err f) e = inl (f, refl)

  pub remove-cases :
      (ctx : TenantContext) (path mid : ℕ) (command : RemoveMembershipCommand)
      (removed_at revoked_at : ℕ) (s : Db D)
      → let r = remove D ctx path mid command removed_at revoked_at s in
        ((f : Fault) × (r ≡ (err f, s)))
        ⊎ ((user : ℕ) × (r.0 ≡ ok user) × Removes ctx mid command removed_at revoked_at s user r.1)
  unfolding remove with_tenant_transaction
  remove-cases ctx path mid command removed_at revoked_at s =
      elim (Bool-cases (path == ctx.organization_id)) [
        | inl mine ↦ rw mine (go (remove_tx D ctx mid command removed_at revoked_at s) refl)
        | inr foreign ↦ rw foreign (inl (resource_not_found, refl))
      ]
    where
      go :
          (x : Result (ℕ × Db D))
          → remove_tx D ctx mid command removed_at revoked_at s ≡ x
          → ((f : Fault) × (settle s x ≡ (err f, s)))
            ⊎ ((user : ℕ) × ((settle s x).0 ≡ ok user)
                × Removes ctx mid command removed_at revoked_at s user (settle s x).1)
      go (ok (r, s')) e =
          inr (r, refl, remove_tx-Removes ctx mid command removed_at revoked_at s s' r e)
      go (err f) e = inl (f, refl)
