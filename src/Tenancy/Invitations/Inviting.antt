-- ===== src/Tenancy/Invitations/Inviting.antt =====
-- `create` of the invitation service: who can invite whom to what, and what becomes of older
-- invitations.
use sstsaas_pv.Common.{
  ==_iff, and_left, and_right, is_none-none, ℕ, ◌==◌, ◌≡◌, refl, sym, ap, ◌∙◌, subst, count_if, inl,
  inr, Bool, true, false, not, Option, none, some, List, ◌∷◌, Bool-cases, Option-cases, arith,
  All-gone, count_if-eq-zero, find?-none-All, All, is_none, ◌&&◌, count_if-zero-All,
}
use sstsaas_pv.Common.Table.Lookup.{find_first-holds}
use sstsaas_pv.Access.Catalog.{Role, same_role, organization_manage_members, includes}
use sstsaas_pv.Access.Faults.{ok}
use sstsaas_pv.Access.Grant.{Key, TenantContext, denied, known_permissions, assert_actor_may_grant}
use sstsaas_pv.Access.Grant.Least.{Holds, assert_actor_may_grant-ok_iff}
use sstsaas_pv.Tenancy.Rows.{Membership, Invitation, RoleRow, User, is_live_membership}
use sstsaas_pv.Tenancy.Database.{
  Database, Db, pure, >>=-eq-ok, with_tenant_transaction, record_event, role_grants,
}
use sstsaas_pv.Tenancy.Database.Steps.{
  lift-ok, or_fail-ok, refuse_if-ok, IsReader, after_reader, after_writer,
  lock_organization-IsReader, role_grants-IsReader, find-IsReader, refuse-IsReader, settle-ok,
  record_event-ok,
}
use sstsaas_pv.Tenancy.Cascade.{granted_by, revoke_at}
use sstsaas_pv.Tenancy.Invitations.{
  CreateInvitationCommand, is_live_for, new_invitation, authority_of, actor_authority,
  refuse_member, assert_user_is_not_already_a_member, assert_not_already_a_member, supersede,
  insert_invitation, organization_of, issue_invitation, create_tx, create,
}

module _ (D : Database) where
  -- The actor's membership is stored and not deleted, its stored role may manage members and holds
  -- every permission of the role offered; afterwards the invitation is the one live invitation of
  -- the organisation to the address.
  pub record Creates (ctx : TenantContext) (command : CreateInvitationCommand)
      (id token_hash expires_at now : ℕ) (s : Db D) (i : Invitation) (s' : Db D) : Type 0 where
    pub actor : Membership
    pub found :
        D.memberships.find_first
          (is_live_membership ctx.organization_id ctx.membership_id)
          s.memberships
        ≡ some actor
    pub theirs :
        (actor.id ≡ ctx.membership_id)
        × (actor.organization_id ≡ ctx.organization_id)
        × (actor.deleted_at ≡ none)
    -- what the stored role grants, and the role offered as it is stored
    pub live : TenantContext
    pub by_role : live.permissions ≡ known_permissions (granted_by D s actor.role_key)
    pub manages : includes live.permissions organization_manage_members ≡ true
    pub role : RoleRow
    pub offered : D.roles.find_first (λ r. same_role r.key command.role_key) s.roles ≡ some role
    pub may : Holds live role.permissions
    -- the invitation
    pub same_id : i.id ≡ id
    pub organization : i.organization_id ≡ ctx.organization_id
    pub address : i.email ≡ command.email
    pub role_given : i.role_key ≡ command.role_key
    pub hash : i.token_hash ≡ token_hash
    pub issuer : i.invited_by_user_id ≡ command.actor_user_id
    pub expiry : i.expires_at ≡ expires_at
    pub unused : i.accepted_at ≡ none
    pub unrevoked : i.revoked_at ≡ none
    -- it is stored, and no other row is live for the address
    pub others : List Invitation
    pub stored : D.invitations.rows s'.invitations ≡ i ∷ others
    pub alone :
        All
          (λ x.
            (x.organization_id == ctx.organization_id
              && (x.email == command.email && (is_none x.accepted_at && is_none x.revoked_at)))
            ≡ false)
          others

  -- The row that the search for the caller's membership finds.
  actors_row :
      (ctx : TenantContext) (m : Membership) (s : Db D)
      → D.memberships.find_first
          (is_live_membership ctx.organization_id ctx.membership_id)
          s.memberships
        ≡ some m
      → (m.id ≡ ctx.membership_id)
        × (m.organization_id ≡ ctx.organization_id)
        × (m.deleted_at ≡ none)
  actors_row ctx m s e =
      let hit =
        find_first-holds D.memberships (is_live_membership ctx.organization_id ctx.membership_id)
          s.memberships m e in
      let rest = and_right (m.id == ctx.membership_id) _ hit in
      (
        (==_iff m.id ctx.membership_id).0 (and_left _ _ hit),
        (==_iff m.organization_id ctx.organization_id).0 (and_left _ _ rest),
        is_none-none m.deleted_at (and_right (m.organization_id == ctx.organization_id) _ rest),
      )

  authority-IsReader : (ctx : TenantContext) → IsReader (actor_authority D ctx)
  unfolding actor_authority
  authority-IsReader ctx s a s' e =
      after_reader _ _ s
        (find-IsReader
          (λ t.
            D.memberships.find_first (is_live_membership ctx.organization_id ctx.membership_id)
              t.memberships)
          (denied organization_manage_members ctx))
        e
        λ m _ e₁.
          after_reader _ _ s
            (refuse-IsReader
              (λ t. not (includes (authority_of D ctx m s).permissions organization_manage_members))
              (denied organization_manage_members (authority_of D ctx m s)))
            e₁ λ _ _ e₂. cc

  not-false : (b : Bool) → not b ≡ false → b ≡ true
  not-false true h = refl
  not-false false h = cc

  authority-ok :
      (ctx : TenantContext) (s : Db D) (live : TenantContext)
      → actor_authority D ctx s ≡ ok (live, s)
      → (m : Membership) × (D.memberships.find_first
            (is_live_membership ctx.organization_id ctx.membership_id)
            s.memberships
          ≡ some m)
        × (live ≡ authority_of D ctx m s)
        × (includes (authority_of D ctx m s).permissions organization_manage_members ≡ true)
  unfolding actor_authority
  authority-ok ctx s live e =
      after_reader _ _ s
        (find-IsReader
          (λ t.
            D.memberships.find_first (is_live_membership ctx.organization_id ctx.membership_id)
              t.memberships)
          (denied organization_manage_members ctx))
        e
        λ m p e₁.
          after_reader _ _ s
            (refuse-IsReader
              (λ t. not (includes (authority_of D ctx m s).permissions organization_manage_members))
              (denied organization_manage_members (authority_of D ctx m s)))
            e₁ λ _ q e₂. (m, (or_fail-ok _ _ s p).0, cc, not-false _ (refuse_if-ok _ _ s q).0)

  refuse_member-IsReader : (org : ℕ) (o : Option User) → IsReader (refuse_member D org o)
  unfolding refuse_member assert_user_is_not_already_a_member
  refuse_member-IsReader org none s a s' e = cc
  refuse_member-IsReader org (some user) s a s' e = (refuse_if-ok _ _ s e).1

  outsider-IsReader : (org email : ℕ) → IsReader (assert_not_already_a_member D org email)
  unfolding assert_not_already_a_member
  outsider-IsReader org email s a s' e = refuse_member-IsReader org _ s a s' e

  -- After `supersede` no live invitation to the address is left.
  superseded-none :
      (org email now : ℕ) (s : Db D) (o : Option Invitation) (t : Db D)
      → supersede D org email now s ≡ ok (o, t)
      → count_if (is_live_for org email) (D.invitations.rows t.invitations) ≡ 0
  unfolding supersede
  superseded-none org email now s o t e =
      elim (Option-cases (D.invitations.find_first (is_live_for org email) s.invitations)) [
        | inl nobody ↦
            let same : s ≡ t = cc (rw nobody at e) in
            ap (λ u. count_if (is_live_for org email) (D.invitations.rows u.invitations)) (sym same)
            ∙ count_if-eq-zero (is_live_for org email) (D.invitations.rows s.invitations) (
                find?-none-All (is_live_for org email) (D.invitations.rows s.invitations) (
                  rw (D.invitations.find_first_lem (is_live_for org email) s.invitations) at
                    nobody))
        | inr (i, hit) ↦
            let same : D.invitations.update_many (is_live_for org email) (revoke_at now)
                  s.invitations
                ≡ t.invitations =
              cc (rw hit at e) in
            ap (λ u. count_if (is_live_for org email) (D.invitations.rows u)) (sym same)
            ∙ ap (count_if (is_live_for org email)) (
                D.invitations.rows-update_many (is_live_for org email) (revoke_at now)
                  s.invitations)
            ∙ count_if-eq-zero (is_live_for org email) _ (
                All-gone (is_live_for org email) (is_live_for org email) (revoke_at now)
                  (λ x h. ground arith) (λ x h. h) (D.invitations.rows s.invitations))
      ]

  insert-ok :
      (i : Invitation) (s : Db D) (a : Unit {0}) (s' : Db D)
      → insert_invitation D i s ≡ ok (a, s')
      → s' ≡ record s { invitations = D.invitations.create i s.invitations }
  unfolding insert_invitation
  insert-ok i s a s' e = cc

  organization_of-IsReader : (org : ℕ) → IsReader (organization_of D org)
  unfolding organization_of
  organization_of-IsReader org s a s' e = (or_fail-ok _ _ s e).1

  issue-ok :
      (ctx : TenantContext) (command : CreateInvitationCommand) (id token_hash expires_at now : ℕ)
      (s : Db D) (i : Invitation) (s' : Db D)
      → issue_invitation D ctx command id token_hash expires_at now s ≡ ok (i, s')
      → (i ≡ new_invitation command ctx.organization_id id token_hash expires_at now)
        × ((others : List Invitation) × (D.invitations.rows s'.invitations
              ≡ new_invitation command ctx.organization_id id token_hash expires_at now ∷ others)
            × All (λ x. is_live_for ctx.organization_id command.email x ≡ false) others)
  unfolding issue_invitation
  issue-ok ctx command id token_hash expires_at now s i s' e =
      after_reader _ _ s (outsider-IsReader ctx.organization_id command.email) e λ _ _ e₁.
        let (o, t, p, e₂) = >>=-eq-ok (supersede D ctx.organization_id command.email now) _ s e₁ in
        let none_left = superseded-none ctx.organization_id command.email now s o t p in
        let made = new_invitation command ctx.organization_id id token_hash expires_at now in
        after_writer (insert_invitation D made) _ t _ (insert-ok made t) e₂ λ e₃.
          after_writer (record_event D _) _ _ _ (record_event-ok D _ _) e₃ λ e₄.
            after_reader _ _ _ (organization_of-IsReader ctx.organization_id) e₄ λ _ _ e₅. (
              cc,
              (
                D.invitations.rows t.invitations,
                ap (λ u. D.invitations.rows u.invitations) (left e₅)
                    ∙ D.invitations.rows-create made t.invitations,
                count_if-zero-All (is_live_for ctx.organization_id command.email) _ none_left,
              ),
            )
    where
      left : {a b : Invitation} {u v : Db D} → pure {S = Db D} a u ≡ ok (b, v) → v ≡ u
      left h = cc

  role_grants-ok :
      (key : Role) (s : Db D) (granted : List Key)
      → role_grants D key s ≡ ok (granted, s)
      → (row : RoleRow) × (D.roles.find_first (λ r. same_role r.key key) s.roles ≡ some row)
        × (granted ≡ row.permissions)
  unfolding role_grants
  role_grants-ok key s granted e =
      elim (Option-cases (D.roles.find_first (λ r. same_role r.key key) s.roles)) [
        | inl missing ↦ let f = rw missing at e in cc
        | inr (row, found) ↦ let f = rw found at e in (row, found, cc)
      ]

  create_tx-Creates :
      (ctx : TenantContext) (command : CreateInvitationCommand) (id token_hash expires_at now : ℕ)
      (s : Db D) (i : Invitation) (s' : Db D)
      → create_tx D ctx command id token_hash expires_at now s ≡ ok (i, s')
      → Creates ctx command id token_hash expires_at now s i s'
  unfolding create_tx
  create_tx-Creates ctx command id token_hash expires_at now s i s' e =
      after_reader _ _ s (lock_organization-IsReader D ctx.organization_id) e λ _ _ e₁.
        after_reader _ _ s (role_grants-IsReader D command.role_key) e₁ λ granted q e₂.
          after_reader _ _ s (authority-IsReader ctx) e₂ λ live p e₃.
            after_reader _ _ s (λ u a u' h. (lift-ok (assert_actor_may_grant live granted) u h).1)
              e₃
              λ _ may e₄.
                let (m, found, same, manages) = authority-ok ctx s live p in
                let (role, offered, grants) = role_grants-ok command.role_key s granted q in
                let (made, (others, stored, alone)) =
                  issue-ok ctx command id token_hash expires_at now s i s' e₄ in
                record {
                  actor = m;
                  found = found;
                  theirs = actors_row ctx m s found;
                  live = live;
                  by_role = ap (λ c. c.permissions) same;
                  manages =
                      subst (λ c. includes c.permissions organization_manage_members ≡ true)
                        (sym same) manages;
                  role = role;
                  offered = offered;
                  may = subst (Holds live) grants (
                      (assert_actor_may_grant-ok_iff live granted).0
                        (lift-ok (assert_actor_may_grant live granted) s may).0);
                  same_id = ap (λ x. x.id) made;
                  organization = ap (λ x. x.organization_id) made;
                  address = ap (λ x. x.email) made;
                  role_given = ap (λ x. x.role_key) made;
                  hash = ap (λ x. x.token_hash) made;
                  issuer = ap (λ x. x.invited_by_user_id) made;
                  expiry = ap (λ x. x.expires_at) made;
                  unused = ap (λ x. x.accepted_at) made;
                  unrevoked = ap (λ x. x.revoked_at) made;
                  others = others;
                  stored = stored ∙ ap (λ x. x ∷ others) (sym made);
                  alone = alone;
                }

  -- A call of `create` that answers an invitation names the organisation of the caller's context; the
  -- caller's stored membership is not deleted, and its stored role, whatever the context says, may
  -- manage members and holds every permission of the role offered; the invitation has the
  -- organisation, address, role, issuer, hash and expiry of the call and is neither accepted nor
  -- revoked; it is stored, and no other row is a live invitation of the organisation to that address,
  -- however many there were.
  pub create-Creates :
      (ctx : TenantContext) (path : ℕ) (command : CreateInvitationCommand)
      (id token_hash expires_at now : ℕ) (s : Db D) (i : Invitation)
      → (create D ctx path command id token_hash expires_at now s).0 ≡ ok i
      → ((path == ctx.organization_id) ≡ true)
        × Creates ctx command id token_hash expires_at now s i
            (create D ctx path command id token_hash expires_at now s).1
  unfolding create with_tenant_transaction
  create-Creates ctx path command id token_hash expires_at now s i e =
      elim (Bool-cases (path == ctx.organization_id)) [
        | inl mine ↦ rw mine (
          refl,
          create_tx-Creates ctx command id token_hash expires_at now s i _
              (settle-ok _ s (rw mine at e)),
        )
        | inr foreign ↦ let absurd = rw foreign at e in cc
      ]
