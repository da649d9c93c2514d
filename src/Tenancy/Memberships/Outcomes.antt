-- ===== src/Tenancy/Memberships/Outcomes.antt =====
-- What `updateRole` and `remove` answer and write, branch by branch.
use sstsaas_pv.Common.{
  ◌⊎◌, ◌≢◌, is_none, map_if, and_left, and_right, count_if-zero-All, count_if-eq-zero, All-map, ℕ,
  ◌==◌, ◌≡◌, refl, sym, subst, ap, ◌∙◌, inl, inr, Bool, true, false, ◌&&◌, some, arith, All,
  if◌then◌else◌, found-counted, All-gone, Distinct, Bool-cases, ==_refl,
}
use sstsaas_pv.Common.Table.Lookup.{find_first-update_many, find_first-holds}
use sstsaas_pv.Access.Catalog.{Permission, Role, owner, same_role}
use sstsaas_pv.Access.Faults.{Fault, demoted, last_owner, Result, ok, err}
use sstsaas_pv.Access.Grant.{TenantContext, denied, assert_actor_may_grant}
use sstsaas_pv.Access.Grant.Least.{
  Holds, Names, assert_actor_may_grant-ok_iff, assert_actor_may_grant-Names,
}
use sstsaas_pv.Tenancy.Rows.{
  MembershipStatus, is_active, is_active-active, Membership, Invitation, RoleRow,
  is_live_membership, is_live,
}
use sstsaas_pv.Tenancy.Database.{
  Database, Db, is_empty, Tx, lift, record_event, with_tenant_transaction, settle,
  lock_organization, role_grants,
}
use sstsaas_pv.Tenancy.Cascade.{revoke_at, revoke_issued}
use sstsaas_pv.Tenancy.Cascade.Covers.{revoke_issued-memberships}
use sstsaas_pv.Tenancy.Database.Steps.{and_then, or_throw}
use sstsaas_pv.Tenancy.Memberships.{
  UpdateMembershipRoleCommand, RemoveMembershipCommand, owns, is_other_owner, loses_owner, set_role,
  mark_removed, update_role, remove, update_role_tx, apply_role, write_role, run_cascade,
  live_membership, assert_organization_keeps_an_owner,
}
use sstsaas_pv.Tenancy.Memberships.LastOwner.{
  same_role-eq, IsOwnerOf, other_owner-false, false-other_owner, loses_owner-parts,
}
use sstsaas_pv.Tenancy.Memberships.Decisions.{
  before_cascade_update, update_cascade, Removes, remove-cases, Removes-rows, Removes-invitations,
}

module _ (D : Database) (ctx : TenantContext) (mid : ℕ) (s : Db D) (m : Membership)
    (organization_exists : is_empty
        (D.organizations.find_many (λ o. o.id == ctx.organization_id) s.organizations)
      ≡ false)
    (found : D.memberships.find_first (is_live_membership ctx.organization_id mid) s.memberships
      ≡ some m) where
  -- The row found is written: the count of the write is not zero.
  written :
      (D.memberships.updated_count (is_live_membership ctx.organization_id mid) s.memberships == 0)
      ≡ false
  written =
      rw
        (D.memberships.updated_count_lem (is_live_membership ctx.organization_id mid) s.memberships)
        (found-counted (is_live_membership ctx.organization_id mid) m
          (D.memberships.rows s.memberships) (sym (D.memberships.find_first_lem _ _) ∙ found))

  -- What `updateRole` answers, in the code's own words.
  role-cases :
      (command : UpdateMembershipRoleCommand) (now : ℕ) (row : RoleRow)
      → D.roles.find_first (λ r. same_role r.key command.role_key) s.roles ≡ some row
      → Holds ctx row.permissions
      → ((loses_owner
              (D.memberships.count (is_other_owner ctx.organization_id mid) s.memberships)
              (owns m.status m.role_key)
              (owns m.status command.role_key)
            ≡ true)
          × (update_role D ctx ctx.organization_id mid command now s
              ≡ (err (last_owner demoted), s)))
        ⊎ ((loses_owner
                (D.memberships.count (is_other_owner ctx.organization_id mid) s.memberships)
                (owns m.status m.role_key)
                (owns m.status command.role_key)
              ≡ false)
            × ((s' : Db D) × (update_role D ctx ctx.organization_id mid command now s
                  ≡ (ok (set_role command.role_key m), s'))
                × (s'.memberships
                    ≡ D.memberships.update_many
                        (is_live_membership ctx.organization_id mid)
                        (set_role command.role_key)
                        s.memberships)))
  unfolding update_role with_tenant_transaction update_role_tx apply_role live_membership
      assert_organization_keeps_an_owner lock_organization role_grants write_role run_cascade
      record_event before_cascade_update
  role-cases command now row stored holds = elim (Bool-cases lost) [
    | inl loses ↦ inl (
      loses,
      rw (==_refl ctx.organization_id)
          (ap (settle s) (chain (or_throw keeps _ s (last_owner demoted) (rw loses)))),
    )
    | inr stays ↦ inr (
      stays,
      (
        (revoke_issued D (update_cascade D ctx command m row.permissions) now
            (before_cascade_update D ctx mid command m s)).1,
        rw (==_refl ctx.organization_id) (
            ap (settle s) (
              chain (
                and_then keeps _ s tt s (rw stays) (
                  and_then (write_role D ctx.organization_id mid command.role_key) _ s tt _ wrote
                    refl)))),
        revoke_issued-memberships D (update_cascade D ctx command m row.permissions) now _,
      ),
    )
  ]
    where
      others : ℕ
      others = D.memberships.count (is_other_owner ctx.organization_id mid) s.memberships

      lost : Bool
      lost = loses_owner others (owns m.status m.role_key) (owns m.status command.role_key)

      keeps : Tx D (Unit {0})
      keeps =
          assert_organization_keeps_an_owner D ctx.organization_id mid (owns m.status m.role_key)
            (owns m.status command.role_key) demoted

      wrote :
          write_role D ctx.organization_id mid command.role_key s
          ≡ ok (
            tt,
            record s {
              memberships =
                  D.memberships.update_many
                    (is_live_membership ctx.organization_id mid)
                    (set_role command.role_key)
                    s.memberships;
            },
          )
      wrote = rw written

      may : assert_actor_may_grant ctx row.permissions ≡ ok tt
      may = (assert_actor_may_grant-ok_iff ctx row.permissions).1 holds

      chain :
          {r : Result (Membership × Db D)}
          → apply_role D ctx mid command now m row.permissions s ≡ r
          → update_role_tx D ctx mid command now s ≡ r
      chain rest =
          and_then (lock_organization D ctx.organization_id) _ s tt s (rw organization_exists) (
            and_then (live_membership D ctx.organization_id mid) _ s m s (rw found) (
              and_then (role_grants D command.role_key) _ s row.permissions s (rw stored) (
                and_then (lift (assert_actor_may_grant ctx row.permissions)) _ s tt s (rw may)
                  rest)))

  -- The membership is an owner's, the role offered is another, and no other membership is an owner's.
  abbrev pub DemotesLast : Role → Type 0
  DemotesLast role =
      ((m.status ≡ MembershipStatus.active) × (m.role_key ≡ owner))
      × (role ≢ owner)
      × All (λ x. ¬ (IsOwnerOf ctx.organization_id x × (x.id ≢ mid)))
          (D.memberships.rows s.memberships)

  others_of : ℕ
  others_of = D.memberships.count (is_other_owner ctx.organization_id mid) s.memberships

  loses-DemotesLast :
      (role : Role)
      → loses_owner others_of (owns m.status m.role_key) (owns m.status role) ≡ true
      → DemotesLast role
  unfolding others_of
  loses-DemotesLast role h =
      let (alone, owned, lost) = loses_owner-parts _ _ _ h in
      (
        (
          is_active-active m.status (and_left _ _ owned),
          same_role-eq m.role_key owner (and_right (is_active m.status) _ owned),
        ),
        λ same.
            let still : owns m.status role ≡ true =
              ap (owns m.status) same
              ∙ rw (and_left (is_active m.status) (same_role m.role_key owner) owned) refl in
            let never : true ≡ false = sym still ∙ lost in cc,
        All-map (λ x miss. other_owner-false ctx.organization_id mid x miss)
            (D.memberships.rows s.memberships)
            (count_if-zero-All (is_other_owner ctx.organization_id mid)
              (D.memberships.rows s.memberships)
              (sym (D.memberships.count_lem (is_other_owner ctx.organization_id mid) s.memberships)
                ∙ alone)),
      )

  DemotesLast-loses :
      (role : Role)
      → DemotesLast role
      → loses_owner others_of (owns m.status m.role_key) (owns m.status role) ≡ true
  unfolding others_of
  DemotesLast-loses role ((on, owned), other, alone) =
      let none_left : others_of ≡ 0 =
        D.memberships.count_lem (is_other_owner ctx.organization_id mid) s.memberships
        ∙ count_if-eq-zero (is_other_owner ctx.organization_id mid)
            (D.memberships.rows s.memberships)
            (All-map (λ x h. false-other_owner ctx.organization_id mid x h)
              (D.memberships.rows s.memberships) alone) in
      let not_owner : same_role role owner ≡ false = elim (Bool-cases (same_role role owner)) [
        | inl same ↦ absurd (other (same_role-eq role owner same))
        | inr apart ↦ apart
      ] in
      rw (none_left, on, owned, not_owner) refl

  -- Where the organisation and the membership are found, the role is stored and the actor holds
  -- every permission of it: `updateRole` is refused, and writes nothing, where the membership is an
  -- owner's, the role another, and no other membership of the organisation is active, not deleted and
  -- an owner's; in every other case it answers the membership with its new role, the search for it
  -- then finds it so, and no other row is written but those of that identifier that are not deleted.
  pub update_role-answers :
      (command : UpdateMembershipRoleCommand) (now : ℕ) (row : RoleRow)
      → D.roles.find_first (λ r. same_role r.key command.role_key) s.roles ≡ some row
      → Holds ctx row.permissions
      → (DemotesLast command.role_key
          × (update_role D ctx ctx.organization_id mid command now s
              ≡ (err (last_owner demoted), s)))
        ⊎ (¬ DemotesLast command.role_key
            × ((s' : Db D) × (update_role D ctx ctx.organization_id mid command now s
                  ≡ (ok (record m { role_key = command.role_key }), s'))
                × (D.memberships.find_first
                      (is_live_membership ctx.organization_id mid)
                      s'.memberships
                    ≡ some (record m { role_key = command.role_key }))
                × (D.memberships.rows s'.memberships
                    ≡ map_if
                        (λ x.
                          x.id == mid
                          && (x.organization_id == ctx.organization_id && is_none x.deleted_at))
                        (λ x. record x { role_key = command.role_key })
                        (D.memberships.rows s.memberships))))
  unfolding others_of
  update_role-answers command now row stored holds =
      elim (role-cases command now row stored holds) [
        | inl (loses, refused) ↦ inl (loses-DemotesLast command.role_key loses, refused)
        | inr (stays, (s', answer, rows)) ↦ inr (
          λ d. let never : true ≡ false = sym (DemotesLast-loses command.role_key d) ∙ stays in cc,
          (
            s',
            answer,
            ap (D.memberships.find_first (is_live_membership ctx.organization_id mid)) rows
                ∙ find_first-update_many D.memberships (is_live_membership ctx.organization_id mid)
                    (is_live_membership ctx.organization_id mid) (set_role command.role_key)
                    s.memberships m (λ x. refl) found
                ∙ ap (λ b. some (if b then set_role command.role_key m else m))
                    (find_first-holds D.memberships (is_live_membership ctx.organization_id mid)
                      s.memberships m found),
            ap D.memberships.rows rows
                ∙ D.memberships.rows-update_many (is_live_membership ctx.organization_id mid)
                    (set_role command.role_key) s.memberships,
          ),
        )
      ]

  -- Where the organisation and the membership are found and the role is stored, an actor who lacks a
  -- permission of the role is refused by `updateRole` for such a permission, the first in the
  -- catalogue, and nothing is written.
  pub update_role-denied :
      (command : UpdateMembershipRoleCommand) (now : ℕ) (row : RoleRow)
      → D.roles.find_first (λ r. same_role r.key command.role_key) s.roles ≡ some row
      → ¬ Holds ctx row.permissions
      → (required : Permission) × (update_role D ctx ctx.organization_id mid command now s
          ≡ (err (denied required ctx), s))
        × Names ctx row.permissions required
  unfolding update_role with_tenant_transaction update_role_tx live_membership lock_organization
      role_grants
  update_role-denied command now row stored lacks =
      go (assert_actor_may_grant ctx row.permissions) refl
    where
      refused :
          (f : Fault)
          → assert_actor_may_grant ctx row.permissions ≡ err f
          → update_role_tx D ctx mid command now s ≡ err f
      refused f e =
          and_then (lock_organization D ctx.organization_id) _ s tt s (rw organization_exists) (
            and_then (live_membership D ctx.organization_id mid) _ s m s (rw found) (
              and_then (role_grants D command.role_key) _ s row.permissions s (rw stored)
                (or_throw (lift (assert_actor_may_grant ctx row.permissions)) _ s f (rw e))))

      go :
          (x : Result (Unit {0}))
          → assert_actor_may_grant ctx row.permissions ≡ x
          → (required : Permission) × (update_role D ctx ctx.organization_id mid command now s
              ≡ (err (denied required ctx), s))
            × Names ctx row.permissions required
      go (ok tt) e = absurd (lacks ((assert_actor_may_grant-ok_iff ctx row.permissions).0 e))
      go (err f) e =
          let (required, same, names) = assert_actor_may_grant-Names ctx row.permissions f e in
          (
            required,
            rw (==_refl ctx.organization_id) (ap (settle s) (refused f e ∙ ap err same)),
            names,
          )

-- A live invitation of an organisation that a user issued.
abbrev pub issued_live : ℕ → ℕ → Invitation → Bool
issued_live org user i = i.organization_id == org && (i.invited_by_user_id == user && is_live i)

removed-not-live :
    (org mid now : ℕ) (x : Membership) → is_live_membership org mid (mark_removed now x) ≡ false
removed-not-live org mid now x = ground arith

revoked-not-live :
    (org user now : ℕ) (x : Invitation) → issued_live org user (revoke_at now x) ≡ false
revoked-not-live org user now x = ground arith

spared : (b : Bool) → (b && true) ≡ false → b ≡ false
spared b h = ground arith

module _ (D : Database) (ctx : TenantContext) (path mid : ℕ) (s : Db D)
    (distinct : Distinct (λ i. i.id) (D.invitations.rows s.invitations)) where
  -- Where invitation identifiers are unique, a removal that succeeds leaves no live row of the
  -- membership and no live invitation of the organisation that the removed user issued.
  pub remove-leaves_nothing :
      (command : RemoveMembershipCommand) (removed_at revoked_at : ℕ) (user : ℕ) (s' : Db D)
      → remove D ctx path mid command removed_at revoked_at s ≡ (ok user, s')
      → All
          (λ x. is_live_membership ctx.organization_id mid x ≡ false)
          (D.memberships.rows s'.memberships)
        × All
            (λ i. issued_live ctx.organization_id user i ≡ false)
            (D.invitations.rows s'.invitations)
  remove-leaves_nothing command removed_at revoked_at user s' e =
      elim (remove-cases D ctx path mid command removed_at revoked_at s) [
        | inl (f, refused) ↦ cc
        | inr (u, answer, done) ↦ go u (cc) (subst (Removed u) (ap (λ r. r.1) e) done)
      ]
    where
      Removed : ℕ → Db D → Type 0
      Removed u = Removes D ctx mid command removed_at revoked_at s u

      go :
          (u : ℕ)
          → u ≡ user
          → Removes D ctx mid command removed_at revoked_at s u s'
          → All
              (λ x. is_live_membership ctx.organization_id mid x ≡ false)
              (D.memberships.rows s'.memberships)
            × All
                (λ i. issued_live ctx.organization_id user i ≡ false)
                (D.invitations.rows s'.invitations)
      go u same done = (
        rw (Removes-rows D ctx mid command removed_at revoked_at s u s' done) (
            All-gone _ _ (mark_removed removed_at)
              (λ x h. removed-not-live ctx.organization_id mid removed_at x) (λ x h. h) _),
        rw
            (
              ← same,
              done.2,
              Removes-invitations D ctx mid command removed_at revoked_at s u s' done distinct,
            )
            (All-gone _ _ (revoke_at revoked_at)
              (λ x h. revoked-not-live ctx.organization_id done.0.m.user_id revoked_at x)
              (λ x h. spared _ h) _),
      )
