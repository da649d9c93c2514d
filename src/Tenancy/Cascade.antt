-- ===== src/Tenancy/Cascade.antt =====
-- apps/api/src/modules/invitations/invitation-revocation.cascade.ts: when a member leaves or changes
-- role, the invitations that they issued and may issue no longer are revoked.
pub mod Covers
use sstsaas_pv.Common.{
  ℕ, ◌==◌, ltb, Bool, true, not, ◌&&◌, ◌||◌, Option, none, some, List, [], ◌∷◌, ◌++◌, filter, any,
  if◌then◌else◌,
}
use sstsaas_pv.Access.Catalog.{Role, same_role}
use sstsaas_pv.Access.Grant.{Key, same_key}
use sstsaas_pv.Tenancy.Rows.{
  Invitation, RequestContext, RevocationReason, AuditEvent, invitation_revoked, is_live,
}
use sstsaas_pv.Tenancy.Database.{Database, Db}

-- `RevokeIssuedInvitationsInput`; `retained_permissions` is `null` when nothing is retained.
pub record RevokeIssuedInvitationsInput : Type 0 where
  pub organization_id : ℕ
  pub issuer_user_id : ℕ
  pub actor_user_id : ℕ
  pub reason : RevocationReason
  pub retained_permissions : Option (List Key)
  pub request : RequestContext

-- `retained.has(key)`
abbrev pub includes_key : List Key → Key → Bool
includes_key ks k = any (λ j. same_key j k) ks

-- `{ organizationId, invitedByUserId, ...LIVE_INVITATION }`
abbrev pub is_candidate : RevokeIssuedInvitationsInput → Invitation → Bool
is_candidate input i =
    i.organization_id == input.organization_id
    && (i.invited_by_user_id == input.issuer_user_id && is_live i)

-- `orderBy: [{ createdAt: 'asc' }, { id: 'asc' }]`
abbrev older : Invitation → Invitation → Bool
older i j = ltb i.created_at j.created_at || (i.created_at == j.created_at && not (ltb j.id i.id))

-- A candidate's role grants something that the issuer does not retain.
abbrev pub exceeds : (Role → List Key) → Option (List Key) → Invitation → Bool
exceeds grants none i = true
exceeds grants (some retained) i = any (λ k. not (includes_key retained k)) (grants i.role_key)

-- `{ id, organizationId, ...LIVE_INVITATION }`
abbrev pub is_live_invitation : ℕ → ℕ → Invitation → Bool
is_live_invitation org iid i = i.id == iid && (i.organization_id == org && is_live i)

abbrev pub revoke_at : ℕ → Invitation → Invitation
revoke_at now i = record i { revoked_at = some now }

abbrev revocation_event : RevokeIssuedInvitationsInput → Invitation → AuditEvent
revocation_event input i = record {
  organization_id = input.organization_id;
  actor_id = input.actor_user_id;
  action = invitation_revoked i.email i.role_key (some (input.reason, input.issuer_user_id));
  resource_id = i.id;
  request = input.request;
}

module _ (D : Database) where
  -- The keys of the `permissions` relation of the role that an invitation refers to.
  unfoldable pub granted_by : Db D → Role → List Key
  granted_by s key = elim (D.roles.find_first (λ r. same_role r.key key) s.roles) [
    | none ↦ []
    | some r ↦ r.permissions
  ]

  -- `doomed`
  unfoldable pub doomed : RevokeIssuedInvitationsInput → Db D → List Invitation
  unfolding granted_by
  doomed input s =
      filter (exceeds (granted_by s) input.retained_permissions)
        (D.invitations.find_ordered older (is_candidate input) s.invitations)

  -- One round of the loop: a row that is no longer live is passed over.
  unfoldable pub revoke_one : RevokeIssuedInvitationsInput → ℕ → Invitation → Db D → List ℕ × Db D
  revoke_one input now i s =
      let mine = is_live_invitation input.organization_id i.id in
      let written = D.invitations.update_many mine (revoke_at now) s.invitations in
      if D.invitations.updated_count mine s.invitations == 0
      then ([], record s { invitations = written })
      else (
        i.id ∷ [],
        record s {
          invitations = written;
          audit_events = D.audit_events.create (revocation_event input i) s.audit_events;
        },
      )

  -- `for (const candidate of doomed)`; the identifiers come in the order of the revocations.
  unfoldable pub revoke_all :
      RevokeIssuedInvitationsInput → ℕ → List Invitation → Db D → List ℕ × Db D
  revoke_all input now [] s = ([], s)
  revoke_all input now (i ∷ is) s =
      let (one, s') = revoke_one input now i s in
      let (rest, s'') = revoke_all input now is s' in (one ++ rest, s'')

  -- `invitationRevocationCascade`
  unfoldable pub revoke_issued : RevokeIssuedInvitationsInput → ℕ → Db D → List ℕ × Db D
  revoke_issued input now s = revoke_all input now (doomed input s) s
