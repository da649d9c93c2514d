-- ===== src/Tenancy/Cascade/Covers.antt =====
-- The loop of the cascade is one bulk revocation of the issuer's invitations that exceed what the
-- issuer retains.
use sstsaas_pv.Common.{
  Option, none, some, not, is_none, ℕ, ◌==◌, ◌≡◌, refl, ap, ◌∙◌, inl, inr, Bool, true, false, ◌&&◌,
  List, [], ◌∷◌, arith, All, All-map, any, filter, map_if, Bool-cases, Distinct, any-Distinct,
  any-filter, any-sort_by, map_if-congr, map_if-map_if, map_if-none, any-congr, sym,
}
use sstsaas_pv.Access.Catalog.{Role}
use sstsaas_pv.Access.Grant.{Key}
use sstsaas_pv.Tenancy.Rows.{Invitation, is_live}
use sstsaas_pv.Tenancy.Database.{Database, Db}
use sstsaas_pv.Tenancy.Cascade.{
  includes_key, RevokeIssuedInvitationsInput, is_candidate, older, exceeds, is_live_invitation,
  revoke_at, granted_by, doomed, revoke_one, revoke_all, revoke_issued,
}

-- What is retained does not hold every permission of the invitation's role; nothing retained is too
-- little for any.
abbrev pub outgrows : (Role → List Key) → Option (List Key) → Invitation → Bool
outgrows grants none i = true
outgrows grants (some retained) i = any (λ k. not (includes_key retained k)) (grants i.role_key)

-- The invitations that must go: of the organisation, issued by the member, neither accepted nor
-- revoked, and exceeding what is retained.
abbrev pub must_go : (Role → List Key) → RevokeIssuedInvitationsInput → Invitation → Bool
must_go grants input i =
    (i.organization_id == input.organization_id
      && (i.invited_by_user_id == input.issuer_user_id
          && (is_none i.accepted_at && is_none i.revoked_at)))
    && outgrows grants input.retained_permissions i

outgrows-exceeds :
    (grants : Role → List Key) (o : Option (List Key)) (i : Invitation)
    → exceeds grants o i ≡ outgrows grants o i
outgrows-exceeds grants none i = refl
outgrows-exceeds grants (some retained) i = refl

-- What the loop reaches: the live rows of the organisation with the identifier of a candidate.
abbrev reached : RevokeIssuedInvitationsInput → List Invitation → Invitation → Bool
reached input is i =
    any (λ c. i.id == c.id) is && (i.organization_id == input.organization_id && is_live i)

reached-cons_true :
    (input : RevokeIssuedInvitationsInput) (now : ℕ) (c : Invitation) (is : List Invitation)
    (x : Invitation)
    → is_live_invitation input.organization_id c.id x ≡ true
    → (reached input is (revoke_at now x) ≡ false) × (reached input (c ∷ is) x ≡ true)
reached-cons_true input now c is x h = (ground arith, ground arith)

reached-cons_false :
    (input : RevokeIssuedInvitationsInput) (c : Invitation) (is : List Invitation) (x : Invitation)
    → is_live_invitation input.organization_id c.id x ≡ false
    → reached input (c ∷ is) x ≡ reached input is x
reached-cons_false input c is x h = ground arith

regroup : (a b c : Bool) → (a && (b && c)) ≡ (c && (a && b))
regroup a b c = ground arith

absorb : (o b l e : Bool) → (((o && (b && l)) && e) && (o && l)) ≡ ((o && (b && l)) && e)
absorb o b l e = ground arith

module _ (D : Database) where
  revoke_one-rows :
      (input : RevokeIssuedInvitationsInput) (now : ℕ) (c : Invitation) (s : Db D)
      → D.invitations.rows (revoke_one D input now c s).1.invitations
        ≡ map_if
            (is_live_invitation input.organization_id c.id)
            (revoke_at now)
            (D.invitations.rows s.invitations)
  unfolding revoke_one
  revoke_one-rows input now c s =
      let mine = is_live_invitation input.organization_id c.id in
      elim (Bool-cases (D.invitations.updated_count mine s.invitations == 0)) [
        | inl none_left ↦ rw none_left (D.invitations.rows-update_many mine (revoke_at now) _)
        | inr written ↦ rw written (D.invitations.rows-update_many mine (revoke_at now) _)
      ]

  revoke_all-rows :
      (input : RevokeIssuedInvitationsInput) (now : ℕ) (is : List Invitation) (s : Db D)
      → D.invitations.rows (revoke_all D input now is s).1.invitations
        ≡ map_if (reached input is) (revoke_at now) (D.invitations.rows s.invitations)
  unfolding revoke_all
  revoke_all-rows input now [] s = sym (
      map_if-none (reached input []) (revoke_at now) (λ x. refl) (D.invitations.rows s.invitations))
  revoke_all-rows input now (c ∷ is) s =
      revoke_all-rows input now is (revoke_one D input now c s).1
      ∙ ap (map_if (reached input is) (revoke_at now)) (revoke_one-rows input now c s)
      ∙ map_if-map_if (is_live_invitation input.organization_id c.id) (reached input is)
          (reached input (c ∷ is)) (revoke_at now) (reached-cons_true input now c is)
          (reached-cons_false input c is) (D.invitations.rows s.invitations)

  -- On distinct rows the loop reaches exactly what must go.
  reached-doomed :
      (input : RevokeIssuedInvitationsInput) (s : Db D)
      → Distinct (λ i. i.id) (D.invitations.rows s.invitations)
      → All
          (λ x. reached input (doomed D input s) x ≡ must_go (granted_by D s) input x)
          (D.invitations.rows s.invitations)
  unfolding doomed
  reached-doomed input s d =
      All-map
        (λ x alone.
          one x alone
          ∙ ap (λ b. is_candidate input x && b)
              (outgrows-exceeds (granted_by D s) input.retained_permissions x))
        rows (any-Distinct (λ i. i.id) wanted rows d)
    where
      rows : List Invitation
      rows = D.invitations.rows s.invitations

      e : Invitation → Bool
      e = exceeds (granted_by D s) input.retained_permissions

      wanted : Invitation → Bool
      wanted i = is_candidate input i && e i

      found :
          (x : Invitation)
          → any (λ c. x.id == c.id) (doomed D input s) ≡ any (λ c. (x.id == c.id) && wanted c) rows
      found x =
          any-filter (λ c. x.id == c.id) e _
          ∙ ap (any (λ c. e c && (x.id == c.id)))
              (D.invitations.find_ordered_lem older (is_candidate input) s.invitations)
          ∙ any-sort_by older (λ c. e c && (x.id == c.id)) (filter (is_candidate input) rows)
          ∙ any-filter (λ c. e c && (x.id == c.id)) (is_candidate input) rows
          ∙ any-congr _ _ (λ c. regroup (is_candidate input c) (e c) (x.id == c.id)) rows

      one :
          (x : Invitation)
          → any (λ c. (x.id == c.id) && wanted c) rows ≡ wanted x
          → reached input (doomed D input s) x ≡ wanted x
      one x alone =
          ap (λ b. b && (x.organization_id == input.organization_id && is_live x)) (found x ∙ alone)
          ∙ absorb (x.organization_id == input.organization_id)
              (x.invited_by_user_id == input.issuer_user_id) (is_live x) (e x)

  -- In a table without duplicate identifiers the cascade revokes, at `now`, exactly the live
  -- invitations of the organisation that the member issued and whose role grants something that the
  -- member does not retain; it changes no other row.
  pub revoke_issued-rows :
      (input : RevokeIssuedInvitationsInput) (now : ℕ) (s : Db D)
      → Distinct (λ i. i.id) (D.invitations.rows s.invitations)
      → D.invitations.rows (revoke_issued D input now s).1.invitations
        ≡ map_if
            (must_go (granted_by D s) input)
            (λ i. record i { revoked_at = some now })
            (D.invitations.rows s.invitations)
  unfolding revoke_issued
  revoke_issued-rows input now s d =
      revoke_all-rows input now (doomed D input s) s
      ∙ map_if-congr _ _ (revoke_at now) _ (reached-doomed input s d)

  revoke_one-memberships :
      (input : RevokeIssuedInvitationsInput) (now : ℕ) (c : Invitation) (s : Db D)
      → (revoke_one D input now c s).1.memberships ≡ s.memberships
  unfolding revoke_one
  revoke_one-memberships input now c s =
      elim (Bool-cases (
        D.invitations.updated_count (is_live_invitation input.organization_id c.id) s.invitations
        == 0)) [ inl none_left ↦ rw none_left | inr written ↦ rw written ]

  revoke_all-memberships :
      (input : RevokeIssuedInvitationsInput) (now : ℕ) (is : List Invitation) (s : Db D)
      → (revoke_all D input now is s).1.memberships ≡ s.memberships
  unfolding revoke_all
  revoke_all-memberships input now [] s = refl
  revoke_all-memberships input now (c ∷ is) s =
      revoke_all-memberships input now is (revoke_one D input now c s).1
      ∙ revoke_one-memberships input now c s

  pub revoke_issued-memberships :
      (input : RevokeIssuedInvitationsInput) (now : ℕ) (s : Db D)
      → (revoke_issued D input now s).1.memberships ≡ s.memberships
  unfolding revoke_issued
  revoke_issued-memberships input now s = revoke_all-memberships input now (doomed D input s) s
