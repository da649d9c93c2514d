-- ===== src/Tenancy/Memberships/Owners.antt =====
-- The last-owner rule of `assertOrganizationKeepsAnOwner`, over the rows.
use sstsaas_pv.Common.{
  ℕ, ◌<◌, ◌==◌, ◌≡◌, sym, subst, inl, inr, Bool, true, false, List, arith, count_if, map_if, find?,
  Bool-cases, Distinct, find?-Distinct, count_if-map_if, map_if-keeps_one, and_left, ==_iff, some,
  ◌∙◌,
}
use sstsaas_pv.Access.Catalog.{Role}
use sstsaas_pv.Access.Grant.{TenantContext}
use sstsaas_pv.Tenancy.Rows.{Membership, is_live_membership, is_owner}
use sstsaas_pv.Tenancy.Database.{Database, Db}
use sstsaas_pv.Tenancy.Memberships.{owns, is_other_owner, loses_owner}
use sstsaas_pv.Tenancy.Memberships.Decisions.{Admitted}

-- The test of the owner rule, when it passes and nobody else owns the organisation.
after_rule :
    (others : ℕ) (now after : Bool)
    → loses_owner others now after ≡ false
    → others ≡ 0
    → now ≡ true
    → after ≡ true
after_rule others now after kept none_else owned = ground arith

owner-owns : (org : ℕ) (m : Membership) → is_owner org m ≡ true → owns m.status m.role_key ≡ true
owner-owns org m h = ground arith

named : (org mid : ℕ) (x : Membership) → is_live_membership org mid x ≡ true → (x.id == mid) ≡ true
named org mid x h = and_left _ _ h

-- Elsewhere: a rewrite of a row of one organisation moves no owner of another.
owner_elsewhere :
    (org here mid : ℕ) (f : Membership → Membership)
    → ((x : Membership) → (f x).organization_id ≡ x.organization_id)
    → (org == here) ≡ false
    → (x : Membership) → is_live_membership here mid x ≡ true
    → is_owner org (f x) ≡ is_owner org x
owner_elsewhere org here mid f same apart x h = ground (arith, same x)

module _ (D : Database) where
  -- The organisation has an owner: a row that is active, not deleted, and has the owner role.
  abbrev pub HasOwner : ℕ → Db D → Type 0
  HasOwner org s = 0 < count_if (is_owner org) (D.memberships.rows s.memberships)

  module _ (ctx : TenantContext) (mid : ℕ) (role : Membership → Role) (after : Membership → Bool)
      (f : Membership → Membership) (s : Db D)
      (same_org : (x : Membership) → (f x).organization_id ≡ x.organization_id)
      (owns_after : (x : Membership)
        → is_owner ctx.organization_id x ≡ true
        → after x ≡ true
        → is_owner ctx.organization_id (f x) ≡ true)
      (distinct : Distinct (λ x. x.id) (D.memberships.rows s.memberships))
      (a : Admitted D ctx mid role after s) where
    pub admitted-keeps_owner :
        (org : ℕ)
        → 0 < count_if (is_owner org) (D.memberships.rows s.memberships)
        → 0
          < count_if (is_owner org) (
              map_if
                (is_live_membership ctx.organization_id mid)
                f
                (D.memberships.rows s.memberships))
    admitted-keeps_owner org h = elim (Bool-cases (org == ctx.organization_id)) [
      | inl here ↦
          let same : org ≡ ctx.organization_id = (==_iff _ _).0 here in
          subst (λ o. 0 < count_if (is_owner o) written) (sym same)
            (kept_here (subst (λ o. 0 < count_if (is_owner o) rows) same h))
      | inr elsewhere ↦
          rw
            (count_if-map_if (is_owner org) (is_live_membership ctx.organization_id mid) f
              (owner_elsewhere org ctx.organization_id mid f same_org elsewhere) rows)
            h
    ]
      where
        rows : List Membership
        rows = D.memberships.rows s.memberships

        written : List Membership
        written = map_if (is_live_membership ctx.organization_id mid) f rows

        m : Membership
        m = a.m

        found : find? (is_live_membership ctx.organization_id mid) rows ≡ some m
        found = sym (D.memberships.find_first_lem _ _) ∙ a.found

        kept :
            count_if (is_other_owner ctx.organization_id mid) rows ≡ 0
            → is_owner ctx.organization_id m ≡ true
            → is_owner ctx.organization_id (f m) ≡ true
        kept zero owned = owns_after m owned (
            after_rule _ (owns m.status m.role_key) (after m) a.kept
              (D.memberships.count_lem _ _ ∙ zero) (owner-owns ctx.organization_id m owned))

        kept_here :
            0 < count_if (is_owner ctx.organization_id) rows
            → 0 < count_if (is_owner ctx.organization_id) written
        kept_here g =
            map_if-keeps_one (is_owner ctx.organization_id) (λ x. x.id == mid)
              (is_live_membership ctx.organization_id mid) f m rows (named ctx.organization_id mid)
              (find?-Distinct (λ x. x.id) mid (is_live_membership ctx.organization_id mid) m rows
                (named ctx.organization_id mid) distinct found)
              found kept g
