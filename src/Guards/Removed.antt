-- ===== src/Guards/Removed.antt =====
-- Requests of a member who was removed from the organisation: the membership service beside the guards.
use sstsaas_pv.Common.{
  ℕ, ◌≤◌, ◌==◌, ◌≡◌, refl, sym, ap, ◌∙◌, subst, inl, inr, Bool, true, false, not, ◌&&◌, none, some,
  List, All, All-rewritten, count_if, count_if-full, find?, find?-none, find?-refine, found-counted,
  find?-holds, and_right, ==_iff, arith, map_if,
}
use sstsaas_pv.Access.Catalog.{Permission}
use sstsaas_pv.Access.Faults.{ok, err, resource_not_found}
use sstsaas_pv.Access.Grant.{TenantContext}
use sstsaas_pv.Sessions.Rows.{ResolvedSession, resolved, SessionPolicy, is_pending}
use sstsaas_pv.Sessions.Service.{resolve}
use sstsaas_pv.Tenancy.Rows.{Membership, is_live_membership}
use sstsaas_pv.Tenancy.Database.{Database, Db}
use sstsaas_pv.Tenancy.Memberships.{RemoveMembershipCommand, mark_removed, remove}
use sstsaas_pv.Tenancy.Memberships.Decisions.{Removes, Removes-rows, remove-cases}
use sstsaas_pv.Identity.Store.{IdentityDatabase, Accounts}
use sstsaas_pv.Guards.Resolving.{
  is_membership_of, resolve_tenant, resolve_member, tenant_resolver, not_a_member,
}
use sstsaas_pv.Guards.Pipeline.{
  permission, is_public, Principal, Seen, Route, Request, authenticate, identity_of, admit_session,
  tenant_guard, settle_tenant, later_guards, run_guards,
}

-- Of the rows, the only membership of the user is the one removed, so none is left.
removed-All :
    (org user mid now : ℕ) (m : Membership) (xs : List Membership)
    → find? (is_live_membership org mid) xs ≡ some m
    → m.user_id ≡ user
    → count_if (is_membership_of org user) xs ≤ 1
    → All
        (λ x. is_membership_of org user x ≡ false)
        (map_if (is_live_membership org mid) (mark_removed now) xs)
removed-All org user mid now m xs found same one =
    All-rewritten
      {P = λ x.
        is_membership_of org user x
          && not (is_live_membership org mid x && is_membership_of org user x)
        ≡ false}
      {Q = λ x. is_membership_of org user x ≡ false} (is_live_membership org mid) (mark_removed now)
      (λ x hit. gone (x.organization_id == org) (x.user_id == user))
      (λ x miss h. other (is_membership_of org user x) (is_live_membership org mid x) miss h) xs
      (count_if-full (λ x. is_live_membership org mid x && is_membership_of org user x)
        (is_membership_of org user)
        (λ x h. and_right (is_live_membership org mid x) (is_membership_of org user x) h) xs
        (at_least one (
          found-counted (λ x. is_live_membership org mid x && is_membership_of org user x) m xs
            (find?-refine (is_live_membership org mid) (is_membership_of org user) xs m found (
              mine (find?-holds (is_live_membership org mid) xs m found)
                ((==_iff m.user_id user).1 same))))))
  where
    gone : (a b : Bool) → a && (b && false) ≡ false
    gone a b = ground arith

    other : (a b : Bool) → b ≡ false → a && not (b && a) ≡ false → a ≡ false
    other a b miss h = ground arith

    at_least : {c n : ℕ} → c ≤ 1 → (n == 0) ≡ false → c ≤ n
    at_least f g = ground (arith, f, g)

    mine :
        is_live_membership org mid m ≡ true
        → (m.user_id == user) ≡ true
        → is_membership_of org user m ≡ true
    mine live owner = ground (arith, live, owner)

module _ (D : Database) where
  -- After a removal the organisation's resolver finds no membership of the user.
  remove-no_membership :
      (ctx : TenantContext) (path mid : ℕ) (command : RemoveMembershipCommand)
      (removed_at revoked_at : ℕ) (db db' : Db D) (user : ℕ)
      → remove D ctx path mid command removed_at revoked_at db ≡ (ok user, db')
      → count_if (is_membership_of ctx.organization_id user) (D.memberships.rows db.memberships) ≤ 1
      → D.memberships.find_first (is_membership_of ctx.organization_id user) db'.memberships ≡ none
  remove-no_membership ctx path mid command removed_at revoked_at db db' user e one =
      elim (remove-cases D ctx path mid command removed_at revoked_at db) [
        | inl (f, refused) ↦ cc
        | inr (u, answer, done) ↦ left u (cc) (subst (Removed u) (ap (λ r. r.1) e) done)
      ]
    where
      Removed : ℕ → Db D → Type 0
      Removed u = Removes D ctx mid command removed_at revoked_at db u

      left :
          (u : ℕ)
          → u ≡ user
          → Removes D ctx mid command removed_at revoked_at db u db'
          → D.memberships.find_first (is_membership_of ctx.organization_id user) db'.memberships
            ≡ none
      left u same done =
          rw
            (
              D.memberships.find_first_lem (is_membership_of ctx.organization_id user)
                  db'.memberships,
              Removes-rows D ctx mid command removed_at revoked_at db u db' done,
            )
            (find?-none (is_membership_of ctx.organization_id user) _ (
              removed-All ctx.organization_id user mid removed_at done.0.m
                (D.memberships.rows db.memberships)
                (rw
                  (D.memberships.find_first_lem (is_live_membership ctx.organization_id mid)
                    db.memberships)
                  at done.0.found)
                (sym done.2 ∙ same) one))

  module _ (I : IdentityDatabase) (policy : SessionPolicy) (hash : ℕ → ℕ) (matches : ℕ → ℕ → Bool)
      (web_origin : ℕ) where
    not_a_member-refused :
        (route : Route) (p : Permission) (seen : Seen)
        → route.access ≡ some (permission p)
        → settle_tenant route seen not_a_member ≡ err resource_not_found
    unfolding settle_tenant
    not_a_member-refused route p seen access = rw access refl

    tenant_guard-refused :
        (route : Route) (p : Permission) (seen : Seen) (principal : Principal) (org : ℕ) (db : Db D)
        → route.access ≡ some (permission p)
        → seen.principal ≡ some principal
        → seen.active_organization_id ≡ some org
        → D.memberships.find_first (is_membership_of org principal.user_id) db.memberships ≡ none
        → tenant_guard D I policy hash matches web_origin route seen db ≡ err resource_not_found
    unfolding tenant_guard resolve_tenant resolve_member tenant_resolver
    tenant_guard-refused route p seen principal org db access known chosen missing =
        let closed : is_public route.access ≡ false = rw access refl in
        rw (closed, known, chosen, missing) (not_a_member-refused route p seen access)

    later_guards-refused :
        (route : Route) (request : Request) (seen : Seen) (db : Db D) (s : Accounts I)
        → tenant_guard D I policy hash matches web_origin route seen db ≡ err resource_not_found
        → later_guards D I policy hash matches web_origin route request seen db s
          ≡ err resource_not_found
    unfolding later_guards
    later_guards-refused route request seen db s e = rw e refl

    no_tenant :
        (route : Route) (p : Permission) (request : Request) (token now org : ℕ) (db : Db D)
        (s : Accounts I) (session : ResolvedSession)
        → route.access ≡ some (permission p)
        → request.session_cookie ≡ some token
        → (resolve I.sessions I.redis policy (hash token) now s.sessions).0 ≡ resolved session
        → (is_pending session.status && not route.allow_pending_mfa) ≡ false
        → session.active_organization_id ≡ some org
        → D.memberships.find_first (is_membership_of org session.user_id) db.memberships ≡ none
        → (run_guards D I policy hash matches web_origin route request now db s).0
          ≡ err resource_not_found
    unfolding run_guards authenticate identity_of admit_session
    no_tenant route p request token now org db s session access cookie live complete chosen
          missing =
        let closed : is_public route.access ≡ false = rw access refl in
        let principal : Principal = record { user_id = session.user_id; session_id = session.id } in
        rw (closed, cookie, live, complete)
          (later_guards-refused route _ _ db _
            (tenant_guard-refused route p _ principal org db access refl chosen missing))

    -- Where a user has at most one membership of an organisation that is not deleted: after a
    -- removal of it that succeeds, a request of the user's in that organisation, with a session that
    -- still resolves and owes no second factor, to a handler that declares a permission, is refused
    -- as if there were nothing there.
    pub remove-run_guards :
        (ctx : TenantContext) (path mid : ℕ) (command : RemoveMembershipCommand)
        (removed_at revoked_at : ℕ) (db db' : Db D) (user : ℕ) (route : Route) (p : Permission)
        (request : Request) (token now : ℕ) (s : Accounts I) (session : ResolvedSession)
        → count_if (is_membership_of ctx.organization_id user) (D.memberships.rows db.memberships)
          ≤ 1
        → remove D ctx path mid command removed_at revoked_at db ≡ (ok user, db')
        → route.access ≡ some (permission p)
        → request.session_cookie ≡ some token
        → (resolve I.sessions I.redis policy (hash token) now s.sessions).0 ≡ resolved session
        → (is_pending session.status && not route.allow_pending_mfa) ≡ false
        → session.active_organization_id ≡ some ctx.organization_id
        → session.user_id ≡ user
        → (run_guards D I policy hash matches web_origin route request now db' s).0
          ≡ err resource_not_found
    remove-run_guards ctx path mid command removed_at revoked_at db db' user route p request token
          now s session one e access cookie live complete chosen mine =
        no_tenant route p request token now ctx.organization_id db' s session access cookie live
          complete chosen
          (subst
            (λ n.
              D.memberships.find_first (is_membership_of ctx.organization_id n) db'.memberships
              ≡ none)
            (sym mine)
            (remove-no_membership ctx path mid command removed_at revoked_at db db' user e one))
