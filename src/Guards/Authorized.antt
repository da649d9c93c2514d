-- ===== src/Guards/Authorized.antt =====
-- A request that the guards let through to a handler that declares a permission.
use mathlib.Core.Option
use sstsaas_pv.Common.{
  is_none-none, and_left, and_right, ==_iff, ◌==◌, ℕ, ◌≡◌, refl, inl, inr, ◌⊎◌, subst, sym, ap, ◌∙◌,
  Bool, true, false, not, ◌&&◌, Option, none, some, Bool-cases, Option-cases,
}
use sstsaas_pv.Common.Table.Lookup.{find_first-holds}
use sstsaas_pv.Access.Catalog.{Permission, includes}
use sstsaas_pv.Access.Faults.{Result, ok, err, ◌>>=◌}
use sstsaas_pv.Access.Grant.{TenantContext, known_permissions}
use sstsaas_pv.Sessions.Rows.{
  ResolvedSession, SessionResolution, resolved, unknown, expired, revoked, SessionPolicy,
  is_pending,
}
use sstsaas_pv.Sessions.Service.{resolve}
use sstsaas_pv.Tenancy.Rows.{MembershipStatus, is_active-active, Membership, is_active}
use sstsaas_pv.Tenancy.Database.{Database, Db}
use sstsaas_pv.Identity.Store.{IdentityDatabase, Accounts}
use sstsaas_pv.Identity.Login.{has_confirmed_factor}
use sstsaas_pv.Guards.Resolving.{
  MembershipFacts, TenantResolution, resolved as in_tenant, no_active_organization, not_a_member,
  organization_is_suspended, resolve_member, resolve_tenant, require_mfa_allows, is_membership_of,
  granted_keys, facts_of, find_organization, holds_organization, tenant_resolver,
  mfa_enrolment_policy,
}
use sstsaas_pv.Guards.Pipeline.{
  Principal, permission, Route, Request, Seen, identity_of, admit_session, csrf_guard, authorize,
  settle_tenant, authenticate, tenant_guard, cross_site_guard, email_guard, enrolment_guard,
  later_guards, run_guards,
}

bind-ok :
    {A B : Type 0} (x : Result A) (f : A → Result B) {b : B}
    → (x >>= f) ≡ ok b
    → (a : A) × (x ≡ ok a) × (f a ≡ ok b)
bind-ok (ok a) f e = (a, refl, e)
bind-ok (err g) f e = cc

-- The token is that of a session which resolved, its second factor given unless the handler takes
-- pending sessions; the user's membership of the session's organisation is stored, not deleted and
-- active, the organisation is active, and the role stored grants the permission.
pub record IsAuthorized (D : Database) (I : IdentityDatabase) (policy : SessionPolicy)
    (hash : ℕ → ℕ) (matches : ℕ → ℕ → Bool) (p : Permission) (route : Route) (request : Request)
    (now : ℕ) (db : Db D) (s : Accounts I) (seen : Seen) (s' : Accounts I) : Type 0 where
  pub token : ℕ
  pub cookie : request.session_cookie ≡ some token
  pub session : ResolvedSession
  pub live : (resolve I.sessions I.redis policy (hash token) now s.sessions).0 ≡ resolved session
  pub complete : (is_pending session.status && not route.allow_pending_mfa) ≡ false
  pub org : ℕ
  pub chosen : session.active_organization_id ≡ some org
  pub m : Membership
  pub member :
      D.memberships.find_first (is_membership_of org session.user_id) db.memberships ≡ some m
  pub theirs : (m.organization_id ≡ org) × (m.user_id ≡ session.user_id) × (m.deleted_at ≡ none)
  pub engaged : m.status ≡ MembershipStatus.active
  pub running : holds_organization D (λ o. o.is_active) (find_organization D org db) ≡ true
  pub granted : includes (known_permissions (granted_keys D m.role_key db)) p ≡ true
  pub tenant :
      seen.tenant
      ≡ some (record {
        organization_id = org;
        membership_id = m.id;
        role_key = m.role_key;
        permissions = known_permissions (granted_keys D m.role_key db);
      })
  -- a second factor where the organisation asks for one
  pub enrolled :
      require_mfa_allows
        (holds_organization D (λ o. o.require_mfa) (find_organization D org db))
        (has_confirmed_factor I session.user_id s')
        route.allow_without_mfa_enrolment
      ≡ true
  -- no forgery
  pub own :
      (request.method_is_safe ≡ true)
      ⊎ ((request.from_cross_site ≡ false)
          × ((presented : ℕ) × (request.csrf_header ≡ some presented)
              × (matches presented token ≡ true)))

-- The row that the search for a membership finds.
members_row :
    (D : Database) (org user : ℕ) (m : Membership) (db : Db D)
    → D.memberships.find_first (is_membership_of org user) db.memberships ≡ some m
    → (m.organization_id ≡ org) × (m.user_id ≡ user) × (m.deleted_at ≡ none)
members_row D org user m db e =
    let hit = find_first-holds D.memberships (is_membership_of org user) db.memberships m e in
    let rest = and_right (m.organization_id == org) _ hit in
    (
      (==_iff m.organization_id org).0 (and_left _ _ hit),
      (==_iff m.user_id user).0 (and_left _ _ rest),
      is_none-none m.deleted_at (and_right (m.user_id == user) _ rest),
    )

resolve_member-in_tenant :
    (org : ℕ) (o : Option MembershipFacts) (up : Bool) (context : TenantContext)
    → resolve_member org o up ≡ in_tenant context
    → (m : MembershipFacts) × (o ≡ some m)
      × (m.is_active ≡ true)
      × (up ≡ true)
      × (context ≡ record {
        organization_id = org;
        membership_id = m.id;
        role_key = m.role_key;
        permissions = m.permissions;
      })
unfolding resolve_member
resolve_member-in_tenant org none up context e = cc
resolve_member-in_tenant org (some m) up context e = elim (Bool-cases m.is_active) [
  | inr off ↦ let f = rw off at e in cc
  | inl on ↦ elim (Bool-cases up) [
    | inr down ↦ let f = rw (on, down) at e in cc
    | inl runs ↦ let f = rw (on, runs) at e in (m, refl, on, runs, cc)
  ]
]

settle_tenant-in_tenant :
    (route : Route) (p : Permission) (seen found : Seen) (r : TenantResolution)
    → route.access ≡ some (permission p)
    → settle_tenant route seen r ≡ ok found
    → (context : TenantContext) × (r ≡ in_tenant context)
      × (found ≡ record seen { tenant = some context })
unfolding settle_tenant
settle_tenant-in_tenant route p seen found (in_tenant context) access e = (context, refl, cc)
settle_tenant-in_tenant route p seen found no_active_organization access e =
    let f = rw access at e in cc
settle_tenant-in_tenant route p seen found not_a_member access e = let f = rw access at e in cc
settle_tenant-in_tenant route p seen found organization_is_suspended access e =
    let f = rw access at e in cc

authorize-permission :
    (p : Permission) (context : TenantContext)
    → authorize (some (permission p)) (some context) ≡ ok tt
    → includes context.permissions p ≡ true
unfolding authorize
authorize-permission p context e = elim (Bool-cases (includes context.permissions p)) [
  | inl held ↦ held
  | inr lacking ↦ let f = rw lacking at e in cc
]

csrf_guard-own :
    (matches : ℕ → ℕ → Bool) (route : Route) (request : Request) (p : Permission) (token : ℕ)
    → route.access ≡ some (permission p)
    → request.session_cookie ≡ some token
    → csrf_guard matches route request ≡ ok tt
    → (request.method_is_safe ≡ true)
      ⊎ ((request.from_cross_site ≡ false)
          × ((presented : ℕ) × (request.csrf_header ≡ some presented)
              × (matches presented token ≡ true)))
unfolding csrf_guard
csrf_guard-own matches route request p token access cookie e =
    elim (Bool-cases request.method_is_safe) [
      | inl safe ↦ inl safe
      | inr unsafe ↦ elim (Bool-cases request.from_cross_site) [
        | inl foreign ↦ let f = rw (access, unsafe, cookie, foreign) at e in cc
        | inr near ↦ elim (Option-cases request.csrf_header) [
          | inl missing ↦ let f = rw (access, unsafe, cookie, near, missing) at e in cc
          | inr (presented, shown) ↦ elim (Bool-cases (matches presented token)) [
            | inl good ↦ inr (near, (presented, shown, good))
            | inr bad ↦ let f = rw (access, unsafe, cookie, near, shown, bad) at e in cc
          ]
        ]
      ]
    ]

module _ (D : Database) (I : IdentityDatabase) (policy : SessionPolicy) (hash : ℕ → ℕ)
    (matches : ℕ → ℕ → Bool) (web_origin : ℕ) where
  -- What `TenantContextGuard` finds before a handler that declares a permission.
  pub record InTenant (db : Db D) (user : ℕ) (organization : Option ℕ) (seen found : Seen)
      : Type 0 where
    pub org : ℕ
    pub chosen : organization ≡ some org
    pub m : Membership
    pub member : D.memberships.find_first (is_membership_of org user) db.memberships ≡ some m
    pub engaged : is_active m.status ≡ true
    pub running : holds_organization D (λ o. o.is_active) (find_organization D org db) ≡ true
    pub kept : found ≡ record seen {
      tenant = some (record {
        organization_id = org;
        membership_id = m.id;
        role_key = m.role_key;
        permissions = known_permissions (granted_keys D m.role_key db);
      });
    }

  facts-member :
      (o : Option Membership) (db : Db D) (f : MembershipFacts)
      → Option.map (λ m. facts_of D m db) o ≡ some f
      → (m : Membership) × (o ≡ some m) × (f ≡ facts_of D m db)
  facts-member none db f e = cc
  facts-member (some m) db f e = (m, refl, cc)

  resolved-InTenant :
      (db : Db D) (user org : ℕ) (seen found : Seen) (context : TenantContext)
      → resolve_tenant (tenant_resolver D user org db) ≡ in_tenant context
      → found ≡ record seen { tenant = some context }
      → InTenant db user (some org) seen found
  unfolding resolve_tenant tenant_resolver facts_of
  resolved-InTenant db user org seen found context e state =
      let (f, mapped, on, runs, shape) = resolve_member-in_tenant org _ _ context e in
      let (m, member, facts) =
        facts-member (D.memberships.find_first (is_membership_of org user) db.memberships) db f
          mapped in
      record {
        org = org;
        chosen = refl;
        m = m;
        member = member;
        engaged = rw facts at on;
        running = runs;
        kept = state ∙ ap (λ c. record seen { tenant = some c }) (rw facts at shape);
      }

  tenant_guard-InTenant :
      (route : Route) (p : Permission) (seen found : Seen) (principal : Principal) (db : Db D)
      → route.access ≡ some (permission p)
      → seen.principal ≡ some principal
      → tenant_guard D I policy hash matches web_origin route seen db ≡ ok found
      → InTenant db principal.user_id seen.active_organization_id seen found
  unfolding tenant_guard
  tenant_guard-InTenant route p seen found principal db access known e =
      elim (Option-cases seen.active_organization_id) [
        | inl nowhere ↦
            let (c, never, _) =
              settle_tenant-in_tenant route p seen found no_active_organization access
                (rw (access, known, nowhere) at e) in
            cc
        | inr (org, chosen) ↦
            let (context, r, state) =
              settle_tenant-in_tenant route p seen found
                (resolve_tenant (tenant_resolver D principal.user_id org db)) access
                (rw (access, known, chosen) at e) in
            subst (λ o. InTenant db principal.user_id o seen found) (sym chosen)
              (resolved-InTenant db principal.user_id org seen found context r state)
      ]

  enrolment_guard-allows :
      (route : Route) (p : Permission) (seen : Seen) (principal : Principal)
      (context : TenantContext) (db : Db D) (s : Accounts I)
      → route.access ≡ some (permission p)
      → seen.principal ≡ some principal
      → seen.tenant ≡ some context
      → enrolment_guard D I policy hash matches web_origin route seen db s ≡ ok tt
      → require_mfa_allows
          (holds_organization D
            (λ o. o.require_mfa)
            (find_organization D context.organization_id db))
          (has_confirmed_factor I principal.user_id s)
          route.allow_without_mfa_enrolment
        ≡ true
  unfolding enrolment_guard require_mfa_allows mfa_enrolment_policy
  enrolment_guard-allows route p seen principal context db s access known placed e =
      elim (Bool-cases route.allow_without_mfa_enrolment) [
        | inl exempt ↦ rw exempt refl
        | inr bound ↦
            elim (Bool-cases (
              holds_organization D (λ o. o.require_mfa)
                (find_organization D context.organization_id db))) [
                  | inr free ↦ rw (bound, free) refl
                  | inl asked ↦ elim (Bool-cases (has_confirmed_factor I principal.user_id s)) [
                    | inl has ↦ rw (bound, asked, has) refl
                    | inr lacks ↦ let f = rw (access, bound, known, placed, asked, lacks) at e in cc
                  ]
                ]
      ]

  -- What the session of a request that is not public is.
  pub record HasSession (route : Route) (request : Request) (now : ℕ) (s : Accounts I) (seen : Seen)
      : Type 0 where
    pub token : ℕ
    pub cookie : request.session_cookie ≡ some token
    pub session : ResolvedSession
    pub live : (resolve I.sessions I.redis policy (hash token) now s.sessions).0 ≡ resolved session
    pub complete : (is_pending session.status && not route.allow_pending_mfa) ≡ false
    pub state : seen ≡ record {
      principal = some (record { user_id = session.user_id; session_id = session.id });
      active_organization_id = session.active_organization_id;
      tenant = none;
    }

  identity_of-ok :
      (r : SessionResolution) (x : ResolvedSession) → identity_of r ≡ ok x → r ≡ resolved x
  unfolding identity_of
  identity_of-ok (resolved y) x e = cc
  identity_of-ok unknown x e = cc
  identity_of-ok expired x e = cc
  identity_of-ok revoked x e = cc

  authenticate-HasSession :
      (route : Route) (p : Permission) (request : Request) (now : ℕ) (s : Accounts I) (seen : Seen)
      → route.access ≡ some (permission p)
      → (authenticate D I policy hash matches web_origin route request now s).0 ≡ ok seen
      → HasSession route request now s seen
  unfolding authenticate admit_session
  authenticate-HasSession route p request now s seen access e =
      elim (Option-cases request.session_cookie) [
        | inl missing ↦ let f = rw (access, missing) at e in cc
        | inr (token, cookie) ↦
            let (session, found, admitted) =
              bind-ok
                (identity_of (resolve I.sessions I.redis policy (hash token) now s.sessions).0)
                (admit_session route) (rw (access, cookie) at e) in
            elim (Bool-cases (is_pending session.status && not route.allow_pending_mfa)) [
              | inl pending ↦ let f = rw pending at admitted in cc
              | inr through ↦
                  let f = rw through at admitted in
                  record {
                    token = token;
                    cookie = cookie;
                    session = session;
                    live = identity_of-ok _ session found;
                    complete = through;
                    state = cc;
                  }
            ]
      ]

  -- The guards that follow, one by one.
  later_guards-ok :
      (route : Route) (request : Request) (seen found : Seen) (db : Db D) (s : Accounts I)
      → later_guards D I policy hash matches web_origin route request seen db s ≡ ok found
      → (tenant_guard D I policy hash matches web_origin route seen db ≡ ok found)
        × (csrf_guard matches route request ≡ ok tt)
        × (enrolment_guard D I policy hash matches web_origin route found db s ≡ ok tt)
        × (authorize route.access found.tenant ≡ ok tt)
  unfolding later_guards
  later_guards-ok route request seen found db s e =
      let (x, p₁, e₁) =
        bind-ok (tenant_guard D I policy hash matches web_origin route seen db) _ e in
      let (_, p₂, e₂) = bind-ok (csrf_guard matches route request) _ e₁ in
      let (_, p₃, e₃) = bind-ok (cross_site_guard web_origin route request) _ e₂ in
      let (_, p₄, e₄) = bind-ok (email_guard D I policy hash matches web_origin route x s) _ e₃ in
      let (_, p₅, e₅) =
        bind-ok (enrolment_guard D I policy hash matches web_origin route x db s) _ e₄ in
      let (_, p₆, e₆) = bind-ok (authorize route.access x.tenant) _ e₅ in
      let same : x ≡ found = cc in (p₁ ∙ ap ok same, p₂, rw (← same) p₅, rw (← same) p₆)

  -- A request that the guards let through to a handler that declares a permission is `IsAuthorized`:
  -- its token is that of a session which resolved, its second factor given unless the handler takes
  -- pending sessions; the user's membership of the session's organisation is stored, not deleted and
  -- active, the organisation is active, and the role stored grants the permission; a second factor
  -- is enrolled where the organisation asks for one and the handler is not exempt; and the method is
  -- safe, or the request is not from another site and carries a token that matches the session's.
  pub run_guards-IsAuthorized :
      (route : Route) (p : Permission) (request : Request) (now : ℕ) (db : Db D) (s : Accounts I)
      (seen : Seen) (s' : Accounts I)
      → route.access ≡ some (permission p)
      → run_guards D I policy hash matches web_origin route request now db s ≡ (ok seen, s')
      → IsAuthorized D I policy hash matches p route request now db s seen s'
  unfolding run_guards
  run_guards-IsAuthorized route p request now db s seen s' access e =
      let entered = authenticate D I policy hash matches web_origin route request now s in
      let (first, admitted, rest) =
        bind-ok entered.0
          (λ x. later_guards D I policy hash matches web_origin route request x db entered.1)
          (ap (λ r. r.0) e) in
      let after : entered.1 ≡ s' = ap (λ r. r.1) e in
      let a = authenticate-HasSession route p request now s first access admitted in
      let (placed, own, enrolled, authorized) =
        later_guards-ok route request first seen db _ rest in
      let principal : Principal = record {
        user_id = a.session.user_id;
        session_id = a.session.id;
      } in
      let t =
        tenant_guard-InTenant route p first seen principal db access (rw a.state refl) placed in
      let tenant = ap (λ x. x.tenant) t.kept in
      let decided : authorize (some (permission p)) seen.tenant ≡ ok tt =
        subst (λ o. authorize o seen.tenant ≡ ok tt) access authorized in
      record {
        token = a.token;
        cookie = a.cookie;
        session = a.session;
        live = a.live;
        complete = a.complete;
        org = t.org;
        chosen = subst (λ x. x.active_organization_id ≡ some t.org) a.state t.chosen;
        m = t.m;
        member = t.member;
        theirs = members_row D t.org a.session.user_id t.m db t.member;
        engaged = is_active-active t.m.status t.engaged;
        running = t.running;
        granted =
            authorize-permission p _
              (subst (λ o. authorize (some (permission p)) o ≡ ok tt) tenant decided);
        tenant = tenant;
        enrolled =
            subst
              (λ x.
                require_mfa_allows
                  (holds_organization D (λ o. o.require_mfa) (find_organization D t.org db))
                  (has_confirmed_factor I a.session.user_id x) route.allow_without_mfa_enrolment
                ≡ true)
              after
              (enrolment_guard-allows route p seen principal _ db entered.1 access
                (ap (λ x. x.principal) t.kept ∙ ap (λ x. x.principal) a.state) tenant enrolled);
        own = csrf_guard-own matches route request p a.token access a.cookie own;
      }
