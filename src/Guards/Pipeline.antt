-- ===== src/Guards/Pipeline.antt =====
-- The global guards of apps/api/src/app.module.ts in their order, less the two stages of the rate
-- limiter and the entitlement guard, which admits every request: authentication.guard.ts,
-- tenant-context.ts, csrf.guard.ts, cross-site.guard.ts, email-verified.guard.ts and
-- authorization.guard.ts of apps/api/src/common/guards, and `MfaEnrolmentGuard` of
-- apps/api/src/modules/auth/require-mfa.ts. Cookies, headers and origins are parsed values; the hash
-- of a token and the comparison of a CSRF token are any functions.
use sstsaas_pv.Common.{
  ℕ, ◌==◌, Bool, true, false, not, ◌&&◌, ◌||◌, Option, none, some, is_some, if◌then◌else◌,
}
use sstsaas_pv.Access.Catalog.{Permission, includes}
use sstsaas_pv.Access.Faults.{
  resource_not_found, organization_suspended, mfa_enrolment_required, unauthenticated,
  session_expired, mfa_required, csrf_token_invalid, email_not_verified, Result, ok, err, ◌>>=◌,
}
use sstsaas_pv.Access.Grant.{TenantContext, denied}
use sstsaas_pv.Sessions.Rows.{
  ResolvedSession, SessionResolution, resolved, unknown, expired, revoked, SessionPolicy,
  is_pending,
}
use sstsaas_pv.Sessions.Service.{resolve}
use sstsaas_pv.Tenancy.Database.{Database, Db}
use sstsaas_pv.Identity.Rows.{UserRow}
use sstsaas_pv.Identity.Store.{IdentityDatabase, Accounts, user_by_id}
use sstsaas_pv.Guards.Resolving.{
  TenantResolution, resolved as in_tenant, no_active_organization, organization_is_suspended,
  resolve_tenant, tenant_resolver, require_mfa_allows, mfa_enrolment_policy,
}

-- `AccessDeclaration`
pub data AccessDeclaration : Type 0 where
  public authenticated : AccessDeclaration
  permission : Permission → AccessDeclaration

-- What the decorators of a handler declare.
pub record Route : Type 0 where
  pub access : Option AccessDeclaration
  pub allow_pending_mfa : Bool
  pub refuse_cross_site : Bool
  pub require_verified_email : Bool
  pub allow_without_mfa_enrolment : Bool

-- What the guards read of a request.
pub record Request : Type 0 where
  pub session_cookie : Option ℕ
  pub method_is_safe : Bool
  pub from_cross_site : Bool
  pub origin : Option ℕ
  pub csrf_header : Option ℕ

-- `UserPrincipal`
pub record Principal : Type 0 where
  pub user_id : ℕ
  pub session_id : ℕ

-- What the guards write onto the request.
pub record Seen : Type 0 where
  pub principal : Option Principal
  pub active_organization_id : Option ℕ
  pub tenant : Option TenantContext

abbrev pub nothing_seen : Seen
nothing_seen = record { principal = none; active_organization_id = none; tenant = none }

abbrev pub is_public : Option AccessDeclaration → Bool
is_public (some public) = true
is_public _ = false

abbrev pub needs_permission : Option AccessDeclaration → Bool
needs_permission (some (permission p)) = true
needs_permission _ = false

-- `identityOf`
unfoldable pub identity_of : SessionResolution → Result ResolvedSession
identity_of (resolved session) = ok session
identity_of unknown = err unauthenticated
identity_of expired = err session_expired
identity_of revoked = err session_expired

-- `AuthenticationGuard` on the session that the cookie resolves to.
unfoldable pub admit_session : Route → ResolvedSession → Result Seen
admit_session route session =
    if is_pending session.status && not route.allow_pending_mfa
    then err mfa_required
    else ok (record {
      principal = some (record { user_id = session.user_id; session_id = session.id });
      active_organization_id = session.active_organization_id;
      tenant = none;
    })

-- `CsrfGuard`
unfoldable pub csrf_guard : (ℕ → ℕ → Bool) → Route → Request → Result (Unit {0})
csrf_guard matches route request =
    if is_public route.access || request.method_is_safe
    then ok tt
    else elim request.session_cookie [
      | none ↦ ok tt
      | some token ↦
          if request.from_cross_site then err csrf_token_invalid else elim request.csrf_header [
            | none ↦ err csrf_token_invalid
            | some presented ↦ if matches presented token then ok tt else err csrf_token_invalid
          ]
    ]

-- `CrossSiteGuard`
abbrev pub is_foreign : Option ℕ → ℕ → Bool
is_foreign none web_origin = false
is_foreign (some origin) web_origin = not (origin == web_origin)

unfoldable pub cross_site_guard : ℕ → Route → Request → Result (Unit {0})
cross_site_guard web_origin route request =
    if not route.refuse_cross_site
    then ok tt
    else (if request.from_cross_site || is_foreign request.origin web_origin
        then err csrf_token_invalid
        else ok tt)

-- `AuthorizationGuard`
unfoldable pub authorize : Option AccessDeclaration → Option TenantContext → Result (Unit {0})
authorize (some (permission p)) none = err resource_not_found
authorize (some (permission p)) (some tenant) =
    if includes tenant.permissions p then ok tt else err (denied p tenant)
authorize _ _ = ok tt

-- `TenantContextGuard` on the resolution.
unfoldable pub settle_tenant : Route → Seen → TenantResolution → Result Seen
settle_tenant route seen (in_tenant context) = ok (record seen { tenant = some context })
settle_tenant route seen organization_is_suspended =
    if needs_permission route.access then err organization_suspended else ok seen
settle_tenant route seen _ =
    if needs_permission route.access then err resource_not_found else ok seen

module _ (D : Database) (I : IdentityDatabase) (policy : SessionPolicy) (hash : ℕ → ℕ)
    (matches : ℕ → ℕ → Bool) (web_origin : ℕ) where
  -- `AuthenticationGuard`
  unfoldable pub authenticate : Route → Request → ℕ → Accounts I → Result Seen × Accounts I
  authenticate route request now s =
      if is_public route.access then (ok nothing_seen, s) else elim request.session_cookie [
        | none ↦ (err unauthenticated, s)
        | some token ↦
            let (answer, sessions) =
              resolve I.sessions I.redis policy (hash token) now s.sessions in
            (identity_of answer >>= admit_session route, record s { sessions = sessions })
      ]

  -- `TenantContextGuard`
  unfoldable pub tenant_guard : Route → Seen → Db D → Result Seen
  tenant_guard route seen db = if is_public route.access then ok seen else elim seen.principal [
    | none ↦ ok seen
    | some principal ↦ elim seen.active_organization_id [
      | none ↦ settle_tenant route seen no_active_organization
      | some org ↦
          settle_tenant route seen (resolve_tenant (tenant_resolver D principal.user_id org db))
    ]
  ]

  -- `EmailVerifiedGuard`, on the user found.
  unfoldable pub verified_user : Option UserRow → Result (Unit {0})
  verified_user none = err email_not_verified
  verified_user (some u) = if is_some u.email_verified_at then ok tt else err email_not_verified

  unfoldable pub email_guard : Route → Seen → Accounts I → Result (Unit {0})
  email_guard route seen s =
      if not route.require_verified_email then ok tt else elim seen.principal [
        | none ↦ err email_not_verified
        | some principal ↦ verified_user (user_by_id I principal.user_id s)
      ]

  -- `MfaEnrolmentGuard`
  unfoldable pub enrolment_guard : Route → Seen → Db D → Accounts I → Result (Unit {0})
  enrolment_guard route seen db s =
      if not (needs_permission route.access) || route.allow_without_mfa_enrolment
      then ok tt
      else elim seen.principal [
        | none ↦ ok tt
        | some principal ↦ elim seen.tenant [
          | none ↦ ok tt
          | some tenant ↦
              let (required, has) =
                mfa_enrolment_policy D I principal.user_id tenant.organization_id db s in
              if require_mfa_allows required has false then ok tt else err mfa_enrolment_required
        ]
      ]

  -- The guards after the authentication, in their order.
  unfoldable pub later_guards : Route → Request → Seen → Db D → Accounts I → Result Seen
  later_guards route request seen db s = do
    found ← tenant_guard route seen db
    _ ← csrf_guard matches route request
    _ ← cross_site_guard web_origin route request
    _ ← email_guard route found s
    _ ← enrolment_guard route found db s
    _ ← authorize route.access found.tenant
    ok found

  -- The pipeline: what the handler then sees, or the refusal.
  unfoldable pub run_guards : Route → Request → ℕ → Db D → Accounts I → Result Seen × Accounts I
  run_guards route request now db s =
      let (seen, s') = authenticate route request now s in
      (seen >>= (λ x. later_guards route request x db s'), s')
