-- ===== src/Access/Faults.antt =====
-- The refusals that the services and the guards raise (apps/api/src/common/errors and the
-- `DomainError` calls), and the result of a call that may raise one.
use sstsaas_pv.Common.{List}
use sstsaas_pv.Access.Catalog.{Role, Permission}

-- What `lastOwner` was asked to refuse.
pub data OwnerAction : Type 0 where
  demoted removed : OwnerAction

pub data Fault : Type 0 where
  -- RESOURCE_NOT_FOUND, 404
  resource_not_found : Fault
  -- PERMISSION_DENIED, 403: `required`, `yourRole`, `rolesWithPermission`
  permission_denied : Permission → Role → List Role → Fault
  -- INVALID_STATE_TRANSITION, 422
  last_owner : OwnerAction → Fault
  -- DUPLICATE_RESOURCE, 409
  already_a_member : Fault
  -- TokenInvalidError
  token_invalid : Fault
  -- ORGANIZATION_SUSPENDED, 403
  organization_suspended : Fault
  -- MfaEnrolmentRequiredError, 403
  mfa_enrolment_required : Fault
  -- InvalidCredentialsError, 401
  invalid_credentials : Fault
  -- AccountLockedError, 403
  account_locked : Fault
  -- PasswordBreachedError, 422
  password_breached : Fault
  -- UNAUTHENTICATED, SESSION_EXPIRED and MFA_REQUIRED, 401
  unauthenticated session_expired mfa_required : Fault
  -- CSRF_TOKEN_INVALID and EMAIL_NOT_VERIFIED, 403
  csrf_token_invalid email_not_verified : Fault
  -- what Prisma's `update` and `findUniqueOrThrow` raise when no row matches
  record_missing : Fault

pub data Result {ℓ} (A : Type ℓ) : Type ℓ where
  ok : A → Result A
  err : Fault → Result A

infixl 5 ◌>>=◌
abbrev pub ◌>>=◌ {ℓ κ} : {A : Type ℓ} {B : Type κ} → Result A → (A → Result B) → Result B
ok a >>= f = f a
err e >>= f = err e
