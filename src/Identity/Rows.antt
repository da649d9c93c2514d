-- ===== src/Identity/Rows.antt =====
-- The rows of the account tables (packages/db/prisma/schema.prisma), and the platform audit events
-- with their metadata. Identifiers, addresses, tokens and hashes are numbers; a date is its
-- milliseconds.
use sstsaas_pv.Common.{◌≡◌, refl, ℕ, Bool, true, false, Option}
use sstsaas_pv.Tenancy.Rows.{RequestContext}

pub data UserStatus : Type 0 where
  active locked disabled : UserStatus

-- `user.status === ACTIVE_USER_STATUS`
abbrev pub is_active_user : UserStatus → Bool
is_active_user active = true
is_active_user locked = false
is_active_user disabled = false

pub is_active_user-active : (s : UserStatus) → is_active_user s ≡ true → s ≡ active
is_active_user-active active e = refl
is_active_user-active locked e = cc
is_active_user-active disabled e = cc

pub record UserRow : Type 0 where
  pub id : ℕ
  pub email : ℕ
  pub email_verified_at : Option ℕ
  pub status : UserStatus
  pub last_login_at : Option ℕ
  pub failed_login_count : ℕ
  pub locked_until : Option ℕ

pub record CredentialRow : Type 0 where
  pub id : ℕ
  pub user_id : ℕ
  pub password_hash : ℕ

pub data VerificationPurpose : Type 0 where
  email_verification password_reset : VerificationPurpose

abbrev pub same_purpose : VerificationPurpose → VerificationPurpose → Bool
same_purpose email_verification email_verification = true
same_purpose password_reset password_reset = true
same_purpose _ _ = false

pub record TokenRow : Type 0 where
  pub id : ℕ
  pub user_id : ℕ
  pub purpose : VerificationPurpose
  pub token_hash : ℕ
  pub expires_at : ℕ
  pub consumed_at : Option ℕ

pub record FactorRow : Type 0 where
  pub id : ℕ
  pub user_id : ℕ
  pub secret_encrypted : ℕ
  pub secret_key_version : Option ℕ
  pub confirmed_at : Option ℕ
  pub last_accepted_step : Option ℕ
  pub last_used_at : Option ℕ

-- Why a second factor was refused.
pub data MfaFailure : Type 0 where
  no_confirmed_factor bad_code : MfaFailure

-- An action of the platform audit with its metadata.
pub data PlatformAction : Type 0 where
  -- knownAccount, consecutiveFailures
  login_failed : Bool → ℕ → PlatformAction
  -- LOGIN_FAILED with userStatus, the password being right
  login_denied : UserStatus → PlatformAction
  -- consecutiveFailures, lockedUntil
  account_locked : ℕ → ℕ → PlatformAction
  -- mfaRequired, newDevice
  logged_in : Bool → Bool → PlatformAction
  -- knownAccount, linkSent, and the status, or the token's identifier and emailVerified
  reset_requested : Bool → Bool → Option UserStatus → Option (ℕ × Bool) → PlatformAction
  -- liveSessionsAtWrite, replacedExistingCredential, confirmedAddress
  reset_completed : ℕ → Bool → Bool → PlatformAction
  -- reason, userId
  mfa_challenge_failed : MfaFailure → ℕ → PlatformAction
  -- failures, userId
  mfa_pending_session_locked : ℕ → ℕ → PlatformAction

-- `actorId` is null where the actor is `SYSTEM`.
pub record PlatformAuditEvent : Type 0 where
  pub actor_id : Option ℕ
  pub action : PlatformAction
  pub resource_id : Option ℕ
  pub request : RequestContext
