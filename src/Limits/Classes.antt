-- ===== src/Limits/Classes.antt =====
-- apps/api/src/common/guards/rate-limit.config.ts: the classes, their windows and their fail modes.
use sstsaas_pv.Common.{ℕ, Bool, true, false, Option, none, some, List, [], ◌∷◌}
use sstsaas_pv.Limits.Window.{Window}

-- `RateLimitScope`
pub data RateLimitScope : Type 0 where
  per_ip per_principal per_organization : RateLimitScope

-- `RATE_LIMIT_SCOPES`
abbrev pub rate_limit_scopes : List RateLimitScope
rate_limit_scopes =
    RateLimitScope.per_ip ∷ RateLimitScope.per_principal ∷ RateLimitScope.per_organization ∷ []

-- `RateLimitPhase`
pub data RateLimitPhase : Type 0 where
  edge tenant : RateLimitPhase

-- `RATE_LIMIT_SCOPE_PHASES`
abbrev pub scope_phase : RateLimitScope → RateLimitPhase
scope_phase RateLimitScope.per_ip = edge
scope_phase RateLimitScope.per_principal = edge
scope_phase RateLimitScope.per_organization = tenant

abbrev pub same_phase : RateLimitPhase → RateLimitPhase → Bool
same_phase edge edge = true
same_phase tenant tenant = true
same_phase _ _ = false

-- `PrincipalSource`; a body field is a number.
pub data PrincipalSource : Type 0 where
  authenticated : PrincipalSource
  body_field : ℕ → PrincipalSource

-- `email`
abbrev pub email_field : ℕ
email_field = 1

pub data FailMode : Type 0 where
  open' closed : FailMode

-- `RateLimitClassConfig`
pub record RateLimitClassConfig : Type 0 where
  pub per_ip : Option Window
  pub per_principal : Option Window
  pub per_organization : Option Window
  pub principal_source : Option PrincipalSource
  pub fail_mode : FailMode

-- `RateLimitClass`
pub data RateLimitClass : Type 0 where
  login registration password_reset email_verification_consume : RateLimitClass
  password_reset_consume password_change mfa_verify mfa_management : RateLimitClass
  email_verification_resend invitations scan_create evidence_upload : RateLimitClass
  report_generation general_session general_api_key : RateLimitClass

abbrev pub window_of : ℕ → ℕ → Option Window
window_of limit window_seconds = some (record { limit = limit; window_seconds = window_seconds })

abbrev pub by_ip : ℕ → ℕ → RateLimitClassConfig
by_ip limit window_seconds = record {
  per_ip = window_of limit window_seconds;
  per_principal = none;
  per_organization = none;
  principal_source = none;
  fail_mode = closed;
}

abbrev pub by_organization : ℕ → ℕ → RateLimitClassConfig
by_organization limit window_seconds = record {
  per_ip = none;
  per_principal = none;
  per_organization = window_of limit window_seconds;
  principal_source = none;
  fail_mode = closed;
}

abbrev pub by_account : Option Window → Option Window → RateLimitClassConfig
by_account account address = record {
  per_ip = address;
  per_principal = account;
  per_organization = none;
  principal_source = some (body_field email_field);
  fail_mode = closed;
}

abbrev pub by_session : ℕ → ℕ → RateLimitClassConfig
by_session limit window_seconds = record {
  per_ip = none;
  per_principal = window_of limit window_seconds;
  per_organization = none;
  principal_source = some authenticated;
  fail_mode = open';
}

-- `RATE_LIMIT_CLASSES`
unfoldable pub rate_limit_classes : RateLimitClass → RateLimitClassConfig
rate_limit_classes login = by_account (window_of 5 900) (window_of 20 900)
rate_limit_classes registration = by_ip 3 3600
rate_limit_classes password_reset = by_account (window_of 3 3600) (window_of 10 3600)
rate_limit_classes email_verification_consume = by_ip 30 3600
rate_limit_classes password_reset_consume = by_ip 20 3600
rate_limit_classes password_change = by_ip 10 3600
rate_limit_classes mfa_verify = by_ip 60 3600
rate_limit_classes mfa_management = by_ip 10 3600
rate_limit_classes email_verification_resend = by_account (window_of 3 3600) (window_of 10 3600)
rate_limit_classes invitations = by_organization 50 86400
rate_limit_classes scan_create = by_organization 10 60
rate_limit_classes evidence_upload = by_organization 100 3600
rate_limit_classes report_generation = by_organization 10 3600
rate_limit_classes general_session = by_session 1000 60
rate_limit_classes general_api_key = by_session 600 60

-- `config[scope]`
abbrev pub window_for : RateLimitClassConfig → RateLimitScope → Option Window
window_for config RateLimitScope.per_ip = config.per_ip
window_for config RateLimitScope.per_principal = config.per_principal
window_for config RateLimitScope.per_organization = config.per_organization
