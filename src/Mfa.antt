-- ===== src/Mfa.antt =====
-- apps/api/src/modules/auth/mfa-verification.service.ts: a one-time code spent against the stored
-- factor, and the failures that lock a pending session. What `decryptMfaSecret` makes of a stored
-- secret with Node's decipher is a parameter, and so is the HMAC under a secret; the clock is an
-- argument. The advisory lock orders the transactions, which the model runs one by one.
pub mod Replay
pub mod Attempts
mod Tests
use sstsaas_pv.Common.{
  ℕ, ◌==◌, ltb, Bool, true, false, not, ◌&&◌, Option, none, some, is_some, List, if◌then◌else◌,
}
use sstsaas_pv.Common.Table.{Table}
use sstsaas_pv.Access.Faults.{Result, ok, err}
use sstsaas_pv.Access.Runs.{pure, gets, ◌>>=◌, ◌>>◌}
use sstsaas_pv.Tenancy.Rows.{RequestContext}
use sstsaas_pv.Totp.{TotpParameters, VerifyTotpInput, verify_totp_code, minimum_step_for}
use sstsaas_pv.Sessions.Rows.{SessionPolicy}
use sstsaas_pv.Sessions.Service.{revoke}
use sstsaas_pv.Identity.Lockout.{lockout_threshold}
use sstsaas_pv.Identity.Rows.{
  FactorRow, MfaFailure, PlatformAction, mfa_challenge_failed, mfa_pending_session_locked,
  PlatformAuditEvent,
}
use sstsaas_pv.Identity.Store.{IdentityDatabase, Accounts, Tx, transaction, record_platform_event}

-- `TOTP_DRIFT_STEPS`
abbrev pub totp_drift_steps : ℕ
totp_drift_steps = 1

-- `MFA_ATTEMPT_LIMIT`
abbrev pub mfa_attempt_limit : ℕ
mfa_attempt_limit = lockout_threshold

-- `OR: [{ lastAcceptedStep: null }, { lastAcceptedStep: { lt: step } }]`
abbrev pub is_behind : Option ℕ → ℕ → Bool
is_behind none step = true
is_behind (some last) step = ltb last step

-- `replaySpendWhere`
abbrev pub replay_spend_where : ℕ → ℕ → FactorRow → Bool
replay_spend_where id step r =
    r.id == id && (is_some r.confirmed_at && is_behind r.last_accepted_step step)

-- `{ lastAcceptedStep: step, lastUsedAt: now }`
abbrev pub set_accepted : ℕ → ℕ → FactorRow → FactorRow
set_accepted step now r = record r { last_accepted_step = some step; last_used_at = some now }

-- What `spendTotpCode` asks `verifyTotpCode`, of a factor as it was read.
abbrev pub totp_input : TotpParameters → FactorRow → List ℕ → ℕ → VerifyTotpInput
totp_input parameters factor code at_ms = record {
  code = code;
  at_ms = at_ms;
  minimum_step = some (minimum_step_for factor.last_accepted_step);
  drift_steps = totp_drift_steps;
  parameters = parameters;
}

module _ (F : Table FactorRow) where
  -- The transaction of `spendTotpCode`: the compare-and-swap.
  unfoldable pub swap_step : ℕ → ℕ → ℕ → F.Store → Option ℕ × F.Store
  swap_step id step now s =
      let s' = F.update_many (replay_spend_where id step) (set_accepted step now) s in
      if F.updated_count (replay_spend_where id step) s == 0 then (none, s') else (some step, s')

  -- `step === null`
  unfoldable pub spend_step : ℕ → Option ℕ → ℕ → F.Store → Option ℕ × F.Store
  spend_step id none now s = (none, s)
  spend_step id (some step) now s = swap_step id step now s

  module _ (decrypt : ℕ → Option ℕ → Option ℕ) (totp : ℕ → TotpParameters) where
    -- `spendTotpCode` once the secret is decrypted, or not.
    unfoldable pub spend_with : FactorRow → Option ℕ → List ℕ → ℕ → ℕ → F.Store → Option ℕ × F.Store
    spend_with factor none code at_ms now s = (none, s)
    spend_with factor (some secret) code at_ms now s =
        spend_step factor.id (verify_totp_code (totp_input (totp secret) factor code at_ms)) now s

    -- `spendTotpCode`: the step spent, for a factor as it was read.
    unfoldable pub spend_totp_code : FactorRow → List ℕ → ℕ → ℕ → F.Store → Option ℕ × F.Store
    spend_totp_code factor code at_ms now s =
        spend_with factor (decrypt factor.secret_encrypted factor.secret_key_version) code at_ms now
          s

-- The audit's rows of a pending session: its failures, and its locks.
abbrev pub is_challenge_failed : PlatformAction → Bool
is_challenge_failed (mfa_challenge_failed reason user) = true
is_challenge_failed _ = false

abbrev pub is_session_locked : PlatformAction → Bool
is_session_locked (mfa_pending_session_locked failures user) = true
is_session_locked _ = false

abbrev pub is_resource : ℕ → Option ℕ → Bool
is_resource id none = false
is_resource id (some n) = n == id

-- `{ action: 'MFA_CHALLENGE_FAILED', resourceId: sessionId }`
abbrev pub is_failure_of : ℕ → PlatformAuditEvent → Bool
is_failure_of session e = is_challenge_failed e.action && is_resource session e.resource_id

abbrev pub is_lock_of : ℕ → PlatformAuditEvent → Bool
is_lock_of session e = is_session_locked e.action && is_resource session e.resource_id

abbrev pub mfa_event : ℕ → PlatformAction → RequestContext → PlatformAuditEvent
mfa_event session action request = record {
  actor_id = none;
  action = action;
  resource_id = some session;
  request = request;
}

module _ (D : IdentityDatabase) (policy : SessionPolicy) where
  -- The end of the transaction of `recordFailure`: whether the session is to be locked.
  unfoldable pub lock_at_limit : ℕ → ℕ → RequestContext → ℕ → Tx D Bool
  lock_at_limit session user request failures s =
      if not (failures == mfa_attempt_limit)
      then ok (false, s)
      else (record_platform_event D
              (mfa_event session (mfa_pending_session_locked failures user) request)
            >> pure true)
          s

  -- The transaction of `recordFailure`.
  unfoldable pub record_failure_tx : ℕ → ℕ → MfaFailure → RequestContext → Tx D Bool
  record_failure_tx session user reason request =
      record_platform_event D (mfa_event session (mfa_challenge_failed reason user) request)
      >> (gets (λ s. D.events.count (is_failure_of session) s.events) >>= λ failures.
          lock_at_limit session user request failures)

  -- `if (!locked) return`, and the revocation after the commit.
  abbrev pub after_failure : ℕ → ℕ → Result Bool × Accounts D → Accounts D
  after_failure session at (ok true, s) = record s {
    sessions = (revoke D.sessions D.redis policy session at s.sessions).1;
  }
  after_failure session at (ok false, s) = s
  after_failure session at (err e, s) = s

  -- `recordFailure`; nothing in it throws but a failing database.
  unfoldable pub record_failure : ℕ → ℕ → MfaFailure → RequestContext → ℕ → Accounts D → Accounts D
  record_failure session user reason request at s =
      after_failure session at (transaction (record_failure_tx session user reason request) s)
