-- ===== src/Sessions/Rows.antt =====
-- The session row and the values that the service derives from it, the policy, and the pure
-- functions of time at the top of session.service.ts. A date is its milliseconds; a token hash, an
-- identifier, an address and a user agent are numbers.
use sstsaas_pv.Common.{ℕ, ◌+◌, ◌*◌, leb, ltb, Bool, true, false, ◌||◌, Option, none, if◌then◌else◌}

pub data SessionStatus : Type 0 where
  pending_mfa active : SessionStatus

abbrev pub is_pending : SessionStatus → Bool
is_pending pending_mfa = true
is_pending active = false

abbrev pub is_active : SessionStatus → Bool
is_active pending_mfa = false
is_active active = true

-- `SessionCreateData`
pub record SessionCreateData : Type 0 where
  pub id : ℕ
  pub user_id : ℕ
  pub token_hash : ℕ
  pub status : SessionStatus
  pub idle_expires_at : ℕ
  pub absolute_expires_at : ℕ
  pub last_seen_at : ℕ
  pub remember_me : Bool
  pub active_organization_id : Option ℕ
  pub ip : Option ℕ
  pub user_agent : Option ℕ
  pub mfa_completed_at : Option ℕ
  pub rotated_from_id : Option ℕ

-- `SessionRow`
pub record SessionRow : Type 0 where
  pub id : ℕ
  pub user_id : ℕ
  pub token_hash : ℕ
  pub status : SessionStatus
  pub idle_expires_at : ℕ
  pub absolute_expires_at : ℕ
  pub last_seen_at : ℕ
  pub remember_me : Bool
  pub active_organization_id : Option ℕ
  pub ip : Option ℕ
  pub user_agent : Option ℕ
  pub mfa_completed_at : Option ℕ
  pub rotated_from_id : Option ℕ
  pub revoked_at : Option ℕ

-- The row that `create` makes: `revokedAt` is null by the column's default.
abbrev pub row_of : SessionCreateData → SessionRow
row_of d = record {
  id = d.id;
  user_id = d.user_id;
  token_hash = d.token_hash;
  status = d.status;
  idle_expires_at = d.idle_expires_at;
  absolute_expires_at = d.absolute_expires_at;
  last_seen_at = d.last_seen_at;
  remember_me = d.remember_me;
  active_organization_id = d.active_organization_id;
  ip = d.ip;
  user_agent = d.user_agent;
  mfa_completed_at = d.mfa_completed_at;
  rotated_from_id = d.rotated_from_id;
  revoked_at = none;
}

-- `ResolvedSession`
pub record ResolvedSession : Type 0 where
  pub id : ℕ
  pub user_id : ℕ
  pub status : SessionStatus
  pub active_organization_id : Option ℕ
  pub remember_me : Bool
  pub absolute_expires_at : ℕ
  pub idle_expires_at : ℕ
  pub last_seen_at : ℕ
  pub mfa_completed_at : Option ℕ

-- `toResolved`
abbrev pub to_resolved : SessionRow → ResolvedSession
to_resolved r = record {
  id = r.id;
  user_id = r.user_id;
  status = r.status;
  active_organization_id = r.active_organization_id;
  remember_me = r.remember_me;
  absolute_expires_at = r.absolute_expires_at;
  idle_expires_at = r.idle_expires_at;
  last_seen_at = r.last_seen_at;
  mfa_completed_at = r.mfa_completed_at;
}

-- `SessionResolution`
pub data SessionResolution : Type 0 where
  resolved : ResolvedSession → SessionResolution
  unknown expired revoked : SessionResolution

-- `SessionPolicy`
pub record SessionPolicy : Type 0 where
  pub absolute_lifetime_seconds : ℕ
  pub remember_me_lifetime_seconds : ℕ
  pub idle_timeout_seconds : ℕ
  pub pending_mfa_lifetime_seconds : ℕ
  pub cache_ttl_seconds : ℕ

abbrev pub milliseconds : ℕ
milliseconds = 1000

-- `absoluteLifetimeSeconds`
unfoldable pub lifetime_seconds : SessionPolicy → SessionStatus → Bool → ℕ
lifetime_seconds policy pending_mfa remember = policy.pending_mfa_lifetime_seconds
lifetime_seconds policy active remember =
    if remember then policy.remember_me_lifetime_seconds else policy.absolute_lifetime_seconds

-- `isRenewalDue`: `(now - lastSeenAt) / 1000 >= idleTimeoutSeconds / 2`, multiplied out.
unfoldable pub is_renewal_due : ℕ → ℕ → ℕ → Bool
is_renewal_due last_seen_at now idle_timeout_seconds =
    leb (idle_timeout_seconds * milliseconds + 2 * last_seen_at) (2 * now)

-- `expiryOf` answers `expired`.
abbrev pub is_expired : ResolvedSession → ℕ → Bool
is_expired session now = leb session.absolute_expires_at now || leb session.idle_expires_at now

-- `idleExpiryFrom`
unfoldable pub idle_expiry_from : SessionPolicy → ℕ → ℕ → ℕ
idle_expiry_from policy now absolute_expires_at =
    let idle = now + policy.idle_timeout_seconds * milliseconds in
    if ltb absolute_expires_at idle then absolute_expires_at else idle
