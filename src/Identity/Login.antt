-- ===== src/Identity/Login.antt =====
-- `LoginService` of apps/api/src/modules/auth/login.service.ts. What a call draws from outside (the
-- readings of the clock, the session's identifier and token, the salt) is an argument; mail and logs
-- are not modelled, and neither is a database that fails.
pub mod Outcomes
pub mod Failures
pub mod Held
pub mod Pace
pub mod LockedOut
use sstsaas_pv.Common.{
  ℕ, suc, ◌==◌, leb, Bool, true, false, not, ◌&&◌, ◌||◌, Option, none, some, is_some, if◌then◌else◌,
}
use mathlib.Core.Option
use sstsaas_pv.Access.Faults.{Fault, invalid_credentials, Result, ok, err}
use sstsaas_pv.Access.Runs.{◌>>◌}
use sstsaas_pv.Tenancy.Rows.{RequestContext}
use sstsaas_pv.Sessions.Rows.{pending_mfa, active, SessionRow, SessionPolicy}
use sstsaas_pv.Sessions.Service.{IssueInput, IssuedSession, issue, revoke}
use sstsaas_pv.Identity.Lockout.{locked_until_for, is_locked}
use sstsaas_pv.Identity.Passwords.{
  Argon2, Argon2Parameters, PasswordVerification, verify, hash_password,
}
use sstsaas_pv.Identity.Rows.{
  is_active_user, UserRow, CredentialRow, PlatformAction, login_failed, login_denied, logged_in,
  PlatformAuditEvent,
}
use sstsaas_pv.Identity.Store.{
  IdentityDatabase, Accounts, Tx, transaction, record_platform_event, update_user, user_by_id,
  user_by_email, credential_of,
}

-- `LoginCommand`
pub record LoginCommand : Type 0 where
  pub email : ℕ
  pub password : ℕ
  pub remember_me : Bool
  pub request : RequestContext

-- `LoginResult`
pub data LoginResult : Type 0 where
  -- the token, and the age of the cookie
  authenticated : ℕ → Option ℕ → LoginResult
  mfa_required : ℕ → LoginResult

-- What one call draws: the readings of the clock, in order, and the new values.
pub record Draws : Type 0 where
  pub checked_at : ℕ
  pub written_at : ℕ
  pub issued_at : ℕ
  pub revoked_at : ℕ
  pub session_id : ℕ
  pub token : ℕ
  pub token_hash : ℕ
  pub salt : ℕ

-- `{ id, OR: [{ lockedUntil: null }, { lockedUntil: { lte: now } }] }`
abbrev pub lapsed : Option ℕ → ℕ → Bool
lapsed none now = true
lapsed (some locked_until) now = leb locked_until now

abbrev pub is_open : ℕ → ℕ → UserRow → Bool
is_open id now u = u.id == id && lapsed u.locked_until now

abbrev pub add_failure : UserRow → UserRow
add_failure u = record u { failed_login_count = suc u.failed_login_count }

abbrev pub set_lock : Option ℕ → UserRow → UserRow
set_lock until u = record u { locked_until = until }

-- The `data` of the accepted login, on both arms.
abbrev pub set_logged_in : Bool → ℕ → UserRow → UserRow
set_logged_in mfa now u = record u {
  failed_login_count = 0;
  locked_until = none;
  last_login_at = if mfa then u.last_login_at else some now;
}

abbrev pub same_value : Option ℕ → Option ℕ → Bool
same_value none none = true
same_value (some a) (some b) = a == b
same_value _ _ = false

-- `{ userId, ip, userAgent }`
abbrev pub is_prior : ℕ → RequestContext → SessionRow → Bool
is_prior user request r =
    r.user_id == user && (same_value r.ip request.ip && same_value r.user_agent request.user_agent)

-- `{ userId, passwordHash }`
abbrev pub holds_hash : ℕ → ℕ → CredentialRow → Bool
holds_hash user h c = c.user_id == user && c.password_hash == h

abbrev pub set_hash : ℕ → CredentialRow → CredentialRow
set_hash h c = record c { password_hash = h }

-- An event on a user.
abbrev pub user_event : Option ℕ → PlatformAction → Option ℕ → RequestContext → PlatformAuditEvent
user_event actor action user request = record {
  actor_id = actor;
  action = action;
  resource_id = user;
  request = request;
}

module _ (D : IdentityDatabase) where
  -- `storedHashFor`
  unfoldable pub stored_hash_for : ℕ → Accounts D → Option ℕ
  stored_hash_for user s = Option.map (λ c. c.password_hash) (credential_of D user s)

  -- The lock, where the count implies one.
  unfoldable pub apply_lock : ℕ → Option ℕ → Tx D (Unit {0})
  apply_lock user none s = ok (tt, s)
  apply_lock user (some until) s = update_user D user (set_lock (some until)) s

  unfoldable pub record_lock : ℕ → ℕ → Option ℕ → RequestContext → Tx D (Unit {0})
  record_lock user failures none request s = ok (tt, s)
  record_lock user failures (some until) request s =
      record_platform_event D
        (user_event none (PlatformAction.account_locked failures until) (some user) request) s

  -- The transaction of `recordFailure`, on the row that was counted.
  unfoldable pub settle_failure : Option UserRow → ℕ → RequestContext → Tx D (Unit {0})
  settle_failure none now request s = ok (tt, s)
  settle_failure (some u) now request s =
      (do
        apply_lock u.id (locked_until_for u.failed_login_count now)
        record_platform_event D
            (user_event none (login_failed true u.failed_login_count) (some u.id) request)
        record_lock u.id u.failed_login_count (locked_until_for u.failed_login_count now) request)
        s

  -- The transaction of `recordFailure` for a user.
  unfoldable pub count_failure : ℕ → ℕ → RequestContext → Tx D (Unit {0})
  count_failure user now request s =
      let s' : Accounts D = record s {
        users = D.users.update_many (is_open user now) add_failure s.users;
      } in
      if D.users.updated_count (is_open user now) s.users == 0
      then ok (tt, s)
      else settle_failure (user_by_id D user s') now request s'

  -- `recordFailure`
  unfoldable pub record_failure : Option UserRow → ℕ → RequestContext → Accounts D → Accounts D
  record_failure none now request s =
      (transaction (record_platform_event D (user_event none (login_failed false 0) none request))
        s).1
  record_failure (some u) now request s = (transaction (count_failure u.id now request) s).1

  -- `recordStatusDenial`
  unfoldable pub record_status_denial : UserRow → RequestContext → Accounts D → Accounts D
  record_status_denial u request s =
      (transaction
        (record_platform_event D (user_event none (login_denied u.status) (some u.id) request)) s).1

  -- `isFamiliar`
  unfoldable pub is_familiar : ℕ → RequestContext → Accounts D → Bool
  is_familiar user request s =
      is_some (D.sessions.find_first (is_prior user request) s.sessions.rows)

  -- `confirmedFactor`
  unfoldable pub has_confirmed_factor : ℕ → Accounts D → Bool
  has_confirmed_factor user s =
      is_some (D.factors.find_first (λ f. f.user_id == user && is_some f.confirmed_at) s.factors)

  -- The transaction of `succeed`.
  unfoldable pub clear_failures : ℕ → Bool → Bool → ℕ → RequestContext → Tx D (Unit {0})
  clear_failures user mfa familiar now request s =
      let s' : Accounts D = record s {
        users = D.users.update_many (is_open user now) (set_logged_in mfa now) s.users;
      } in
      if D.users.updated_count (is_open user now) s.users == 0
      then err Fault.account_locked
      else record_platform_event D
          (user_event (some user) (logged_in mfa (not familiar)) (some user) request) s'

  module _ (argon : Argon2) (parameters : Argon2Parameters) (policy : SessionPolicy) where
    -- `rehashCredential`: the hash written, or `none` when the credential has moved.
    unfoldable pub rehash_credential : ℕ → ℕ → ℕ → ℕ → Accounts D → Option ℕ × Accounts D
    rehash_credential user verified password salt s =
        let fresh = hash_password argon parameters password salt in
        (
          (if D.credentials.updated_count (holds_hash user verified) s.credentials == 1
              then some fresh
              else none),
          record s {
            credentials =
                D.credentials.update_many (holds_hash user verified) (set_hash fresh) s.credentials;
          },
        )

    -- The hash in force after the rehash, if one is due.
    unfoldable pub upgrade : ℕ → Option ℕ → Bool → ℕ → ℕ → Accounts D → Option ℕ × Accounts D
    upgrade user none due password salt s = (none, s)
    upgrade user (some verified) due password salt s =
        let (written, s') = rehash_credential user verified password salt s in
        if due
        then ((if is_some written then written else some verified), s')
        else (some verified, s)

    -- `credentialStillCurrent`
    unfoldable pub credential_still_current : ℕ → Option ℕ → ℕ → Accounts D → Bool
    credential_still_current user in_force password s =
        let current = stored_hash_for user s in
        same_value current in_force || (verify argon parameters current password).valid

    -- The session that a login asks for.
    abbrev pub login_input : ℕ → Bool → LoginCommand → IssueInput
    login_input user mfa command = record {
      user_id = user;
      status = if mfa then pending_mfa else active;
      remember_me = if mfa then false else command.remember_me;
      active_organization_id = none;
      mfa_completed_at = none;
      ip = command.request.ip;
      user_agent = command.request.user_agent;
    }

    -- The end of `succeed`: the session issued stands only while the credential does.
    unfoldable pub conclude_login :
        ℕ
        → Bool
        → Option ℕ
        → LoginCommand
        → Draws
        → IssuedSession
        → Accounts D
        → Result LoginResult × Accounts D
    conclude_login user mfa in_force command d session s =
        if credential_still_current user in_force command.password s
        then (
          ok (
              if mfa
              then mfa_required session.token
              else authenticated session.token session.cookie_max_age_seconds),
          s,
        )
        else (
          err invalid_credentials,
          record s {
            sessions =
                (revoke D.sessions D.redis policy session.session.id d.revoked_at s.sessions).1;
          },
        )

    -- `this.sessions.issue`
    unfoldable pub issue_session :
        ℕ → Bool → LoginCommand → Draws → Accounts D → IssuedSession × Accounts D
    issue_session user mfa command d s =
        let (session, sessions) =
          issue D.sessions D.redis policy (login_input user mfa command) d.session_id d.token
            d.token_hash d.issued_at s.sessions in
        (session, record s { sessions = sessions })

    -- `succeed` after its transaction, which left `s`.
    unfoldable pub after_commit :
        ℕ
        → Bool
        → Option ℕ
        → Bool
        → LoginCommand
        → Draws
        → Accounts D
        → Result LoginResult × Accounts D
    after_commit user mfa verified due command d s =
        let (in_force, s₁) = upgrade user verified due command.password d.salt s in
        let (session, s₂) = issue_session user mfa command d s₁ in
        conclude_login user mfa in_force command d session s₂

    -- `succeed`, on what its transaction answers.
    unfoldable pub succeed_with :
        Result (Unit {0}) × Accounts D
        → ℕ
        → Bool
        → Option ℕ
        → Bool
        → LoginCommand
        → Draws
        → Result LoginResult × Accounts D
    succeed_with (err f, s) user mfa verified due command d = (err f, s)
    succeed_with (ok _, s) user mfa verified due command d =
        after_commit user mfa verified due command d s

    -- `succeed`
    unfoldable pub succeed :
        UserRow
        → LoginCommand
        → Option ℕ
        → Bool
        → Draws
        → Accounts D
        → Result LoginResult × Accounts D
    succeed u command verified due d s =
        let mfa = has_confirmed_factor u.id s in
        succeed_with
          (transaction
            (clear_failures u.id mfa (is_familiar u.id command.request s) d.written_at
              command.request)
            s)
          u.id mfa verified due command d

    -- `login`, on the user found and the verification.
    unfoldable pub decide :
        Option UserRow
        → Option ℕ
        → PasswordVerification
        → LoginCommand
        → Draws
        → Accounts D
        → Result LoginResult × Accounts D
    decide none stored v command d s =
        (err invalid_credentials, record_failure none d.written_at command.request s)
    decide (some u) stored v command d s =
        if is_locked u.locked_until d.checked_at
        then (err (if v.valid then Fault.account_locked else invalid_credentials), s)
        else (if not v.valid
            then (err invalid_credentials, record_failure (some u) d.written_at command.request s)
            else (if not (is_active_user u.status)
                then (err Fault.account_locked, record_status_denial u command.request s)
                else succeed u command stored v.needs_rehash d s))

    -- The stored hash that `login` verifies against.
    unfoldable pub stored_hash : Option UserRow → Accounts D → Option ℕ
    stored_hash none s = none
    stored_hash (some u) s = stored_hash_for u.id s

    -- `login`
    unfoldable pub login : LoginCommand → Draws → Accounts D → Result LoginResult × Accounts D
    login command d s =
        let user = user_by_email D command.email s in
        let stored = stored_hash user s in
        decide user stored (verify argon parameters stored command.password) command d s
