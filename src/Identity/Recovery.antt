-- ===== src/Identity/Recovery.antt =====
-- `PasswordResetService` of apps/api/src/modules/auth/password-reset.service.ts. Whether the breach
-- check knows the password is an argument, and so are the readings of the clock and the new values;
-- mail is not modelled.
pub mod Outcomes
pub mod Completed
pub mod Race
use sstsaas_pv.Common.{
  ℕ, ◌==◌, Bool, true, false, not, ◌&&◌, Option, none, some, is_none, is_some, if◌then◌else◌,
}
use sstsaas_pv.Access.Faults.{token_invalid, password_breached, Result, ok, err}
use sstsaas_pv.Access.Runs.{◌>>=◌, ◌>>◌, pure, or_fail, refuse_if}
use sstsaas_pv.Tenancy.Rows.{RequestContext}
use sstsaas_pv.Sessions.Rows.{SessionPolicy, SessionRow}
use sstsaas_pv.Sessions.Service.{revoke_all_for_user}
use sstsaas_pv.Identity.Passwords.{Argon2, Argon2Parameters, hash_password}
use sstsaas_pv.Identity.Rows.{
  VerificationPurpose, is_active_user, UserRow, CredentialRow, reset_requested, reset_completed,
}
use sstsaas_pv.Identity.Store.{
  IdentityDatabase, Accounts, Tx, transaction, record_platform_event, update_user, user_by_id,
  user_by_email, credential_of,
}
use sstsaas_pv.Identity.Tokens.{TtlSeconds, issue_token, consume_token}
use sstsaas_pv.Identity.Login.{holds_hash, set_hash, user_event}

-- `ResetPasswordCommand`: the token by its hash.
pub record ResetCommand : Type 0 where
  pub token_hash : ℕ
  pub password : ℕ
  pub request : RequestContext

-- What a reset draws.
pub record ResetDraws : Type 0 where
  pub salt : ℕ
  pub consumed_at : ℕ
  pub revoked_at : ℕ
  pub credential_id : ℕ

-- `{ failedLoginCount: 0, lockedUntil: null }`, with the proof of the address where it has none.
abbrev pub set_recovered : ℕ → UserRow → UserRow
set_recovered at u = record u {
  failed_login_count = 0;
  locked_until = none;
  email_verified_at = if is_none u.email_verified_at then some at else u.email_verified_at;
}

-- `{ userId, revokedAt: null }`
abbrev pub is_live_of : ℕ → SessionRow → Bool
is_live_of user r = r.user_id == user && is_none r.revoked_at

module _ (D : IdentityDatabase) where
  -- The transaction of `request` for an active user.
  unfoldable pub send_link : TtlSeconds → UserRow → RequestContext → ℕ → ℕ → ℕ → Tx D (Unit {0})
  send_link ttl u request id h at =
      (λ s. ok (
        tt,
        record s {
          tokens =
              (issue_token D.tokens ttl u.id VerificationPurpose.password_reset id h at s.tokens).1;
        },
      ))
      >> record_platform_event D (
          user_event none (reset_requested true true none (some (id, is_some u.email_verified_at)))
            (some u.id) request)

  -- `request`, on the user found.
  unfoldable pub request_for :
      TtlSeconds → Option UserRow → RequestContext → ℕ → ℕ → ℕ → Accounts D → Option ℕ × Accounts D
  request_for ttl none request id h at s =
      let event = user_event none (reset_requested false false none none) none request in
      (none, (transaction (record_platform_event D event) s).1)
  request_for ttl (some u) request id h at s =
      let denied =
        user_event none (reset_requested true false (some u.status) none) (some u.id) request in
      if not (is_active_user u.status)
      then (none, (transaction (record_platform_event D denied) s).1)
      else (some u.email, (transaction (send_link ttl u request id h at) s).1)

  -- `request`: the address that a link is sent to, if one is.
  unfoldable pub request_reset :
      TtlSeconds → ℕ → RequestContext → ℕ → ℕ → ℕ → Accounts D → Option ℕ × Accounts D
  request_reset ttl email request id h at s =
      request_for ttl (user_by_email D email s) request id h at s

  -- `consumeInTransaction`, and the refusal where it answers `null`.
  unfoldable pub redeem : ℕ → ℕ → Tx D ℕ
  redeem h now s =
      let (user, tokens) =
        consume_token D.tokens h VerificationPurpose.password_reset now s.tokens in
      or_fail user token_invalid (record s { tokens = tokens })

  -- The write of the credential: a first one, or one that replaces the hash read.
  unfoldable pub write_credential : ℕ → ℕ → ℕ → Option CredentialRow → Tx D (Unit {0})
  write_credential user id fresh none s = ok (
    tt,
    record s {
      credentials =
          D.credentials.create (record { id = id; user_id = user; password_hash = fresh })
            s.credentials;
    },
  )
  write_credential user id fresh (some existing) s =
      let mine = holds_hash user existing.password_hash in
      if D.credentials.updated_count mine s.credentials == 0
      then err token_invalid
      else ok (
        tt,
        record s { credentials = D.credentials.update_many mine (set_hash fresh) s.credentials },
      )

  -- The audit event of a completed reset.
  unfoldable pub record_reset : UserRow → Bool → RequestContext → Tx D (Unit {0})
  record_reset u replaced request s =
      let live = D.sessions.count (is_live_of u.id) s.sessions.rows in
      record_platform_event D
        (user_event (some u.id) (reset_completed live replaced (is_none u.email_verified_at))
          (some u.id) request)
        s

  -- The writes of `reset`'s transaction, of the user and the credential that it read.
  unfoldable pub apply_reset :
      UserRow → Option CredentialRow → ResetCommand → ℕ → ResetDraws → Tx D ℕ
  apply_reset u existing command fresh d = do
    write_credential u.id d.credential_id fresh existing
    update_user D u.id (set_recovered d.consumed_at)
    record_reset u (is_some existing) command.request
    pure u.id

  -- The transaction of `reset`; the user comes back.
  unfoldable pub reset_tx : ResetCommand → ℕ → ResetDraws → Tx D ℕ
  reset_tx command fresh d = do
    user ← redeem command.token_hash d.consumed_at
    u ← (λ s. or_fail (user_by_id D user s) token_invalid s)
    (λ s. refuse_if (not (is_active_user u.status)) token_invalid s)
    existing ← (λ s. ok (credential_of D u.id s, s))
    apply_reset u existing command fresh d

  -- `reset` after its transaction: every session of the user is revoked.
  unfoldable pub end_sessions :
      SessionPolicy → ResetDraws → Result ℕ × Accounts D → Result (Unit {0}) × Accounts D
  end_sessions policy d (err f, s) = (err f, s)
  end_sessions policy d (ok user, s) = (
    ok tt,
    record s {
      sessions =
          (revoke_all_for_user D.sessions D.redis policy user none d.revoked_at s.sessions).1;
    },
  )

  -- `reset`
  unfoldable pub reset :
      Argon2
      → Argon2Parameters
      → SessionPolicy
      → Bool
      → ResetCommand
      → ResetDraws
      → Accounts D
      → Result (Unit {0}) × Accounts D
  reset argon parameters policy breached command d s =
      if breached
      then (err password_breached, s)
      else end_sessions policy d (
          transaction (reset_tx command (hash_password argon parameters command.password d.salt) d)
            s)
