-- ===== src/Identity/Recovery/Completed.antt =====
-- A completed reset as its caller sees it: the token, the account, its credential and its sessions.
use sstsaas_pv.Common.{
  ℕ, ◌≤◌, ◌≡◌, refl, sym, ap, subst, Bool, true, false, none, some, is_none, count_if,
  if◌then◌else◌, ==_iff, Option, ◌⊎◌, inl, inr,
}
use sstsaas_pv.Access.Faults.{Result, ok, err, token_invalid, password_breached}
use sstsaas_pv.Access.Runs.{settle, or_fail}
use sstsaas_pv.Access.Runs.Steps.{or_throw}
use sstsaas_pv.Sessions.Rows.{SessionPolicy, SessionRow, revoked}
use sstsaas_pv.Sessions.Repository.{find_by_token_hash}
use sstsaas_pv.Sessions.Service.{State, revoke_all_for_user, resolve}
use sstsaas_pv.Sessions.Service.Calls.{Steps}
use sstsaas_pv.Sessions.Service.Revocation.{revoke_many-resolve}
use sstsaas_pv.Identity.Passwords.{Argon2, Argon2Parameters, verify, hash_password}
use sstsaas_pv.Identity.Rows.{VerificationPurpose, UserStatus, is_active_user-active, UserRow}
use sstsaas_pv.Identity.Store.{IdentityDatabase, Accounts, transaction, user_by_id, credential_of}
use sstsaas_pv.Identity.Tokens.{TtlSeconds, consume_token}
use sstsaas_pv.Identity.Tokens.Single.{has_hash, TokenSteps, consume-once}
use sstsaas_pv.Identity.Login.{stored_hash_for}
use sstsaas_pv.Identity.Recovery.{
  ResetCommand, ResetDraws, set_recovered, redeem, reset_tx, end_sessions, reset,
}
use sstsaas_pv.Identity.Recovery.Outcomes.{redemption, Recovers, reset_tx-Recovers}

confirmed_date :
    (at : ℕ) (o : Option ℕ)
    → ((o ≡ none) × ((if is_none o then some at else o) ≡ some at))
      ⊎ ((n : ℕ) × (o ≡ some n) × ((if is_none o then some at else o) ≡ some n))
confirmed_date at none = inl (refl, refl)
confirmed_date at (some n) = inr (n, refl, refl)

module _ (D : IdentityDatabase) (argon : Argon2) (parameters : Argon2Parameters)
    (policy : SessionPolicy) where
  pub record Completes (command : ResetCommand) (d : ResetDraws) (s s' : Accounts D) : Type 0 where
    pub user : ℕ
    pub u : UserRow
    pub redeemed : (redemption D command d s).0 ≡ some user
    pub found : user_by_id D user s ≡ some u
    pub enabled : u.status ≡ UserStatus.active
    pub renewed :
        (verify argon parameters (stored_hash_for D user s') command.password).valid ≡ true
    pub after : UserRow
    pub recovered : user_by_id D user s' ≡ some after
    pub no_failures : after.failed_login_count ≡ 0
    pub unlocked : after.locked_until ≡ none
    -- confirmed when the token was redeemed, or before
    pub confirmed :
        ((u.email_verified_at ≡ none) × (after.email_verified_at ≡ some d.consumed_at))
        ⊎ ((at : ℕ) × (u.email_verified_at ≡ some at) × (after.email_verified_at ≡ some at))
    pub kept : (after.email ≡ u.email) × (after.status ≡ u.status)
    pub spent : s'.tokens ≡ (redemption D command d s).1
    pub ended :
        s'.sessions
        ≡ (revoke_all_for_user D.sessions D.redis policy user none d.revoked_at s.sessions).1

  end_sessions-ok :
      (d : ResetDraws) (x : Result (ℕ × Accounts D)) (s : Accounts D) (a : Unit {0})
      (s' : Accounts D)
      → end_sessions D policy d (settle s x) ≡ (ok a, s')
      → (user : ℕ) × (s₁ : Accounts D) × (x ≡ ok (user, s₁))
        × (s' ≡ record s₁ {
          sessions =
              (revoke_all_for_user D.sessions D.redis policy user none d.revoked_at s₁.sessions).1;
        })
  unfolding end_sessions
  end_sessions-ok d (ok (user, s₁)) s a s' e = (user, s₁, refl, cc)
  end_sessions-ok d (err f) s a s' e = cc

  -- The record of a commit is kept by the revocation that follows it.
  completed :
      (command : ResetCommand) (d : ResetDraws) (s s₁ : Accounts D) (user : ℕ)
      → Recovers D command (hash_password argon parameters command.password d.salt) d s user s₁
      → Completes command d s (record s₁ {
        sessions =
            (revoke_all_for_user D.sessions D.redis policy user none d.revoked_at s₁.sessions).1;
      })
  unfolding stored_hash_for user_by_id credential_of verify
  completed command d s s₁ user r = record {
    user = user;
    u = r.u;
    redeemed = r.redeemed;
    found = r.found;
    enabled = is_active_user-active r.u.status r.enabled;
    renewed = rw (r.credited, r.hash, argon.verify-hash parameters command.password d.salt) refl;
    after = set_recovered d.consumed_at r.u;
    recovered = r.recovered;
    no_failures = refl;
    unlocked = refl;
    confirmed = confirmed_date d.consumed_at r.u.email_verified_at;
    kept = (refl, refl);
    spent = r.spent;
    ended =
        ap (λ x. (revoke_all_for_user D.sessions D.redis policy user none d.revoked_at x).1)
          r.sessions;
  }

  pub reset-Completes :
      (breached : Bool) (command : ResetCommand) (d : ResetDraws) (s : Accounts D) (a : Unit {0})
      (s' : Accounts D)
      → reset D argon parameters policy breached command d s ≡ (ok a, s')
      → Completes command d s s'
  unfolding reset transaction
  reset-Completes true command d s a s' e = cc
  reset-Completes false command d s a s' e =
      let (user, s₁, committed, state) = end_sessions-ok d _ s a s' e in
      subst (Completes command d s) (sym state)
        (completed command d s s₁ user (reset_tx-Recovers D command _ d s user s₁ committed))

  -- After a reset that answers while Redis does, the token of every session that the account had
  -- live resolves to `revoked`, after any later sequence of requests and of expiries, evictions and
  -- outages of the cache, where every new token's hash is on no row yet.
  pub reset-resolve :
      (breached : Bool) (command : ResetCommand) (d : ResetDraws) (s : Accounts D) (a : Unit {0})
      (s' : Accounts D) (h : ℕ) (row : SessionRow) (t : State D.sessions D.redis)
      → reset D argon parameters policy breached command d s ≡ (ok a, s')
      → (redemption D command d s).0 ≡ some row.user_id
      → find_by_token_hash D.sessions h s.sessions.rows ≡ some row
      → is_none row.revoked_at ≡ true
      → D.redis.answers s.sessions.cache ≡ true
      → Steps D.sessions D.redis policy s'.sessions t
      → (now : ℕ) → (resolve D.sessions D.redis policy h now t).0 ≡ revoked
  unfolding revoke_all_for_user
  reset-resolve breached command d s a s' h row t e owned by_hash live up steps now =
      let c = reset-Completes breached command d s a s' e in
      let same : c.user ≡ row.user_id = cc (c.redeemed, owned) in
      revoke_many-resolve D.sessions D.redis policy
        (record { user_id = c.user; organization_id = none; except_session_id = none }) h row
        d.revoked_at s.sessions t by_hash (rw ((==_iff row.user_id c.user).1 (sym same), live) refl)
        up (subst (λ x. Steps D.sessions D.redis policy x t) c.ended steps) now

  reset_tx-refused :
      (command : ResetCommand) (fresh : ℕ) (d : ResetDraws) (s : Accounts D)
      → (redemption D command d s).0 ≡ none
      → reset_tx D command fresh d s ≡ err token_invalid
  unfolding reset_tx redeem
  reset_tx-refused command fresh d s e =
      or_throw (redeem D command.token_hash d.consumed_at) _ s token_invalid
        (ap (λ o. or_fail o token_invalid (record s { tokens = (redemption D command d s).1 })) e)

  -- A reset whose token is refused changes nothing.
  reset-refused :
      (breached : Bool) (command : ResetCommand) (d : ResetDraws) (s : Accounts D)
      → (redemption D command d s).0 ≡ none
      → reset D argon parameters policy breached command d s
        ≡ (err (if breached then password_breached else token_invalid), s)
  unfolding reset transaction end_sessions
  reset-refused true command d s e = refl
  reset-refused false command d s e =
      ap (λ x. end_sessions D policy d (settle s x))
        (reset_tx-refused command (hash_password argon parameters command.password d.salt) d s e)

  -- A reset link works once: after a reset that answers, where the token's hash stands on one row at
  -- most, another with the same token answers a refusal and changes nothing, after any sequence of
  -- calls that mint tokens of new hashes and redeem tokens.
  pub reset-once :
      (breached : Bool) (command : ResetCommand) (d : ResetDraws) (s : Accounts D) (a : Unit {0})
      (s' t : Accounts D) (again : ResetCommand) (e : ResetDraws)
      → count_if (has_hash command.token_hash) (D.tokens.rows s.tokens) ≤ 1
      → reset D argon parameters policy breached command d s ≡ (ok a, s')
      → (ttl : TtlSeconds) → TokenSteps D.tokens ttl s'.tokens t.tokens
      → again.token_hash ≡ command.token_hash
      → reset D argon parameters policy false again e t ≡ (err token_invalid, t)
  reset-once breached command d s a s' t again e unique done ttl steps same =
      let c = reset-Completes breached command d s a s' done in
      reset-refused false again e t (
        subst
          (λ h.
            (consume_token D.tokens h VerificationPurpose.password_reset e.consumed_at t.tokens).0
            ≡ none)
          (sym same)
          (consume-once D.tokens ttl command.token_hash VerificationPurpose.password_reset
            d.consumed_at s.tokens t.tokens c.user unique c.redeemed
            (subst (λ x. TokenSteps D.tokens ttl x t.tokens) c.spent steps)
            VerificationPurpose.password_reset e.consumed_at))
