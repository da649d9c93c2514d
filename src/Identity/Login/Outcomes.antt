-- ===== src/Identity/Login/Outcomes.antt =====
-- What `login` answers, and what a login that is answered had: the account, the password, the lock,
-- and the session it leaves.
use sstsaas_pv.Common.{
  ℕ, ◌==◌, ◌≡◌, refl, inl, inr, Bool, true, false, Option, none, some, if◌then◌else◌, Bool-cases,
  ap, subst, ==_iff, ==_refl, Option-cases, ◌∙◌, ◌⊎◌, ◌≤◌, ◌<◌, ◌&&◌, is_some, ◌∷◌, find?,
  find?-holds, counted-found, and_left, and_right, arith,
}
use sstsaas_pv.Common.Table.Lookup.{find_first-created}
use sstsaas_pv.Access.Faults.{Fault, invalid_credentials, Result, ok, err}
use sstsaas_pv.Access.Runs.{settle}
use sstsaas_pv.Tenancy.Rows.{RequestContext}
use sstsaas_pv.Sessions.Rows.{SessionPolicy, SessionCreateData, SessionRow, SessionStatus, row_of}
use sstsaas_pv.Sessions.Repository.{find_by_token_hash}
use sstsaas_pv.Sessions.Service.{issue, issue_data, issued, IssuedSession}
use sstsaas_pv.Identity.Lockout.{is_locked}
use sstsaas_pv.Identity.Passwords.{Argon2, Argon2Parameters, PasswordVerification, verify}
use sstsaas_pv.Identity.Rows.{UserRow, UserStatus, FactorRow, is_active_user, is_active_user-active}
use sstsaas_pv.Identity.Store.{
  IdentityDatabase, Accounts, transaction, record_platform_event, user_by_email,
}
use sstsaas_pv.Identity.Login.{
  LoginCommand, LoginResult, authenticated, mfa_required, Draws, is_open, lapsed, same_value,
  holds_hash, stored_hash_for, clear_failures, has_confirmed_factor, upgrade, rehash_credential,
  credential_still_current, login_input, conclude_login, issue_session, after_commit, succeed_with,
  succeed, decide, stored_hash, login,
}

-- `LoginResult`, of the session issued.
abbrev pub answer_of : Bool → IssuedSession → LoginResult
answer_of mfa x =
    if mfa then mfa_required x.token else authenticated x.token x.cookie_max_age_seconds

pub same_value-eq : (a b : Option ℕ) → same_value a b ≡ true → a ≡ b
same_value-eq none none e = refl
same_value-eq none (some b) e = cc
same_value-eq (some a) none e = cc
same_value-eq (some a) (some b) e = ap some ((==_iff a b).0 e)

module _ (D : IdentityDatabase) (argon : Argon2) (parameters : Argon2Parameters)
    (policy : SessionPolicy) where
  -- The verification that a login makes.
  abbrev pub verification : LoginCommand → Accounts D → PasswordVerification
  verification command s =
      verify argon parameters
        (stored_hash D argon parameters policy (user_by_email D command.email s) s) command.password

  -- A password that does not verify is refused in the same way whether there is no account, its
  -- account is locked or disabled, or neither.
  pub login-wrong_password :
      (command : LoginCommand) (d : Draws) (s : Accounts D)
      → (verification command s).valid ≡ false
      → (login D argon parameters policy command d s).0 ≡ err invalid_credentials
  unfolding login decide
  login-wrong_password command d s wrong = elim (Option-cases (user_by_email D command.email s)) [
    | inl missing ↦ rw missing refl
    | inr (u, found) ↦ elim (Bool-cases (is_locked u.locked_until d.checked_at)) [
      | inl held ↦ rw (found, held, rw found at wrong) refl
      | inr free ↦ rw (found, free, rw found at wrong) refl
    ]
  ]

  -- An attempt while the account found is locked.
  pub login-during_lock :
      (command : LoginCommand) (d : Draws) (s : Accounts D) (u : UserRow)
      → user_by_email D command.email s ≡ some u
      → is_locked u.locked_until d.checked_at ≡ true
      → login D argon parameters policy command d s ≡ (
        err (if (verification command s).valid then Fault.account_locked else invalid_credentials),
        s,
      )
  unfolding login decide
  login-during_lock command d s u found held = rw (found, held) refl

  -- The row of the session that a login issues.
  abbrev pub row_for : ℕ → Bool → LoginCommand → Draws → SessionCreateData
  row_for user mfa command d =
      issue_data policy (login_input D argon parameters policy user mfa command) d.session_id
        d.token_hash d.issued_at

  -- No lock, or one that is over.
  abbrev pub IsUnlocked : Option ℕ → ℕ → Type 0
  IsUnlocked locked_until now =
      (locked_until ≡ none) ⊎ ((until : ℕ) × (locked_until ≡ some until) × (until ≤ now))

  -- A session that waits for a second factor, or one that is complete, with its answer.
  abbrev pub IsHalfway : Draws → SessionRow → LoginResult → Type 0
  IsHalfway d row r =
      (row.status ≡ SessionStatus.pending_mfa)
      × (row.remember_me ≡ false)
      × (r ≡ mfa_required d.token)

  abbrev pub IsWhole : LoginCommand → Draws → SessionRow → LoginResult → Type 0
  IsWhole command d row r =
      (row.status ≡ SessionStatus.active)
      × (row.remember_me ≡ command.remember_me)
      × ((age : Option ℕ) × (r ≡ authenticated d.token age))

  -- What a login that answers had and leaves.
  pub record Admits (command : LoginCommand) (d : Draws) (s : Accounts D) (r : LoginResult)
      (s' : Accounts D) : Type 0 where
    pub u : UserRow
    pub found : D.users.find_first (λ x. x.email == command.email) s.users ≡ some u
    pub verified :
        (verify argon parameters (stored_hash_for D u.id s) command.password).valid ≡ true
    pub enabled : u.status ≡ UserStatus.active
    pub unlocked : IsUnlocked u.locked_until d.checked_at
    -- nor was it locked in the meantime
    pub still : UserRow
    pub stored : find? (is_open u.id d.written_at) (D.users.rows s.users) ≡ some still
    pub same_user : still.id ≡ u.id
    pub still_open : IsUnlocked still.locked_until d.written_at
    -- the session
    pub row : SessionRow
    pub session : D.sessions.rows s'.sessions.rows ≡ row ∷ D.sessions.rows s.sessions.rows
    pub by_hash : find_by_token_hash D.sessions d.token_hash s'.sessions.rows ≡ some row
    pub owner : row.user_id ≡ u.id
    pub alive : row.revoked_at ≡ none
    pub no_factor_yet : row.mfa_completed_at ≡ none
    pub no_organization : row.active_organization_id ≡ none
    pub factor :
        ((f : FactorRow) × (D.factors.find_first
              (λ x. x.user_id == u.id && is_some x.confirmed_at)
              s.factors
            ≡ some f)
          × IsHalfway d row r)
        ⊎ ((D.factors.find_first (λ x. x.user_id == u.id && is_some x.confirmed_at) s.factors
              ≡ none)
            × IsWhole command d row r)
    pub current :
        (verify argon parameters (stored_hash_for D u.id s') command.password).valid ≡ true

  not_held : (o : Option ℕ) (now : ℕ) → is_locked o now ≡ false → IsUnlocked o now
  unfolding is_locked
  not_held none now h = inl refl
  not_held (some until) now h = inr (until, refl, ground arith)

  -- A row counted as open was not locked.
  open_row :
      (user now : ℕ) (s : Accounts D)
      → (D.users.updated_count (is_open user now) s.users == 0) ≡ false
      → (x : UserRow) × (find? (is_open user now) (D.users.rows s.users) ≡ some x)
        × (x.id ≡ user)
        × IsUnlocked x.locked_until now
  open_row user now s h =
      let (x, e) =
        counted-found (is_open user now) (D.users.rows s.users)
          (positive _ (rw (D.users.updated_count_lem (is_open user now) s.users) at h)) in
      let hit = find?-holds (is_open user now) (D.users.rows s.users) x e in
      (
        x,
        e,
        (==_iff x.id user).0 (and_left _ _ hit),
        lapsed_lock x.locked_until now (and_right (x.id == user) _ hit),
      )
    where
      positive : (n : ℕ) → (n == 0) ≡ false → 0 < n
      positive n e = ground arith

      lapsed_lock : (o : Option ℕ) (now : ℕ) → lapsed o now ≡ true → IsUnlocked o now
      lapsed_lock none now e = inl refl
      lapsed_lock (some until) now e = inr (until, refl, ground arith)

  -- The session that fits what the account's factors are.
  fitting :
      (user : ℕ) (command : LoginCommand) (d : Draws) (o : Option FactorRow) (r : LoginResult)
      → r ≡ answer_of (is_some o) (issued (row_for user (is_some o) command d) d.token d.issued_at)
      → ((f : FactorRow) × (o ≡ some f)
          × IsHalfway d (row_of (row_for user (is_some o) command d)) r)
        ⊎ ((o ≡ none) × IsWhole command d (row_of (row_for user (is_some o) command d)) r)
  unfolding issue_data issued
  fitting user command d none r e = inr (refl, (refl, refl, (_, e)))
  fitting user command d (some f) r e = inl (f, refl, (refl, refl, e))

  -- The part of it that follows the commit.
  pub record Concludes (user : ℕ) (mfa : Bool) (command : LoginCommand) (d : Draws) (s : Accounts D)
      (r : LoginResult) (s' : Accounts D) : Type 0 where
    pub session :
        s'.sessions.rows ≡ D.sessions.create (row_of (row_for user mfa command d)) s.sessions.rows
    pub answer : r ≡ answer_of mfa (issued (row_for user mfa command d) d.token d.issued_at)
    pub current :
        (verify argon parameters (stored_hash_for D user s') command.password).valid ≡ true

  upgrade-sessions :
      (user : ℕ) (verified : Option ℕ) (due : Bool) (password salt : ℕ) (s : Accounts D)
      → (upgrade D argon parameters policy user verified due password salt s).1.sessions
        ≡ s.sessions
  unfolding upgrade rehash_credential
  upgrade-sessions user none due password salt s = refl
  upgrade-sessions user (some h) true password salt s = refl
  upgrade-sessions user (some h) false password salt s = refl

  -- The hash in force verifies the password, as the one verified did.
  upgrade-valid :
      (user : ℕ) (verified : Option ℕ) (due : Bool) (password salt : ℕ) (s : Accounts D)
      → (verify argon parameters verified password).valid ≡ true
      → (verify argon parameters
          (upgrade D argon parameters policy user verified due password salt s).0
          password).valid
        ≡ true
  unfolding upgrade rehash_credential verify
  upgrade-valid user none due password salt s e = e
  upgrade-valid user (some h) false password salt s e = e
  upgrade-valid user (some h) true password salt s e =
      elim (Bool-cases (D.credentials.updated_count (holds_hash user h) s.credentials == 1)) [
        | inl one ↦ rw (one, argon.verify-hash parameters password salt) refl
        | inr moved ↦ rw moved e
      ]

  current-valid :
      (user : ℕ) (in_force : Option ℕ) (password : ℕ) (s : Accounts D)
      → (verify argon parameters in_force password).valid ≡ true
      → credential_still_current D argon parameters policy user in_force password s ≡ true
      → (verify argon parameters (stored_hash_for D user s) password).valid ≡ true
  unfolding credential_still_current
  current-valid user in_force password s valid e =
      elim (Bool-cases (same_value (stored_hash_for D user s) in_force)) [
        | inl same ↦ rw (same_value-eq (stored_hash_for D user s) in_force same) valid
        | inr apart ↦ rw apart at e
      ]

  conclude_login-ok :
      (user : ℕ) (mfa : Bool) (in_force : Option ℕ) (command : LoginCommand) (d : Draws)
      (x : IssuedSession) (s : Accounts D) (r : LoginResult) (s' : Accounts D)
      → conclude_login D argon parameters policy user mfa in_force command d x s ≡ (ok r, s')
      → (r ≡ answer_of mfa x)
        × (s' ≡ s)
        × (credential_still_current D argon parameters policy user in_force command.password s
            ≡ true)
  unfolding conclude_login
  conclude_login-ok user mfa in_force command d x s r s' e =
      elim (Bool-cases
        (credential_still_current D argon parameters policy user in_force command.password s)) [
          | inl same ↦ let f = rw same at e in (cc, cc, same)
          | inr moved ↦ let f = rw moved at e in cc
        ]

  after_commit-Concludes :
      (user : ℕ) (mfa : Bool) (verified : Option ℕ) (due : Bool) (command : LoginCommand)
      (d : Draws) (s : Accounts D) (r : LoginResult) (s' : Accounts D)
      → (verify argon parameters verified command.password).valid ≡ true
      → after_commit D argon parameters policy user mfa verified due command d s ≡ (ok r, s')
      → Concludes user mfa command d s r s'
  unfolding after_commit issue_session issue
  after_commit-Concludes user mfa verified due command d s r s' valid e =
      let (answer, state, current) = conclude_login-ok user mfa _ command d _ _ r s' e in
      let kept = upgrade-sessions user verified due command.password d.salt s in
      record {
        session = rw (state, kept) refl;
        answer = answer;
        current = rw state (
            current-valid user _ command.password _
              (upgrade-valid user verified due command.password d.salt s valid) current);
      }

  -- What the transaction of an accepted password leaves when it commits.
  clear_failures-ok :
      (user : ℕ) (mfa familiar : Bool) (now : ℕ) (request : RequestContext) (s : Accounts D)
      (a : Unit {0}) (s' : Accounts D)
      → clear_failures D user mfa familiar now request s ≡ ok (a, s')
      → ((D.users.updated_count (is_open user now) s.users == 0) ≡ false)
        × (s'.sessions ≡ s.sessions)
  unfolding clear_failures record_platform_event
  clear_failures-ok user mfa familiar now request s a s' e =
      elim (Bool-cases (D.users.updated_count (is_open user now) s.users == 0)) [
        | inl shut ↦ let f = rw shut at e in cc
        | inr open' ↦ let f = rw open' at e in (open', cc)
      ]

  succeed_with-ok :
      (x : Result (Unit {0} × Accounts D)) (s : Accounts D) (user : ℕ) (mfa : Bool)
      (verified : Option ℕ) (due : Bool) (command : LoginCommand) (d : Draws) (r : LoginResult)
      (s' : Accounts D)
      → succeed_with D argon parameters policy (settle s x) user mfa verified due command d
        ≡ (ok r, s')
      → (a : Unit {0}) × (s₁ : Accounts D) × (x ≡ ok (a, s₁))
        × (after_commit D argon parameters policy user mfa verified due command d s₁ ≡ (ok r, s'))
  unfolding succeed_with
  succeed_with-ok (ok (a, s₁)) s user mfa verified due command d r s' e = (a, s₁, refl, e)
  succeed_with-ok (err f) s user mfa verified due command d r s' e = cc

  decide-none :
      {P : Type 0} (stored : Option ℕ) (v : PasswordVerification) (command : LoginCommand)
      (d : Draws) (s : Accounts D) (r : LoginResult) (s' : Accounts D)
      → decide D argon parameters policy none stored v command d s ≡ (ok r, s')
      → P
  unfolding decide
  decide-none stored v command d s r s' e = cc

  -- The branches that do not refuse.
  decide-some :
      (u : UserRow) (stored : Option ℕ) (v : PasswordVerification) (command : LoginCommand)
      (d : Draws) (s : Accounts D) (r : LoginResult) (s' : Accounts D)
      → decide D argon parameters policy (some u) stored v command d s ≡ (ok r, s')
      → (is_locked u.locked_until d.checked_at ≡ false)
        × (v.valid ≡ true)
        × (is_active_user u.status ≡ true)
        × (succeed D argon parameters policy u command stored v.needs_rehash d s ≡ (ok r, s'))
  unfolding decide
  decide-some u stored v command d s r s' e =
      elim (Bool-cases (is_locked u.locked_until d.checked_at)) [
        | inl held ↦ let f = rw held at e in cc
        | inr free ↦ elim (Bool-cases v.valid) [
          | inr wrong ↦ let f = rw (free, wrong) at e in cc
          | inl right ↦ elim (Bool-cases (is_active_user u.status)) [
            | inr off ↦ let f = rw (free, right, off) at e in cc
            | inl on ↦ (free, right, on, rw (free, right, on) at e)
          ]
        ]
      ]

  decide-Admits :
      (command : LoginCommand) (d : Draws) (s : Accounts D) (r : LoginResult) (s' : Accounts D)
      (u : UserRow)
      → user_by_email D command.email s ≡ some u
      → decide D argon parameters policy
          (some u)
          (stored_hash_for D u.id s)
          (verify argon parameters (stored_hash_for D u.id s) command.password)
          command
          d
          s
        ≡ (ok r, s')
      → Admits command d s r s'
  unfolding succeed transaction stored_hash user_by_email has_confirmed_factor issue_data
      find_by_token_hash
  decide-Admits command d s r s' u found e =
      let (free, right, on, rest) = decide-some u _ _ command d s r s' e in
      let (a, s₁, committed, after) = succeed_with-ok _ s u.id _ _ _ command d r s' rest in
      let (opened, kept) =
        clear_failures-ok u.id _ _ d.written_at command.request s a s₁ committed in
      let c = after_commit-Concludes u.id _ _ _ command d s₁ r s' right after in
      let made = row_of (row_for u.id (has_confirmed_factor D u.id s) command d) in
      let created : s'.sessions.rows ≡ D.sessions.create made s.sessions.rows =
        subst (λ x. s'.sessions.rows ≡ D.sessions.create made x.rows) kept c.session in
      let (still, stored, same_user, still_open) = open_row u.id d.written_at s opened in
      record {
        u = u;
        found = found;
        verified = right;
        enabled = is_active_user-active u.status on;
        unlocked = not_held u.locked_until d.checked_at free;
        still = still;
        stored = stored;
        same_user = same_user;
        still_open = still_open;
        row = made;
        session = ap D.sessions.rows created ∙ D.sessions.rows-create made s.sessions.rows;
        by_hash =
            ap (find_by_token_hash D.sessions d.token_hash) created
            ∙ find_first-created D.sessions (λ x. x.token_hash == d.token_hash) made s.sessions.rows
                (==_refl d.token_hash);
        owner = refl;
        alive = refl;
        no_factor_yet = refl;
        no_organization = refl;
        factor =
            fitting u.id command d
              (D.factors.find_first (λ x. x.user_id == u.id && is_some x.confirmed_at) s.factors) r
              c.answer;
        current = c.current;
      }

  -- A login that is answered had an account under the address, enabled and not locked, neither when
  -- it was looked at nor when its failures were cleared, and a password that verified; it leaves one
  -- session more, the account's and not revoked, which the token's hash finds; where the account has a
  -- confirmed factor the session is pending it, is not to be remembered, and the answer says so, and
  -- where it has none the session is active and remembered as asked; and the credential that is
  -- stored at the end verifies the password.
  pub login-Admits :
      (command : LoginCommand) (d : Draws) (s : Accounts D) (r : LoginResult) (s' : Accounts D)
      → login D argon parameters policy command d s ≡ (ok r, s')
      → Admits command d s r s'
  unfolding login stored_hash
  login-Admits command d s r s' e = elim (Option-cases (user_by_email D command.email s)) [
    | inl missing ↦ missing_refused (rw missing at e)
    | inr (u, found) ↦ decide-Admits command d s r s' u found (rw found at e)
  ]
    where
      missing_refused :
          decide D argon parameters policy none none
              (verify argon parameters none command.password)
              command
              d
              s
            ≡ (ok r, s')
          → Admits command d s r s'
      missing_refused f = decide-none none _ command d s r s' f
