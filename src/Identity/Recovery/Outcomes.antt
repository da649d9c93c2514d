-- ===== src/Identity/Recovery/Outcomes.antt =====
-- What a password reset that answers had, and what it leaves.
use sstsaas_pv.Common.{
  ℕ, ◌==◌, ◌≡◌, refl, sym, ap, ◌∙◌, subst, inl, inr, Bool, true, false, not, Option, some, is_some,
  Bool-cases, Option-cases, ==_iff, ==_refl, if◌then◌else◌,
}
use sstsaas_pv.Common.Table.Lookup.{find_first-update_many, find_first-created, find_first-holds}
use sstsaas_pv.Access.Faults.{ok, token_invalid}
use sstsaas_pv.Access.Runs.{>>=-eq-ok}
use sstsaas_pv.Access.Runs.Steps.{
  IsReader, after_reader, find-IsReader, refuse-IsReader, refuse_if-ok, or_fail-ok,
}
use sstsaas_pv.Identity.Rows.{VerificationPurpose, is_active_user, UserRow, CredentialRow}
use sstsaas_pv.Identity.Store.{
  IdentityDatabase, Accounts, record_platform_event, update_user, user_by_id, credential_of,
}
use sstsaas_pv.Identity.Tokens.{consume_token}
use sstsaas_pv.Identity.Login.{holds_hash, set_hash}
use sstsaas_pv.Identity.Recovery.{
  ResetCommand, ResetDraws, set_recovered, redeem, write_credential, record_reset, apply_reset,
  reset_tx,
}

module _ (D : IdentityDatabase) where
  -- The redemption, on the token table.
  abbrev pub redemption : ResetCommand → ResetDraws → Accounts D → Option ℕ × D.tokens.Store
  redemption command d s =
      consume_token D.tokens command.token_hash VerificationPurpose.password_reset d.consumed_at
        s.tokens

  redeem-ok :
      (h now : ℕ) (s : Accounts D) (user : ℕ) (s' : Accounts D)
      → redeem D h now s ≡ ok (user, s')
      → ((consume_token D.tokens h VerificationPurpose.password_reset now s.tokens).0 ≡ some user)
        × (s' ≡ record s {
          tokens = (consume_token D.tokens h VerificationPurpose.password_reset now s.tokens).1;
        })
  unfolding redeem
  redeem-ok h now s user s' e = or_fail-ok _ token_invalid _ e

  -- The stored credential of the user is the fresh one, and only credentials were written.
  abbrev pub Recredited : ℕ → ℕ → Accounts D → Accounts D → Type 0
  Recredited user fresh s s' =
      (c : CredentialRow) × (credential_of D user s' ≡ some c)
      × (c.password_hash ≡ fresh)
      × (s' ≡ record s { credentials = s'.credentials })

  write_credential-ok :
      (user id fresh : ℕ) (s : Accounts D) (a : Unit {0}) (s' : Accounts D)
      → write_credential D user id fresh (credential_of D user s) s ≡ ok (a, s')
      → Recredited user fresh s s'
  unfolding write_credential credential_of
  write_credential-ok user id fresh s a s' e = elim (Option-cases (credential_of D user s)) [
    | inl missing ↦
        let f = rw missing at e in
        let made : CredentialRow = record { id = id; user_id = user; password_hash = fresh } in
        let state : s'.credentials ≡ D.credentials.create made s.credentials = cc in
        (
          made,
          rw
              (
                state,
                find_first-created D.credentials (λ c. c.user_id == user) made s.credentials
                    (==_refl user),
              )
              refl,
          refl,
          cc,
        )
    | inr (c, found) ↦
        elim (Bool-cases
          (D.credentials.updated_count (holds_hash user c.password_hash) s.credentials == 0)) [
            | inl lost ↦ let f = rw (found, lost) at e in cc
            | inr won ↦
                let f = rw (found, won) at e in
                let state : s'.credentials
                    ≡ D.credentials.update_many (holds_hash user c.password_hash) (set_hash fresh)
                        s.credentials =
                  cc in
                let mine : (c.user_id == user) ≡ true =
                  find_first-holds D.credentials (λ c. c.user_id == user) s.credentials c found in
                (
                  set_hash fresh c,
                  rw
                      (
                        state,
                        find_first-update_many D.credentials (λ c. c.user_id == user)
                            (holds_hash user c.password_hash) (set_hash fresh) s.credentials c
                            (λ x. refl) found,
                        mine,
                        ==_refl c.password_hash,
                      )
                      refl,
                  refl,
                  cc,
                )
          ]
  ]

  update_user-ok :
      (id : ℕ) (change : UserRow → UserRow) (s : Accounts D) (a : Unit {0}) (s' : Accounts D)
      → update_user D id change s ≡ ok (a, s')
      → s' ≡ record s { users = D.users.update_many (λ u. u.id == id) change s.users }
  unfolding update_user
  update_user-ok id change s a s' e =
      elim (Bool-cases (D.users.updated_count (λ u. u.id == id) s.users == 0)) [
        | inl missing ↦ let f = rw missing at e in cc
        | inr stored ↦ let f = rw stored at e in cc
      ]

  record_reset-ok :
      (u : UserRow) (replaced : Bool) (command : ResetCommand) (s : Accounts D) (a : Unit {0})
      (s' : Accounts D)
      → record_reset D u replaced command.request s ≡ ok (a, s')
      → s' ≡ record s { events = s'.events }
  unfolding record_reset record_platform_event
  record_reset-ok u replaced command s a s' e = cc

  -- What the writes of a reset leave.
  pub record Rewrites (u : UserRow) (fresh : ℕ) (d : ResetDraws) (s s' : Accounts D) : Type 0 where
    pub c : CredentialRow
    pub credited : credential_of D u.id s' ≡ some c
    pub hash : c.password_hash ≡ fresh
    pub users :
        s'.users ≡ D.users.update_many (λ v. v.id == u.id) (set_recovered d.consumed_at) s.users
    pub tokens : s'.tokens ≡ s.tokens
    pub sessions : s'.sessions ≡ s.sessions

  apply_reset-Rewrites :
      (u : UserRow) (command : ResetCommand) (fresh : ℕ) (d : ResetDraws) (s : Accounts D)
      (user : ℕ) (s' : Accounts D)
      → apply_reset D u (credential_of D u.id s) command fresh d s ≡ ok (user, s')
      → (user ≡ u.id) × Rewrites u fresh d s s'
  unfolding apply_reset credential_of
  apply_reset-Rewrites u command fresh d s user s' e =
      let existing = credential_of D u.id s in
      let (a, s₁, p, q) =
        >>=-eq-ok (write_credential D u.id d.credential_id fresh existing) _ s e in
      let (c, credited, hash, kept) = write_credential-ok u.id d.credential_id fresh s a s₁ p in
      let (b, s₂, p₂, q₂) = >>=-eq-ok (update_user D u.id (set_recovered d.consumed_at)) _ s₁ q in
      let wrote = update_user-ok u.id (set_recovered d.consumed_at) s₁ b s₂ p₂ in
      let (g, s₃, p₃, q₃) =
        >>=-eq-ok (record_reset D u (is_some existing) command.request) _ s₂ q₂ in
      let noted = record_reset-ok u (is_some existing) command s₂ g s₃ p₃ in
      let finished : s' ≡ s₃ = cc in
      (
        cc,
        record {
          c = c;
          credited = rw (finished, noted, wrote) credited;
          hash = hash;
          users = rw (finished, noted, wrote, kept) refl;
          tokens = rw (finished, noted, wrote, kept) refl;
          sessions = rw (finished, noted, wrote, kept) refl;
        },
      )

  -- What a reset that commits had, and what its transaction leaves.
  pub record Recovers (command : ResetCommand) (fresh : ℕ) (d : ResetDraws) (s : Accounts D)
      (user : ℕ) (s' : Accounts D) : Type 0 where
    pub u : UserRow
    pub same : u.id ≡ user
    pub redeemed : (redemption command d s).0 ≡ some user
    pub found : user_by_id D user s ≡ some u
    pub enabled : is_active_user u.status ≡ true
    pub c : CredentialRow
    pub credited : credential_of D user s' ≡ some c
    pub hash : c.password_hash ≡ fresh
    pub recovered : user_by_id D user s' ≡ some (set_recovered d.consumed_at u)
    pub spent : s'.tokens ≡ (redemption command d s).1
    pub sessions : s'.sessions ≡ s.sessions

  IsReader-credential : (user : ℕ) → IsReader {S = Accounts D} (λ s. ok (credential_of D user s, s))
  IsReader-credential user s a s' e = cc

  not-false : (b : Bool) → not b ≡ false → b ≡ true
  not-false true h = refl
  not-false false h = cc

  user_by_id-id :
      (user : ℕ) (s : Accounts D) (u : UserRow) → user_by_id D user s ≡ some u → u.id ≡ user
  unfolding user_by_id
  user_by_id-id user s u found =
      (==_iff u.id user).0 (find_first-holds D.users (λ v. v.id == user) s.users u found)

  assembled :
      (command : ResetCommand) (fresh : ℕ) (d : ResetDraws) (s s₁ : Accounts D) (user : ℕ)
      (u : UserRow) (s' : Accounts D)
      → (redemption command d s).0 ≡ some user
      → s₁ ≡ record s { tokens = (redemption command d s).1 }
      → user_by_id D user s₁ ≡ some u
      → is_active_user u.status ≡ true
      → Rewrites u fresh d s₁ s'
      → Recovers command fresh d s user s'
  unfolding user_by_id
  assembled command fresh d s s₁ user u s' redeemed state found enabled w =
      let hit : (u.id == user) ≡ true =
        find_first-holds D.users (λ v. v.id == user) s₁.users u found in
      let same : u.id ≡ user = (==_iff u.id user).0 hit in
      let kept : s₁.users ≡ s.users = rw state refl in
      let before : D.users.find_first (λ v. v.id == user) s.users ≡ some u = rw kept at found in
      let users : s'.users
          ≡ D.users.update_many (λ v. v.id == user) (set_recovered d.consumed_at) s.users =
        subst
          (λ n.
            s'.users ≡ D.users.update_many (λ v. v.id == n) (set_recovered d.consumed_at) s.users)
          same
          (w.users
            ∙ ap (D.users.update_many (λ v. v.id == u.id) (set_recovered d.consumed_at)) kept) in
      let after =
        find_first-update_many D.users (λ v. v.id == user) (λ v. v.id == user)
          (set_recovered d.consumed_at) s.users u (λ x. refl) before
        ∙ ap (λ b. some (if b then set_recovered d.consumed_at u else u)) hit in
      record {
        u = u;
        same = same;
        redeemed = redeemed;
        found = before;
        enabled = enabled;
        c = w.c;
        credited = subst (λ n. credential_of D n s' ≡ some w.c) same w.credited;
        hash = w.hash;
        recovered =
            subst
              (λ t. D.users.find_first (λ v. v.id == user) t ≡ some (set_recovered d.consumed_at u))
              (sym users) after;
        spent = w.tokens ∙ ap (λ x. x.tokens) state;
        sessions = w.sessions ∙ ap (λ x. x.sessions) state;
      }

  pub reset_tx-Recovers :
      (command : ResetCommand) (fresh : ℕ) (d : ResetDraws) (s : Accounts D) (user : ℕ)
      (s' : Accounts D)
      → reset_tx D command fresh d s ≡ ok (user, s')
      → Recovers command fresh d s user s'
  unfolding reset_tx
  reset_tx-Recovers command fresh d s user s' e =
      let (owner, s₁, p, q) = >>=-eq-ok (redeem D command.token_hash d.consumed_at) _ s e in
      let (redeemed, state) = redeem-ok command.token_hash d.consumed_at s owner s₁ p in
      after_reader _ _ s₁ (find-IsReader (user_by_id D owner) token_invalid) q λ u found q₁.
        after_reader _ _ s₁ (refuse-IsReader (λ t. not (is_active_user u.status)) token_invalid) q₁
          λ _ on q₂.
            after_reader (λ t. ok (credential_of D u.id t, t))
              (λ existing. apply_reset D u existing command fresh d) s₁ (IsReader-credential u.id)
              q₂
              λ existing read q₃.
                let known : existing ≡ credential_of D u.id s₁ = cc in
                let (whose, w) =
                  apply_reset-Rewrites u command fresh d s₁ user s' (rw known at q₃) in
                let r =
                  assembled command fresh d s s₁ owner u s' redeemed state
                    (or_fail-ok _ _ s₁ found).0 (not-false _ (refuse_if-ok _ _ s₁ on).0) w in
                subst (λ n. Recovers command fresh d s n s')
                  (sym (whose ∙ user_by_id-id owner s₁ u (or_fail-ok _ _ s₁ found).0)) r
