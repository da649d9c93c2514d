-- ===== src/Identity/Recovery/Race.antt =====
-- A login in flight beside a password reset of the same account, step by step: the reset commits
-- its transaction and then revokes the user's sessions; the login upgrades the stored hash, inserts
-- its session and then checks the credential again (`credentialStillCurrent` of
-- apps/api/src/modules/auth/login.service.ts). The steps of the two come in any order that keeps
-- each one's own, with steps of other requests between them.
use mathlib.Core.Option
use sstsaas_pv.Common.{
  ℕ, ◌==◌, ◌≡◌, refl, sym, ap, ◌∙◌, subst, inl, inr, Bool, true, false, Option, none, some, is_some,
  is_none, Bool-cases, Option-cases, ==_iff, ==_refl, ◌&&◌, ◌||◌, if◌then◌else◌,
}
use sstsaas_pv.Common.Table.Lookup.{find_first-update_many, find_first-created}
use sstsaas_pv.Access.Faults.{ok}
use sstsaas_pv.Sessions.Rows.{SessionPolicy, SessionRow, row_of}
use sstsaas_pv.Sessions.Repository.{
  find_by_token_hash, find_by_id, revoke_by_id, revoke_live_for_user, set_revoked, is_live_id,
  is_live_in,
}
use sstsaas_pv.Sessions.Service.{
  revoke, revoke_row, revoke_many, revoke_all_for_user, issue, issued, issue_data, IssuedSession,
}
use sstsaas_pv.Sessions.Service.Ended.{is_dead}
use sstsaas_pv.Sessions.Service.Revocation.{is_dead-hit, live_or_dead}
use sstsaas_pv.Identity.Passwords.{Argon2, Argon2Parameters, verify, hash_password}
use sstsaas_pv.Identity.Rows.{CredentialRow}
use sstsaas_pv.Identity.Store.{IdentityDatabase, Accounts, credential_of}
use sstsaas_pv.Identity.Login.{
  LoginCommand, Draws, stored_hash_for, rehash_credential, issue_session, conclude_login,
  holds_hash, set_hash, same_value, credential_still_current, login_input,
}
use sstsaas_pv.Identity.Login.Outcomes.{same_value-eq}
use sstsaas_pv.Identity.Recovery.{ResetCommand, ResetDraws, reset_tx, end_sessions}
use sstsaas_pv.Identity.Recovery.Outcomes.{reset_tx-Recovers}

-- How far the reset and the login are.
pub data ResetPhase : Type 0 where
  waiting committed swept : ResetPhase

pub data LoginPhase : Type 0 where
  verified inserted checked : LoginPhase

-- The login and the reset that meet: the account, the hash that the login has in force, what both
-- draw.
pub record Meeting : Type 0 where
  pub user : ℕ
  pub in_force : Option ℕ
  pub mfa : Bool
  pub login : LoginCommand
  pub draws : Draws
  pub reset : ResetCommand
  pub fresh : ℕ
  pub reset_draws : ResetDraws

module _ (D : IdentityDatabase) (argon : Argon2) (parameters : Argon2Parameters)
    (policy : SessionPolicy) (w : Meeting) where
  -- The session of the login.
  abbrev pub session_of : IssuedSession
  session_of =
      issued
        (issue_data policy (login_input D argon parameters policy w.user w.mfa w.login)
          w.draws.session_id w.draws.token_hash w.draws.issued_at)
        w.draws.token w.draws.issued_at

  abbrev pub row_by_hash : Accounts D → Option SessionRow
  row_by_hash s = find_by_token_hash D.sessions w.draws.token_hash s.sessions.rows

  -- The session's row is found under its hash and under its identifier, and is the user's.
  abbrev pub Placed : Accounts D → Type 0
  Placed s =
      (r : SessionRow) × (row_by_hash s ≡ some r)
      × (find_by_id D.sessions w.draws.session_id s.sessions.rows ≡ some r)
      × (r.user_id ≡ w.user)

  -- What a step of another request does not do: replace the user's credential, take the session's
  -- row away, or bring a revoked one back.
  pub record Quiet (s t : Accounts D) : Type 0 where
    pub credential : stored_hash_for D w.user t ≡ stored_hash_for D w.user s
    pub placed : Placed s → Placed t
    pub dead : is_dead (row_by_hash s) ≡ true → is_dead (row_by_hash t) ≡ true

  pub data RaceStep
      : ResetPhase → LoginPhase → Accounts D → ResetPhase → LoginPhase → Accounts D → Type 0 where
    -- the reset
    commits :
        (l : LoginPhase) (s t : Accounts D)
        → reset_tx D w.reset w.fresh w.reset_draws s ≡ ok (w.user, t)
        → RaceStep waiting l s committed l t
    sweeps :
        (l : LoginPhase) (s : Accounts D)
        → RaceStep committed l s swept l (end_sessions D policy w.reset_draws (ok w.user, s)).1
    -- the login
    rehashes :
        (p : ResetPhase) (s : Accounts D) (h salt : ℕ)
        → (verify argon parameters (some h) w.login.password).valid ≡ true
        → RaceStep p verified s p verified
            (rehash_credential D argon parameters policy w.user h w.login.password salt s).1
    inserts :
        (p : ResetPhase) (s : Accounts D)
        → RaceStep p verified s p inserted
            (issue_session D argon parameters policy w.user w.mfa w.login w.draws s).1
    checks :
        (p : ResetPhase) (s : Accounts D)
        → RaceStep p inserted s p checked
            (conclude_login D argon parameters policy w.user w.mfa w.in_force w.login w.draws
              session_of s).1
    -- another request
    others : (p : ResetPhase) (l : LoginPhase) (s t : Accounts D) → Quiet s t → RaceStep p l s p l t

  pub data RaceSteps
      : ResetPhase → LoginPhase → Accounts D → ResetPhase → LoginPhase → Accounts D → Type 0 where
    done : (p : ResetPhase) (l : LoginPhase) (s : Accounts D) → RaceSteps p l s p l s
    next :
        (p q r : ResetPhase) (l m n : LoginPhase) (s t u : Accounts D)
        → RaceStep p l s q m t
        → RaceSteps q m t r n u
        → RaceSteps p l s r n u

  -- What holds at each pair of phases.
  abbrev pub Renewed : ResetPhase → Accounts D → Type 0
  Renewed waiting s = Unit
  Renewed committed s = stored_hash_for D w.user s ≡ some w.fresh
  Renewed swept s = stored_hash_for D w.user s ≡ some w.fresh

  abbrev pub Present : LoginPhase → Accounts D → Type 0
  Present verified s = Unit
  Present inserted s = Placed s
  Present checked s = Placed s

  abbrev pub Over : ResetPhase → LoginPhase → Accounts D → Type 0
  Over swept checked s = is_dead (row_by_hash s) ≡ true
  Over _ _ s = Unit

  pub record Holds (p : ResetPhase) (l : LoginPhase) (s : Accounts D) : Type 0 where
    pub renewed : Renewed p s
    pub present : Present l s
    pub over : Over p l s

  -- A revocation of rows leaves the session's row in its place.
  Placed-revoked :
      (q : SessionRow → Bool) (at : ℕ) (s t : Accounts D)
      → t.sessions.rows ≡ D.sessions.update_many q (set_revoked at) s.sessions.rows
      → Placed s
      → Placed t
  unfolding find_by_token_hash find_by_id
  Placed-revoked q at s t e (r, by_hash, by_id, mine) = (
    (if q r then set_revoked at r else r),
    rw e (
        find_first-update_many D.sessions (λ x. x.token_hash == w.draws.token_hash) q
          (set_revoked at) s.sessions.rows r (λ x. refl) by_hash),
    rw e (
        find_first-update_many D.sessions (λ x. x.id == w.draws.session_id) q (set_revoked at)
          s.sessions.rows r (λ x. refl) by_id),
    kept (q r),
  )
    where
      kept : (b : Bool) → (if b then set_revoked at r else r).user_id ≡ w.user
      kept true = mine
      kept false = mine

  -- The row that a revocation meets is dead after it.
  dead_after :
      (q : SessionRow → Bool) (at : ℕ) (s t : Accounts D) (r : SessionRow)
      → t.sessions.rows ≡ D.sessions.update_many q (set_revoked at) s.sessions.rows
      → row_by_hash s ≡ some r
      → is_some r.revoked_at || q r ≡ true
      → is_dead (row_by_hash t) ≡ true
  dead_after q at s t r e by_hash hit =
      rw e (
        is_dead-hit D.sessions D.redis policy q at w.draws.token_hash r s.sessions.rows by_hash hit)

  commits-renewed :
      (s t : Accounts D)
      → reset_tx D w.reset w.fresh w.reset_draws s ≡ ok (w.user, t)
      → (stored_hash_for D w.user t ≡ some w.fresh) × (t.sessions ≡ s.sessions)
  unfolding stored_hash_for
  commits-renewed s t e =
      let r = reset_tx-Recovers D w.reset w.fresh w.reset_draws s w.user t e in
      (rw (r.credited, r.hash) refl, r.sessions)

  -- The state after the sweep.
  abbrev pub after_sweep : Accounts D → Accounts D
  after_sweep s = (end_sessions D policy w.reset_draws (ok w.user, s)).1

  sweeps-rows :
      (s : Accounts D)
      → ((after_sweep s).sessions.rows
          ≡ D.sessions.update_many
              (is_live_in
                (record { user_id = w.user; organization_id = none; except_session_id = none }))
              (set_revoked w.reset_draws.revoked_at)
              s.sessions.rows)
        × (stored_hash_for D w.user (after_sweep s) ≡ stored_hash_for D w.user s)
  unfolding end_sessions revoke_all_for_user revoke_many revoke_live_for_user stored_hash_for
      credential_of
  sweeps-rows s = (refl, refl)

  sweeps-dead : (s : Accounts D) → Placed s → is_dead (row_by_hash (after_sweep s)) ≡ true
  sweeps-dead s (r, by_hash, by_id, mine) =
      dead_after _ w.reset_draws.revoked_at s (after_sweep s) r (sweeps-rows s).0 by_hash
        (rw ((==_iff r.user_id w.user).1 mine) (some_or_none r.revoked_at))
    where
      some_or_none : (o : Option ℕ) → is_some o || is_none o ≡ true
      some_or_none none = refl
      some_or_none (some a) = refl

  -- The state after the insertion, and after the check.
  abbrev pub after_insert : Accounts D → Accounts D
  after_insert s = (issue_session D argon parameters policy w.user w.mfa w.login w.draws s).1

  inserts-Placed : (s : Accounts D) → Placed (after_insert s)
  unfolding issue_session issue issue_data find_by_token_hash find_by_id
  inserts-Placed s = (
    row_of (
        issue_data policy (login_input D argon parameters policy w.user w.mfa w.login)
          w.draws.session_id w.draws.token_hash w.draws.issued_at),
    find_first-created D.sessions (λ x. x.token_hash == w.draws.token_hash) _ s.sessions.rows
        (==_refl w.draws.token_hash),
    find_first-created D.sessions (λ x. x.id == w.draws.session_id) _ s.sessions.rows
        (==_refl w.draws.session_id),
    refl,
  )

  inserts-credential :
      (s : Accounts D) → stored_hash_for D w.user (after_insert s) ≡ stored_hash_for D w.user s
  unfolding issue_session stored_hash_for credential_of
  inserts-credential s = refl

  abbrev pub after_check : Accounts D → Accounts D
  after_check s =
      (conclude_login D argon parameters policy w.user w.mfa w.in_force w.login w.draws session_of
        s).1

  abbrev pub is_current : Accounts D → Bool
  is_current s =
      credential_still_current D argon parameters policy w.user w.in_force w.login.password s

  checks-current : (s : Accounts D) → is_current s ≡ true → after_check s ≡ s
  unfolding conclude_login
  checks-current s same = rw (after_check, same) refl

  checks-moved :
      (s : Accounts D)
      → is_current s ≡ false
      → after_check s ≡ record s {
        sessions =
            (revoke D.sessions D.redis policy w.draws.session_id w.draws.revoked_at s.sessions).1;
      }
  unfolding conclude_login issued issue_data
  checks-moved s moved = rw (after_check, moved) refl

  checks-credential :
      (s : Accounts D) → stored_hash_for D w.user (after_check s) ≡ stored_hash_for D w.user s
  unfolding stored_hash_for credential_of
  checks-credential s = elim (Bool-cases (is_current s)) [
    | inl same ↦ ap (λ t. stored_hash_for D w.user t) (checks-current s same)
    | inr moved ↦ ap (λ t. stored_hash_for D w.user t) (checks-moved s moved)
  ]

  -- A check that fails revokes the session's row.
  checks-rows :
      (s : Accounts D) (r : SessionRow)
      → find_by_id D.sessions w.draws.session_id s.sessions.rows ≡ some r
      → is_current s ≡ false
      → (after_check s).sessions.rows
        ≡ D.sessions.update_many (is_live_id r.id) (set_revoked w.draws.revoked_at) s.sessions.rows
  unfolding revoke revoke_row revoke_by_id
  checks-rows s r by_id moved = ap (λ t. t.sessions.rows) (checks-moved s moved) ∙ rw by_id refl

  checks-Placed : (s : Accounts D) → Placed s → Placed (after_check s)
  checks-Placed s (r, by_hash, by_id, mine) = elim (Bool-cases (is_current s)) [
    | inl same ↦ subst Placed (sym (checks-current s same)) (r, by_hash, by_id, mine)
    | inr moved ↦
        Placed-revoked (is_live_id r.id) w.draws.revoked_at s (after_check s)
          (checks-rows s r by_id moved) (r, by_hash, by_id, mine)
  ]

  checks-dead :
      (s : Accounts D)
      → Placed s
      → is_current s ≡ false
      → is_dead (row_by_hash (after_check s)) ≡ true
  checks-dead s (r, by_hash, by_id, mine) moved =
      dead_after (is_live_id r.id) w.draws.revoked_at s (after_check s) r
        (checks-rows s r by_id moved) by_hash (live_or_dead D.sessions D.redis policy r)

  -- Once the credential is the fresh one, which the login's password does not open, the check fails.
  checks-fails :
      (s : Accounts D)
      → (verify argon parameters (some w.fresh) w.login.password).valid ≡ false
      → (verify argon parameters w.in_force w.login.password).valid ≡ true
      → stored_hash_for D w.user s ≡ some w.fresh
      → is_current s ≡ false
  unfolding credential_still_current
  checks-fails s other valid renewed =
      rw renewed (elim (Bool-cases (same_value (some w.fresh) w.in_force)) [
        | inr apart ↦ rw (apart, other) refl
        | inl same ↦
            let opened : (verify argon parameters (some w.fresh) w.login.password).valid ≡ true =
              subst (λ o. (verify argon parameters o w.login.password).valid ≡ true)
                (sym (same_value-eq (some w.fresh) w.in_force same)) valid in
            let absurd : false ≡ true = sym other ∙ opened in cc
      ])

  -- The upgrade of a hash that the login's password opens leaves the fresh credential alone.
  rehashes-credential :
      (s : Accounts D) (h salt : ℕ)
      → (verify argon parameters (some h) w.login.password).valid ≡ true
      → (verify argon parameters (some w.fresh) w.login.password).valid ≡ false
      → stored_hash_for D w.user s ≡ some w.fresh
      → stored_hash_for D w.user
          (rehash_credential D argon parameters policy w.user h w.login.password salt s).1
        ≡ some w.fresh
  unfolding stored_hash_for credential_of rehash_credential
  rehashes-credential s h salt valid other renewed =
      elim (Option-cases (D.credentials.find_first (λ c. c.user_id == w.user) s.credentials)) [
        | inl missing ↦ let f : none ≡ some w.fresh = rw missing at renewed in cc
        | inr (c, found) ↦
            let hash : c.password_hash ≡ w.fresh = some-eq (rw found at renewed) in
            ap (Option.map (λ x. x.password_hash)) (
              find_first-update_many D.credentials (λ x. x.user_id == w.user) (holds_hash w.user h)
                (set_hash (hash_password argon parameters w.login.password salt)) s.credentials c
                (λ x. refl) found)
            ∙ rw (missed c hash) (ap some hash)
      ]
    where
      and_false : (b : Bool) → b && false ≡ false
      and_false true = refl
      and_false false = refl

      some-eq : {a b : ℕ} → some a ≡ some b → a ≡ b
      some-eq e = cc

      apart : (c : CredentialRow) → c.password_hash ≡ w.fresh → (c.password_hash == h) ≡ false
      apart c hash = elim (Bool-cases (c.password_hash == h)) [
        | inr no_match ↦ no_match
        | inl same ↦
            let these : w.fresh ≡ h = sym hash ∙ (==_iff c.password_hash h).0 same in
            let opened : (verify argon parameters (some w.fresh) w.login.password).valid ≡ true =
              subst (λ n. (verify argon parameters (some n) w.login.password).valid ≡ true)
                (sym these) valid in
            let absurd : false ≡ true = sym other ∙ opened in cc
      ]

      missed : (c : CredentialRow) → c.password_hash ≡ w.fresh → holds_hash w.user h c ≡ false
      missed c hash = rw (apart c hash) (and_false (c.user_id == w.user))

  module _ (other : (verify argon parameters (some w.fresh) w.login.password).valid ≡ false)
      (valid : (verify argon parameters w.in_force w.login.password).valid ≡ true) where
    Renewed-kept :
        (p : ResetPhase) (s t : Accounts D)
        → stored_hash_for D w.user t ≡ stored_hash_for D w.user s
        → Renewed p s
        → Renewed p t
    Renewed-kept waiting s t same r = tt
    Renewed-kept committed s t same r = same ∙ r
    Renewed-kept swept s t same r = same ∙ r

    Present-kept :
        (l : LoginPhase) (s t : Accounts D) → (Placed s → Placed t) → Present l s → Present l t
    Present-kept verified s t keep h = tt
    Present-kept inserted s t keep h = keep h
    Present-kept checked s t keep h = keep h

    Over-kept :
        (p : ResetPhase) (l : LoginPhase) (s t : Accounts D)
        → (is_dead (row_by_hash s) ≡ true → is_dead (row_by_hash t) ≡ true)
        → Over p l s
        → Over p l t
    Over-kept swept checked s t keep h = keep h
    Over-kept swept verified s t keep h = tt
    Over-kept swept inserted s t keep h = tt
    Over-kept committed l s t keep h = tt
    Over-kept waiting l s t keep h = tt

    same_sessions : (s t : Accounts D) → t.sessions ≡ s.sessions → Placed s → Placed t
    same_sessions s t e (r, by_hash, by_id, mine) = (r, rw e by_hash, rw e by_id, mine)

    commits-Holds :
        (l : LoginPhase) (s t : Accounts D)
        → reset_tx D w.reset w.fresh w.reset_draws s ≡ ok (w.user, t)
        → Holds waiting l s
        → Holds committed l t
    commits-Holds l s t e h =
        let (renewed, kept) = commits-renewed s t e in
        record {
          renewed = renewed;
          present = Present-kept l s t (same_sessions s t kept) h.present;
          over = tt;
        }

    sweeps-Holds :
        (l : LoginPhase) (s : Accounts D) → Holds committed l s → Holds swept l (after_sweep s)
    sweeps-Holds l s h = record {
      renewed = (sweeps-rows s).1 ∙ h.renewed;
      present =
          Present-kept l s (after_sweep s)
            (Placed-revoked _ w.reset_draws.revoked_at s (after_sweep s) (sweeps-rows s).0)
            h.present;
      over = ended l h.present;
    }
      where
        ended : (l : LoginPhase) → Present l s → Over swept l (after_sweep s)
        ended verified p = tt
        ended inserted p = tt
        ended checked p = sweeps-dead s p

    rehashes-Holds :
        (p : ResetPhase) (s : Accounts D) (h salt : ℕ)
        → (verify argon parameters (some h) w.login.password).valid ≡ true
        → Holds p verified s
        → Holds p verified
            (rehash_credential D argon parameters policy w.user h w.login.password salt s).1
    rehashes-Holds waiting s h salt opened k = record { renewed = tt; present = tt; over = tt }
    rehashes-Holds committed s h salt opened k = record {
      renewed = rehashes-credential s h salt opened other k.renewed;
      present = tt;
      over = tt;
    }
    rehashes-Holds swept s h salt opened k = record {
      renewed = rehashes-credential s h salt opened other k.renewed;
      present = tt;
      over = tt;
    }

    inserts-Holds :
        (p : ResetPhase) (s : Accounts D) → Holds p verified s → Holds p inserted (after_insert s)
    inserts-Holds p s h = record {
      renewed = Renewed-kept p s (after_insert s) (inserts-credential s) h.renewed;
      present = inserts-Placed s;
      over = open_still p;
    }
      where
        open_still : (p : ResetPhase) → Over p inserted (after_insert s)
        open_still waiting = tt
        open_still committed = tt
        open_still swept = tt

    checks-Holds :
        (p : ResetPhase) (s : Accounts D) → Holds p inserted s → Holds p checked (after_check s)
    checks-Holds p s h = record {
      renewed = Renewed-kept p s (after_check s) (checks-credential s) h.renewed;
      present = checks-Placed s h.present;
      over = ended p h.renewed;
    }
      where
        ended : (p : ResetPhase) → Renewed p s → Over p checked (after_check s)
        ended waiting r = tt
        ended committed r = tt
        ended swept r = checks-dead s h.present (checks-fails s other valid r)

    RaceStep-Holds :
        (p q : ResetPhase) (l m : LoginPhase) (s t : Accounts D)
        → RaceStep p l s q m t
        → Holds p l s
        → Holds q m t
    RaceStep-Holds p q l m s t (commits l' s' t' e) h = commits-Holds l s t e h
    RaceStep-Holds p q l m s t (sweeps l' s') h = sweeps-Holds l s h
    RaceStep-Holds p q l m s t (rehashes p' s' k salt opened) h = rehashes-Holds p s k salt opened h
    RaceStep-Holds p q l m s t (inserts p' s') h = inserts-Holds p s h
    RaceStep-Holds p q l m s t (checks p' s') h = checks-Holds p s h
    RaceStep-Holds p q l m s t (others p' l' s' t' quiet) h = record {
      renewed = Renewed-kept p s t quiet.credential h.renewed;
      present = Present-kept l s t quiet.placed h.present;
      over = Over-kept p l s t quiet.dead h.over;
    }

    RaceSteps-Holds :
        (p q : ResetPhase) (l m : LoginPhase) (s t : Accounts D)
        → RaceSteps p l s q m t
        → Holds p l s
        → Holds q m t
    RaceSteps-Holds p q l m s t (done _ _ _) h = h
    RaceSteps-Holds p r l n s u (next _ q _ _ m _ _ t _ step steps) h =
        RaceSteps-Holds q r m n t u steps (RaceStep-Holds p q l m s t step h)

    -- Where the password that a login verified opens the hash that it has in force and does not open
    -- the one that a reset of the account stores: however the steps of the two fall together, with
    -- steps of other requests between them that leave the credential and the session alone, when
    -- both are through the session of the login is revoked.
    pub race-revoked :
        (s t : Accounts D)
        → RaceSteps waiting verified s swept checked t
        → is_dead (row_by_hash t) ≡ true
    race-revoked s t steps =
        (RaceSteps-Holds waiting swept verified checked s t steps
          (record { renewed = tt; present = tt; over = tt })).over
