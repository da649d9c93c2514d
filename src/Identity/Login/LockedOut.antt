-- ===== src/Identity/Login/LockedOut.antt =====
-- The failure that locks an account, and the attempts that follow it.
use sstsaas_pv.Common.{
  ℕ, suc, ◌+◌, ◌≤◌, ◌<◌, ◌==◌, ◌≡◌, refl, sym, subst, ◌∙◌, inl, inr, true, false, Option, none,
  some, List, All, All-map, count_if, find?-alone, ==_iff, arith,
}
use sstsaas_pv.Common.Table.Lookup.{find_first-holds}
use sstsaas_pv.Sessions.Rows.{SessionPolicy}
use sstsaas_pv.Identity.Lockout.{is_locked}
use sstsaas_pv.Identity.Passwords.{Argon2, Argon2Parameters, verify}
use sstsaas_pv.Identity.Rows.{UserRow}
use sstsaas_pv.Identity.Store.{IdentityDatabase, Accounts, user_by_id, user_by_email}
use sstsaas_pv.Identity.Login.{
  LoginCommand, Draws, lapsed, set_lock, add_failure, record_failure, stored_hash_for, stored_hash,
  decide, login,
}
use sstsaas_pv.Identity.Login.Failures.{IsRow, fail_at, record_failure-IsRow, record_failure-count}
use sstsaas_pv.Identity.Login.Pace.{locked_until_for-bounds}
use sstsaas_pv.Identity.Login.Held.{attempt_all, AllHeldOff, attempt_all-AllHeldOff}

module _ (D : IdentityDatabase) (argon : Argon2) (parameters : Argon2Parameters)
    (policy : SessionPolicy) where
  -- A wrong password for an account that is not locked is recorded.
  login-recorded :
      (command : LoginCommand) (d : Draws) (s : Accounts D) (u : UserRow)
      → user_by_email D command.email s ≡ some u
      → lapsed u.locked_until d.checked_at ≡ true
      → (verify argon parameters (stored_hash_for D u.id s) command.password).valid ≡ false
      → (login D argon parameters policy command d s).1
        ≡ record_failure D (some u) d.written_at command.request s
  unfolding login decide stored_hash is_locked
  login-recorded command d s u found free wrong =
      rw (found, not_locked u.locked_until d.checked_at free, wrong) refl
    where
      not_locked : (o : Option ℕ) (now : ℕ) → lapsed o now ≡ true → is_locked o now ≡ false
      not_locked none now e = refl
      not_locked (some until) now e = ground (arith, e)

  -- The row found by its identifier is the one found by its address.
  by_email :
      (email id : ℕ) (s : Accounts D) (u : UserRow)
      → user_by_id D id s ≡ some u
      → u.email ≡ email
      → count_if (λ v. v.email == email) (D.users.rows s.users) ≤ 1
      → user_by_email D email s ≡ some u
  unfolding user_by_id user_by_email
  by_email email id s u found same one =
      D.users.find_first_lem (λ v. v.email == email) s.users
      ∙ find?-alone (λ v. v.email == email) (λ v. v.id == id) (D.users.rows s.users) u
          (rw (D.users.find_first_lem (λ v. v.id == id) s.users) at found)
          ((==_iff u.email email).1 same) one

  -- The row that the fifth failure in a row, or a later one, leaves.
  locked_row :
      (now : ℕ) (u : UserRow)
      → lapsed u.locked_until now ≡ true
      → 4 ≤ u.failed_login_count
      → (l : ℕ) × (now + 60000 ≤ l) × (fail_at now u ≡ set_lock (some l) (add_failure u))
  locked_row now u free four = elim (locked_until_for-bounds (suc u.failed_login_count) now) [
    | inl (below, _) ↦ absurd (omega (arith, below, four))
    | inr (_, (l, e, low, high)) ↦ (l, low, rw (free, e) refl)
  ]

  -- Where an account's identifier and its address stand on no other row, it has no lock or one that
  -- is over, and it has four failures or more: a login with a wrong password locks it for a minute at least. Any sequence
  -- of attempts at the address that are checked within that minute changes nothing, and each is
  -- refused: as locked where the password is right, and as wrong credentials where it is not.
  pub login-AllHeldOff :
      (command : LoginCommand) (d : Draws) (s : Accounts D) (u : UserRow)
      (attempts : List (LoginCommand × Draws))
      → IsRow D u.id u s
      → count_if (λ v. v.email == command.email) (D.users.rows s.users) ≤ 1
      → user_by_email D command.email s ≡ some u
      → lapsed u.locked_until d.checked_at ≡ true
      → d.checked_at ≤ d.written_at
      → 4 ≤ u.failed_login_count
      → (verify argon parameters (stored_hash_for D u.id s) command.password).valid ≡ false
      → All (λ a. (a.0.email ≡ command.email) × (a.1.checked_at < d.written_at + 60000)) attempts
      → let s' = (login D argon parameters policy command d s).1 in
        ((attempt_all D argon parameters policy attempts s').1 ≡ s')
        × AllHeldOff D argon parameters policy u.id s' attempts
            (attempt_all D argon parameters policy attempts s').0
  unfolding user_by_email
  login-AllHeldOff command d s u attempts row one found free later four wrong early =
      let now = d.written_at in
      let t = record_failure D (some u) now command.request s in
      let (l, low, locked) =
        locked_row now u (still_free u.locked_until d.checked_at now free later) four in
      let u' : UserRow = set_lock (some l) (add_failure u) in
      let row' : IsRow D u.id u' t =
        subst (λ x. IsRow D u.id x t) locked
          (record_failure-IsRow D u.id now u u command.request s refl row) in
      let email : u.email ≡ command.email =
        (==_iff u.email command.email).0
          (find_first-holds D.users (λ v. v.email == command.email) s.users u found) in
      let found' : user_by_email D command.email t ≡ some u' =
        by_email command.email u.id t u' row'.0 email (
          subst (λ n. n ≤ 1)
            (sym (record_failure-count D u.id now u u command.request s refl row command.email))
            one) in
      rw (login-recorded command d s u found free wrong) (
        attempt_all-AllHeldOff D argon parameters policy command.email l t u' attempts found' refl
          (All-map (λ a e. (e.0, omega (arith, low, e.1))) attempts early))
    where
      still_free : (o : Option ℕ) (at now : ℕ) → lapsed o at ≡ true → at ≤ now → lapsed o now ≡ true
      still_free none at now e h = refl
      still_free (some until) at now e h = ground (arith, e, h)
