-- ===== src/Identity/Login/Held.antt =====
-- Attempts to log in while the account is locked.
use sstsaas_pv.Common.{
  ℕ, ◌<◌, ◌≡◌, refl, sym, ap, subst, ◌⊎◌, inl, inr, Bool, true, false, some, List, [], ◌∷◌, All,
  if◌then◌else◌, arith,
}
use sstsaas_pv.Access.Faults.{Fault, invalid_credentials, Result, err}
use sstsaas_pv.Sessions.Rows.{SessionPolicy}
use sstsaas_pv.Identity.Lockout.{is_locked}
use sstsaas_pv.Identity.Passwords.{Argon2, Argon2Parameters, verify}
use sstsaas_pv.Identity.Rows.{UserRow}
use sstsaas_pv.Identity.Store.{IdentityDatabase, Accounts, user_by_email}
use sstsaas_pv.Identity.Login.{
  LoginCommand, LoginResult, Draws, stored_hash_for, stored_hash, login,
}
use sstsaas_pv.Identity.Login.Outcomes.{login-during_lock}

module _ (D : IdentityDatabase) (argon : Argon2) (parameters : Argon2Parameters)
    (policy : SessionPolicy) where
  -- Attempts one after the other: what each answers, and the state left.
  pub attempt_all :
      List (LoginCommand × Draws) → Accounts D → List (Result LoginResult) × Accounts D
  attempt_all [] s = ([], s)
  attempt_all (a ∷ more) s =
      let (first, s₁) = login D argon parameters policy a.0 a.1 s in
      let (rest, s₂) = attempt_all more s₁ in (first ∷ rest, s₂)

  -- At the address, before the lock is over.
  abbrev pub IsEarly : ℕ → ℕ → LoginCommand × Draws → Type 0
  IsEarly email until a = (a.0.email ≡ email) × (a.1.checked_at < until)

  -- The answer that a password which does not verify gets, and the one with the right password.
  abbrev pub IsHeldOff : ℕ → Accounts D → LoginCommand × Draws → Result LoginResult → Type 0
  IsHeldOff user s a x =
      ((verify argon parameters (stored_hash_for D user s) a.0.password).valid ≡ true
        × (x ≡ err Fault.account_locked))
      ⊎ ((verify argon parameters (stored_hash_for D user s) a.0.password).valid ≡ false
          × (x ≡ err invalid_credentials))

  pub AllHeldOff : ℕ → Accounts D → List (LoginCommand × Draws) → List (Result LoginResult) → Type 0
  AllHeldOff user s [] [] = Unit
  AllHeldOff user s (a ∷ more) (x ∷ xs) = IsHeldOff user s a x × AllHeldOff user s more xs
  AllHeldOff user s _ _ = ⊥

  one_held :
      (s : Accounts D) (a : LoginCommand × Draws) (u : UserRow) (until : ℕ)
      → user_by_email D a.0.email s ≡ some u
      → u.locked_until ≡ some until
      → a.1.checked_at < until
      → ((login D argon parameters policy a.0 a.1 s).1 ≡ s)
        × IsHeldOff u.id s a (login D argon parameters policy a.0 a.1 s).0
  unfolding is_locked stored_hash
  one_held s a u until found held early =
      let locked : is_locked u.locked_until a.1.checked_at ≡ true =
        rw held (locked_early a.1.checked_at until early) in
      let e = login-during_lock D argon parameters policy a.0 a.1 s u found locked in
      (
        ap (λ x. x.1) e,
        rw (ap (λ x. x.0) e, found)
            (held_off (verify argon parameters (stored_hash_for D u.id s) a.0.password).valid),
      )
    where
      locked_early : (now until : ℕ) → now < until → is_locked (some until) now ≡ true
      locked_early now until h = ground (arith, h)

      refused : Bool → Result LoginResult
      refused b = err (if b then Fault.account_locked else invalid_credentials)

      held_off :
          (b : Bool)
          → ((b ≡ true) × (refused b ≡ err Fault.account_locked))
            ⊎ ((b ≡ false) × (refused b ≡ err invalid_credentials))
      held_off true = inl (refl, refl)
      held_off false = inr (refl, refl)

  -- While the account under an address is locked, any sequence of attempts at it that are checked
  -- before the lock is over changes nothing, and each is refused: as locked where the password is
  -- right, and as wrong credentials where it is not.
  pub attempt_all-AllHeldOff :
      (email until : ℕ) (s : Accounts D) (u : UserRow) (attempts : List (LoginCommand × Draws))
      → user_by_email D email s ≡ some u
      → u.locked_until ≡ some until
      → All (IsEarly email until) attempts
      → ((attempt_all attempts s).1 ≡ s) × AllHeldOff u.id s attempts (attempt_all attempts s).0
  unfolding attempt_all AllHeldOff
  attempt_all-AllHeldOff email until s u [] found held early = (refl, tt)
  attempt_all-AllHeldOff email until s u (a ∷ more) found held ((same, before), early) =
      let (stays, off) =
        one_held s a u until (subst (λ n. user_by_email D n s ≡ some u) (sym same) found) held
          before in
      let (kept, rest) = attempt_all-AllHeldOff email until s u more found held early in
      rw stays (kept, (off, rest))
