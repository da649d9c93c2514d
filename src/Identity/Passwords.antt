-- ===== src/Identity/Passwords.antt =====
-- apps/api/src/modules/auth/password.service.ts: `PasswordService` over the Argon2 library, which is
-- an interface. A password, a salt and a stored hash are numbers.
use sstsaas_pv.Common.{ℕ, ◌≡◌, ltb, Bool, true, false, ◌||◌, Option, none, some}

-- `Argon2Parameters`
pub record Argon2Parameters : Type 0 where
  pub memory_cost_kib : ℕ
  pub time_cost : ℕ
  pub parallelism : ℕ

-- The library, and `parseArgon2Phc`, which reads the parameters back from the text of a hash.
pub record Argon2 : Type 0 where
  -- a password and a salt
  pub hash : Argon2Parameters → ℕ → ℕ → ℕ
  -- a hash and a password; `none` when the call throws
  pub verify : ℕ → ℕ → Option Bool
  pub parse_phc : ℕ → Option Argon2Parameters
  pub verify-hash :
      (p : Argon2Parameters) (password salt : ℕ)
      → verify (hash p password salt) password ≡ some true

-- `PasswordVerification`
pub record PasswordVerification : Type 0 where
  pub valid : Bool
  pub needs_rehash : Bool
  pub credential_unreadable : Bool

-- `needsRehash`
abbrev pub is_weaker : Option Argon2Parameters → Argon2Parameters → Bool
is_weaker none current = true
is_weaker (some stored) current =
    ltb stored.memory_cost_kib current.memory_cost_kib
    || (ltb stored.time_cost current.time_cost || ltb stored.parallelism current.parallelism)

module _ (argon : Argon2) (parameters : Argon2Parameters) where
  -- `verify` of a stored hash, on what the library answers.
  abbrev pub judge : ℕ → Option Bool → PasswordVerification
  judge stored none = record { valid = false; needs_rehash = false; credential_unreadable = true }
  judge stored (some false) = record {
    valid = false;
    needs_rehash = false;
    credential_unreadable = false;
  }
  judge stored (some true) = record {
    valid = true;
    needs_rehash = is_weaker (argon.parse_phc stored) parameters;
    credential_unreadable = false;
  }

  -- `verify`; without a stored hash the answer does not depend on the verification of the dummy.
  unfoldable pub verify : Option ℕ → ℕ → PasswordVerification
  verify none password = record {
    valid = false;
    needs_rehash = false;
    credential_unreadable = false;
  }
  verify (some stored) password = judge stored (argon.verify stored password)

  -- `hash`
  abbrev pub hash_password : ℕ → ℕ → ℕ
  hash_password = argon.hash parameters
