-- ===== src/Guards/Ended.antt =====
-- Requests with the token of a session that is over, and what a password reset means for them.
use sstsaas_pv.Common.{ℕ, ◌≡◌, refl, Bool, true, false, some, is_none}
use sstsaas_pv.Access.Faults.{ok, err, session_expired}
use sstsaas_pv.Sessions.Rows.{SessionRow, SessionPolicy, revoked}
use sstsaas_pv.Sessions.Repository.{find_by_token_hash}
use sstsaas_pv.Sessions.Service.{resolve}
use sstsaas_pv.Sessions.Service.Calls.{Steps}
use sstsaas_pv.Tenancy.Database.{Database, Db}
use sstsaas_pv.Identity.Passwords.{Argon2, Argon2Parameters}
use sstsaas_pv.Identity.Store.{IdentityDatabase, Accounts}
use sstsaas_pv.Identity.Recovery.{ResetCommand, ResetDraws, reset}
use sstsaas_pv.Identity.Recovery.Outcomes.{redemption}
use sstsaas_pv.Identity.Recovery.Completed.{reset-resolve}
use sstsaas_pv.Guards.Pipeline.{Route, Request, is_public, identity_of, authenticate, run_guards}

module _ (D : Database) (I : IdentityDatabase) (policy : SessionPolicy) (hash : ℕ → ℕ)
    (matches : ℕ → ℕ → Bool) (web_origin : ℕ) where
  run_guards-revoked :
      (route : Route) (request : Request) (token now : ℕ) (db : Db D) (s : Accounts I)
      → is_public route.access ≡ false
      → request.session_cookie ≡ some token
      → (resolve I.sessions I.redis policy (hash token) now s.sessions).0 ≡ revoked
      → (run_guards D I policy hash matches web_origin route request now db s).0
        ≡ err session_expired
  unfolding run_guards authenticate identity_of
  run_guards-revoked route request token now db s closed cookie over =
      rw (closed, cookie, over) refl

  -- After a password reset that answers while Redis does, a request to any handler that is not
  -- public, with the token of a session that the account had live, is refused with SESSION_EXPIRED,
  -- after any later sequence of requests to the sessions and of expiries, evictions and outages of
  -- the cache, where every new token's hash is on no row yet.
  pub reset-run_guards :
      (argon : Argon2) (parameters : Argon2Parameters) (breached : Bool) (command : ResetCommand)
      (d : ResetDraws) (s : Accounts I) (a : Unit {0}) (s' t : Accounts I) (row : SessionRow)
      (route : Route) (request : Request) (token now : ℕ) (db : Db D)
      → reset I argon parameters policy breached command d s ≡ (ok a, s')
      → (redemption I command d s).0 ≡ some row.user_id
      → find_by_token_hash I.sessions (hash token) s.sessions.rows ≡ some row
      → is_none row.revoked_at ≡ true
      → I.redis.answers s.sessions.cache ≡ true
      → Steps I.sessions I.redis policy s'.sessions t.sessions
      → is_public route.access ≡ false
      → request.session_cookie ≡ some token
      → (run_guards D I policy hash matches web_origin route request now db t).0
        ≡ err session_expired
  reset-run_guards argon parameters breached command d s a s' t row route request token now db
        answered redeemed by_hash live up steps closed cookie =
      run_guards-revoked route request token now db t closed cookie (
        reset-resolve I argon parameters policy breached command d s a s' (hash token) row
          t.sessions answered redeemed by_hash live up steps now)
