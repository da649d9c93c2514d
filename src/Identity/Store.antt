-- ===== src/Identity/Store.antt =====
-- The account tables (apps/api/src/modules/auth/identity.store.ts) with the sessions beside them, and
-- `$transaction`.
use sstsaas_pv.Common.{ℕ, ◌==◌, Option, if◌then◌else◌}
use sstsaas_pv.Common.Table.{Table, list_table}
use sstsaas_pv.Access.Faults.{record_missing, Result, ok, err}
use sstsaas_pv.Access.Runs.{Run, settle}
use sstsaas_pv.Sessions.Rows.{SessionRow}
use sstsaas_pv.Sessions.Cache.{Redis, memory_redis}
use sstsaas_pv.Sessions.Service.{State}
use sstsaas_pv.Identity.Rows.{UserRow, CredentialRow, TokenRow, FactorRow, PlatformAuditEvent}

pub record IdentityDatabase : Type 1 where
  pub users : Table UserRow
  pub credentials : Table CredentialRow
  pub tokens : Table TokenRow
  pub factors : Table FactorRow
  pub events : Table PlatformAuditEvent
  pub sessions : Table SessionRow
  pub redis : Redis

-- The content of the tables, and the sessions with their cache.
pub record Accounts (D : IdentityDatabase) : Type 0 where
  pub users : D.users.Store
  pub credentials : D.credentials.Store
  pub tokens : D.tokens.Store
  pub factors : D.factors.Store
  pub events : D.events.Store
  pub sessions : State D.sessions D.redis

-- What runs inside `$transaction`.
abbrev pub Tx : IdentityDatabase → Type 0 → Type 0
Tx D A = Run (Accounts D) A

-- `$transaction`
unfoldable pub transaction :
    {D : IdentityDatabase} {A : Type 0} → Tx D A → Accounts D → Result A × Accounts D
transaction m s = settle s (m s)

-- The tables in memory.
abbrev pub in_memory : IdentityDatabase
in_memory = record {
  users = list_table UserRow;
  credentials = list_table CredentialRow;
  tokens = list_table TokenRow;
  factors = list_table FactorRow;
  events = list_table PlatformAuditEvent;
  sessions = list_table SessionRow;
  redis = memory_redis;
}

module _ (D : IdentityDatabase) where
  -- `PlatformAuditService.record`
  unfoldable pub record_platform_event : PlatformAuditEvent → Tx D (Unit {0})
  record_platform_event e s = ok (tt, record s { events = D.events.create e s.events })

  -- `tx.user.update({ where: { id } })`, which throws where no row matches.
  unfoldable pub update_user : ℕ → (UserRow → UserRow) → Tx D (Unit {0})
  update_user id change s =
      if D.users.updated_count (λ u. u.id == id) s.users == 0
      then err record_missing
      else ok (tt, record s { users = D.users.update_many (λ u. u.id == id) change s.users })

  -- `user.findUnique({ where: { id } })`, with the e-mail address, and the stored hash of a user.
  unfoldable pub user_by_id : ℕ → Accounts D → Option UserRow
  user_by_id id s = D.users.find_first (λ u. u.id == id) s.users

  unfoldable pub user_by_email : ℕ → Accounts D → Option UserRow
  user_by_email email s = D.users.find_first (λ u. u.email == email) s.users

  unfoldable pub credential_of : ℕ → Accounts D → Option CredentialRow
  credential_of user s = D.credentials.find_first (λ c. c.user_id == user) s.credentials
