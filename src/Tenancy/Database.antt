-- ===== src/Tenancy/Database.antt =====
-- The database of the two services, and `withTenantTransaction`
-- (packages/db/src/tenant-transaction.ts). Prisma and PostgreSQL are the interface `Database`; a
-- transaction that throws leaves no trace, and transactions run one after the other.
pub mod Steps
use mathlib.Core.Option
use sstsaas_pv.Common.{ℕ, ◌==◌, ◌≡◌, refl, Bool, true, false, Option, none, some, List, [], ◌∷◌}
use sstsaas_pv.Common.Table.{Table, list_table}
use sstsaas_pv.Access.Catalog.{Role, same_role}
use sstsaas_pv.Access.Faults.{Fault, resource_not_found, record_missing, Result, ok, err}
use sstsaas_pv.Access.Grant.{Key}
pub use sstsaas_pv.Access.Runs.{
  Run, pure, fail, gets, lift, or_fail, ◌>>=◌, ◌>>◌, is_empty, refuse_if, modify, settle, >>=-eq-ok,
}
use sstsaas_pv.Tenancy.Rows.{Membership, Invitation, Organization, User, RoleRow, AuditEvent}

pub record Database : Type 1 where
  pub memberships : Table Membership
  pub invitations : Table Invitation
  pub organizations : Table Organization
  pub users : Table User
  pub roles : Table RoleRow
  pub audit_events : Table AuditEvent

-- The content of the tables.
pub record Db (D : Database) : Type 0 where
  pub memberships : D.memberships.Store
  pub invitations : D.invitations.Store
  pub organizations : D.organizations.Store
  pub users : D.users.Store
  pub roles : D.roles.Store
  pub audit_events : D.audit_events.Store

-- What runs inside a transaction.
abbrev pub Tx : Database → Type 0 → Type 0
Tx D A = Run (Db D) A

-- `withTenantTransaction`
unfoldable pub with_tenant_transaction :
    {D : Database} {A : Type 0} → Tx D A → Db D → Result A × Db D
with_tenant_transaction m s = settle s (m s)

-- The tables in memory.
abbrev pub in_memory : Database
in_memory = record {
  memberships = list_table Membership;
  invitations = list_table Invitation;
  organizations = list_table Organization;
  users = list_table User;
  roles = list_table RoleRow;
  audit_events = list_table AuditEvent;
}

module _ (D : Database) where
  -- `lockOrganization`: the lock itself orders transactions, which the model runs one by one.
  unfoldable pub lock_organization : ℕ → Tx D (Unit {0})
  lock_organization org s =
      refuse_if (is_empty (D.organizations.find_many (λ o. o.id == org) s.organizations))
        resource_not_found s

  -- `tx.role.findUniqueOrThrow`, with the keys of the role's permissions.
  unfoldable pub role_grants : Role → Tx D (List Key)
  role_grants key s =
      or_fail
        (Option.map (λ r. r.permissions) (D.roles.find_first (λ r. same_role r.key key) s.roles))
        record_missing s

  -- `AuditService.record`
  unfoldable pub record_event : AuditEvent → Tx D (Unit {0})
  record_event e s = ok (tt, record s { audit_events = D.audit_events.create e s.audit_events })
