-- ===== src/Tenancy/Database/Steps.antt =====
-- What the steps of the tenant database tell when they succeed.
use sstsaas_pv.Common.{ℕ, ◌≡◌}
use sstsaas_pv.Access.Catalog.{Role}
use sstsaas_pv.Access.Faults.{ok}
use sstsaas_pv.Tenancy.Rows.{AuditEvent}
use sstsaas_pv.Tenancy.Database.{Database, Db, lock_organization, role_grants, record_event}
pub use sstsaas_pv.Access.Runs.Steps.{
  lift-ok, refuse_if-ok, or_fail-ok, IsReader, after_reader, after_writer, and_then, or_throw,
  find-IsReader, refuse-IsReader, settle-ok,
}

module _ (D : Database) where
  pub lock_organization-IsReader : (org : ℕ) → IsReader (lock_organization D org)
  unfolding lock_organization
  lock_organization-IsReader org s a s' e = (refuse_if-ok _ _ s e).1

  pub role_grants-IsReader : (r : Role) → IsReader (role_grants D r)
  unfolding role_grants
  role_grants-IsReader r s a s' e = (or_fail-ok _ _ s e).1

  pub record_event-ok :
      (e : AuditEvent) (s : Db D) (a : Unit {0}) (s' : Db D)
      → record_event D e s ≡ ok (a, s')
      → s' ≡ record s { audit_events = D.audit_events.create e s.audit_events }
  unfolding record_event
  record_event-ok e s a s' h = cc
