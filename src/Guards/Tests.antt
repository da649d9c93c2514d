-- ===== src/Guards/Tests.antt =====
-- A member's request to a handler that declares a permission, in memory.
use sstsaas_pv.Common.{◌≡◌, refl, ◌==◌, ==_refl, true, false, none, some, [], ◌∷◌, arith}
use sstsaas_pv.Access.Catalog.{owner, member, organization_read, organization_manage_members}
use sstsaas_pv.Access.Faults.{ok, err, session_expired, resource_not_found}
use sstsaas_pv.Access.Grant.{
  known, TenantContext, known_permissions, assert_actor_may_grant, missing, sort_by_rank,
  refuse_first,
}
use sstsaas_pv.Sessions.Rows.{
  ResolvedSession, to_resolved, SessionRow, SessionPolicy, active, idle_expiry_from, is_renewal_due,
}
use sstsaas_pv.Sessions.Cache.{read, write_live}
use sstsaas_pv.Sessions.Repository.{find_by_token_hash, revoke_live_for_user}
use sstsaas_pv.Sessions.Service.{
  resolve, resolve_cached, resolve_from_database, resolve_row, settle_row, cache_renewed, renew,
  revoke_many, revoke_all_for_user,
}
use sstsaas_pv.Sessions.Service.Calls.{done}
use sstsaas_pv.Tenancy.Rows.{MembershipStatus}
use sstsaas_pv.Tenancy.Database.{
  Db, in_memory as tenants, with_tenant_transaction, lock_organization, role_grants, record_event,
}
use sstsaas_pv.Tenancy.Cascade.{revoke_issued, revoke_all, revoke_one, doomed, granted_by}
use sstsaas_pv.Tenancy.Memberships.{
  RemoveMembershipCommand, remove, remove_tx, apply_removal, live_membership,
  assert_organization_keeps_an_owner, write_removal, run_cascade,
}
use sstsaas_pv.Guards.Removed.{remove-run_guards}
use sstsaas_pv.Identity.Passwords.{Argon2, Argon2Parameters}
use sstsaas_pv.Identity.Rows.{UserStatus, VerificationPurpose}
use sstsaas_pv.Identity.Store.{
  Accounts, in_memory, transaction, record_platform_event, update_user, user_by_id, credential_of,
}
use sstsaas_pv.Identity.Tokens.{consume_token, token_by_hash}
use sstsaas_pv.Identity.Recovery.{
  ResetCommand, ResetDraws, redeem, write_credential, record_reset, apply_reset, reset_tx,
  end_sessions, reset,
}
use sstsaas_pv.Guards.Resolving.{
  resolve_tenant, resolve_member, tenant_resolver, facts_of, granted_keys, find_organization,
  require_mfa_allows, mfa_enrolment_policy,
}
use sstsaas_pv.Guards.Pipeline.{
  Route, Request, permission, Seen, run_guards, authenticate, identity_of, admit_session,
  later_guards, tenant_guard, settle_tenant, csrf_guard, cross_site_guard, email_guard,
  enrolment_guard, authorize,
}
use sstsaas_pv.Guards.Authorized.{IsAuthorized, run_guards-IsAuthorized}
use sstsaas_pv.Guards.Ended.{reset-run_guards}

abbrev parameters : Argon2Parameters
parameters = record { memory_cost_kib = 1; time_cost = 1; parallelism = 1 }

abbrev argon : Argon2
argon = record {
  hash = λ p password salt. password;
  verify = λ h password. some (h == password);
  parse_phc = λ h. some parameters;
  verify-hash = λ p password salt. rw (==_refl password) refl;
}

abbrev policy : SessionPolicy
policy = record {
  absolute_lifetime_seconds = 100;
  remember_me_lifetime_seconds = 1000;
  idle_timeout_seconds = 20;
  pending_mfa_lifetime_seconds = 10;
  cache_ttl_seconds = 5;
}

abbrev session : SessionRow
session = record {
  id = 3;
  user_id = 1;
  token_hash = 40;
  status = active;
  idle_expires_at = 20000;
  absolute_expires_at = 90000;
  last_seen_at = 0;
  remember_me = false;
  active_organization_id = some 8;
  ip = none;
  user_agent = none;
  mfa_completed_at = none;
  rotated_from_id = none;
  revoked_at = none;
}

abbrev accounts : Accounts in_memory
accounts = record {
  users =
      record {
        id = 1;
        email = 5;
        email_verified_at = none;
        status = UserStatus.active;
        last_login_at = none;
        failed_login_count = 0;
        locked_until = none;
      }
      ∷ [];
  credentials = [];
  tokens =
      record {
        id = 1;
        user_id = 1;
        purpose = VerificationPurpose.password_reset;
        token_hash = 21;
        expires_at = 5000;
        consumed_at = none;
      }
      ∷ [];
  factors = [];
  events = [];
  sessions = record { rows = session ∷ []; cache = (true, λ k. none) };
}

abbrev db : Db tenants
db = record {
  memberships =
      record {
        id = 6;
        organization_id = 8;
        user_id = 1;
        role_key = member;
        status = MembershipStatus.active;
        deleted_at = none;
        created_at = 0;
      }
      ∷ [];
  invitations = [];
  organizations = record { id = 8; name = 9; is_active = true; require_mfa = false } ∷ [];
  users = [];
  roles = record { key = member; permissions = known organization_read ∷ [] } ∷ [];
  audit_events = [];
}

abbrev route : Route
route = record {
  access = some (permission organization_read);
  allow_pending_mfa = false;
  refuse_cross_site = false;
  require_verified_email = false;
  allow_without_mfa_enrolment = false;
}

abbrev request : Request
request = record {
  session_cookie = some 40;
  method_is_safe = true;
  from_cross_site = false;
  origin = none;
  csrf_header = none;
}

abbrev reset_command : ResetCommand
reset_command = record {
  token_hash = 21;
  password = 12;
  request = record { ip = none; user_agent = none; request_id = none };
}

abbrev reset_draws : ResetDraws
reset_draws = record { salt = 0; consumed_at = 1000; revoked_at = 1001; credential_id = 9 }

abbrev after_reset : Accounts in_memory
after_reset = (reset in_memory argon parameters policy false reset_command reset_draws accounts).1

reset-run_guards_example :
    (run_guards tenants in_memory policy
      (λ t. t)
      (λ a b. a == b)
      0
      route
      request
      2000
      db
      after_reset).0
    ≡ err session_expired
unfolding reset transaction reset_tx redeem consume_token token_by_hash user_by_id credential_of
    apply_reset write_credential update_user record_reset record_platform_event end_sessions
    revoke_all_for_user revoke_many revoke_live_for_user find_by_token_hash
reset-run_guards_example =
    reset-run_guards tenants in_memory policy (λ t. t) (λ a b. a == b) 0 argon parameters false
      reset_command reset_draws accounts tt after_reset after_reset session route request 40 2000 db
      refl refl refl refl refl (done _) refl refl

abbrev seen : Seen
seen = record {
  principal = some (record { user_id = 1; session_id = 3 });
  active_organization_id = some 8;
  tenant = some (record {
    organization_id = 8;
    membership_id = 6;
    role_key = member;
    permissions = organization_read ∷ [];
  });
}

run_guards-IsAuthorized_example :
    IsAuthorized tenants in_memory policy
      (λ t. t)
      (λ a b. a == b)
      organization_read
      route
      request
      1000
      db
      accounts
      seen
      (run_guards tenants in_memory policy
        (λ t. t)
        (λ a b. a == b)
        0
        route
        request
        1000
        db
        accounts).1
unfolding run_guards authenticate identity_of admit_session later_guards tenant_guard settle_tenant
    resolve_tenant resolve_member tenant_resolver facts_of granted_keys find_organization csrf_guard
    cross_site_guard email_guard enrolment_guard require_mfa_allows mfa_enrolment_policy authorize
    resolve resolve_cached resolve_from_database resolve_row settle_row cache_renewed renew read
    find_by_token_hash known_permissions is_renewal_due idle_expiry_from write_live
run_guards-IsAuthorized_example =
    run_guards-IsAuthorized tenants in_memory policy (λ t. t) (λ a b. a == b) 0 route
      organization_read request 1000 db accounts seen
      (run_guards tenants in_memory policy (λ t. t) (λ a b. a == b) 0 route request 1000 db
        accounts).1
      refl refl

abbrev by_owner : TenantContext
by_owner = record {
  organization_id = 8;
  membership_id = 7;
  role_key = owner;
  permissions = organization_manage_members ∷ organization_read ∷ [];
}

abbrev leave : RemoveMembershipCommand
leave = record { actor_user_id = 2; request = reset_command.request }

abbrev without_member : Db tenants
without_member = (remove tenants by_owner 8 6 leave 500 501 db).1

removed : remove tenants by_owner 8 6 leave 500 501 db ≡ (ok 1, without_member)
unfolding remove remove_tx apply_removal live_membership assert_organization_keeps_an_owner
    write_removal run_cascade with_tenant_transaction lock_organization role_grants record_event
    revoke_issued revoke_all revoke_one doomed granted_by assert_actor_may_grant missing
    sort_by_rank refuse_first
removed = refl

abbrev session_now : ResolvedSession
session_now = to_resolved session

remove-run_guards_example :
    (run_guards tenants in_memory policy
      (λ t. t)
      (λ a b. a == b)
      0
      route
      request
      1000
      without_member
      accounts).0
    ≡ err resource_not_found
unfolding resolve resolve_cached resolve_from_database resolve_row settle_row cache_renewed renew
    read find_by_token_hash is_renewal_due idle_expiry_from write_live
remove-run_guards_example =
    remove-run_guards tenants in_memory policy (λ t. t) (λ a b. a == b) 0 by_owner 8 6 leave 500 501
      db without_member 1 route organization_read request 40 1000 accounts session_now (omega arith)
      removed refl refl refl refl refl refl
