-- ===== src/Identity/Tests.antt =====
-- A small set of accounts with a library that hashes a password to itself.
use sstsaas_pv.Common.{
  ◌*◌, ◌+◌, ◌≡◌, ◌≤◌, refl, true, false, none, some, List, [], ◌∷◌, ◌==◌, arith, ==_refl,
}
use sstsaas_pv.Access.Faults.{invalid_credentials, token_invalid, ok, err}
use sstsaas_pv.Tenancy.Rows.{RequestContext}
use sstsaas_pv.Sessions.Rows.{
  SessionRow, SessionPolicy, active, revoked, lifetime_seconds, idle_expiry_from,
}
use sstsaas_pv.Sessions.Repository.{find_by_token_hash, revoke_live_for_user}
use sstsaas_pv.Sessions.Service.{
  issue, issue_data, issued, revoke_many, revoke_all_for_user, resolve,
}
use sstsaas_pv.Sessions.Service.Calls.{done}
use sstsaas_pv.Sessions.Service.Ended.{is_dead}
use sstsaas_pv.Identity.Lockout.{is_locked}
use sstsaas_pv.Identity.Passwords.{Argon2, Argon2Parameters, verify}
use sstsaas_pv.Identity.Rows.{UserStatus, UserRow, TokenRow, VerificationPurpose, reset_completed}
use sstsaas_pv.Identity.Store.{
  Accounts, in_memory, transaction, record_platform_event, update_user, user_by_id, user_by_email,
  credential_of,
}
use sstsaas_pv.Identity.Tokens.{TtlSeconds, token_by_hash, consume_token}
use sstsaas_pv.Identity.Tokens.Single.{
  TokenSteps, consumes, done as no_calls, consume-once, TokenSteps-outstanding, outstanding,
}
use sstsaas_pv.Identity.Login.{
  user_event, LoginCommand, authenticated, Draws, stored_hash_for, is_familiar,
  has_confirmed_factor, clear_failures, rehash_credential, upgrade, credential_still_current,
  conclude_login, issue_session, after_commit, succeed_with, succeed, decide, stored_hash, login,
}
use sstsaas_pv.Identity.Login.Held.{attempt_all, AllHeldOff}
use sstsaas_pv.Identity.Login.LockedOut.{login-AllHeldOff}
use sstsaas_pv.Identity.Login.Pace.{fail_all, fail_all-le}
use sstsaas_pv.Identity.Login.Outcomes.{login-wrong_password, login-Admits, Admits}
use sstsaas_pv.Identity.Recovery.{
  ResetCommand, ResetDraws, redeem, write_credential, record_reset, apply_reset, reset_tx,
  end_sessions, reset,
}
use sstsaas_pv.Identity.Recovery.Completed.{reset-resolve, reset-once}
use sstsaas_pv.Identity.Recovery.Race.{
  Meeting, RaceSteps, verified, swept, checked, committed, inserted, session_of, done as through,
  commits, sweeps, inserts, checks, row_by_hash, race-revoked,
}

abbrev parameters : Argon2Parameters
parameters = record { memory_cost_kib = 1; time_cost = 1; parallelism = 1 }

abbrev argon : Argon2
argon = record {
  hash = λ p password salt. password;
  verify = λ h password. some (h == password);
  parse_phc = λ h. some parameters;
  verify-hash = λ p password salt. rw (==_refl password) refl;
}

abbrev policy : SessionPolicy
policy = record {
  absolute_lifetime_seconds = 100;
  remember_me_lifetime_seconds = 1000;
  idle_timeout_seconds = 20;
  pending_mfa_lifetime_seconds = 10;
  cache_ttl_seconds = 5;
}

abbrev request : RequestContext
request = record { ip = some 1; user_agent = none; request_id = none }

abbrev open_account : UserRow
open_account = record {
  id = 1;
  email = 5;
  email_verified_at = none;
  status = UserStatus.active;
  last_login_at = none;
  failed_login_count = 2;
  locked_until = none;
}

abbrev locked_account : UserRow
locked_account = record open_account { id = 2; email = 6; locked_until = some 9000 }

abbrev link : TokenRow
link = record {
  id = 1;
  user_id = 1;
  purpose = VerificationPurpose.password_reset;
  token_hash = 21;
  expires_at = 5000;
  consumed_at = none;
}

abbrev session : SessionRow
session = record {
  id = 3;
  user_id = 1;
  token_hash = 40;
  status = active;
  idle_expires_at = 20000;
  absolute_expires_at = 90000;
  last_seen_at = 0;
  remember_me = false;
  active_organization_id = none;
  ip = none;
  user_agent = none;
  mfa_completed_at = none;
  rotated_from_id = none;
  revoked_at = none;
}

abbrev accounts : Accounts in_memory
accounts = record {
  users = open_account ∷ locked_account ∷ [];
  credentials = record { id = 1; user_id = 1; password_hash = 11 } ∷ [];
  tokens = link ∷ [];
  factors = [];
  events = [];
  sessions = record { rows = session ∷ []; cache = (true, λ k. none) };
}

abbrev command : LoginCommand
command = record { email = 5; password = 11; remember_me = false; request = request }

abbrev draws : Draws
draws = record {
  checked_at = 1000;
  written_at = 1001;
  issued_at = 1002;
  revoked_at = 1003;
  session_id = 50;
  token = 51;
  token_hash = 52;
  salt = 0;
}

abbrev reset_command : ResetCommand
reset_command = record { token_hash = 21; password = 12; request = request }

abbrev reset_draws : ResetDraws
reset_draws = record { salt = 0; consumed_at = 1000; revoked_at = 1001; credential_id = 9 }

abbrev ttl : TtlSeconds
ttl = record { email_verification = 10; password_reset = 10 }

login-wrong_password_example :
    (login in_memory argon parameters policy (record command { password = 12 }) draws accounts).0
    ≡ err invalid_credentials
unfolding user_by_email stored_hash stored_hash_for credential_of verify
login-wrong_password_example =
    login-wrong_password in_memory argon parameters policy (record command { password = 12 }) draws
      accounts refl

-- The account after four failures, and two attempts on it within a minute of the fifth, the first
-- with the right password.
abbrev struck : UserRow
struck = record open_account { failed_login_count = 4; locked_until = some 900 }

abbrev four_times : Accounts in_memory
four_times = record accounts { users = struck ∷ locked_account ∷ [] }

abbrev attempts : List (LoginCommand × Draws)
attempts =
    (command, record draws { checked_at = 2000 })
    ∷ (record command { password = 12 }, record draws { checked_at = 61000 })
    ∷ []

login-AllHeldOff_example :
    let s' =
      (login in_memory argon parameters policy
        (record command { password = 12 })
        draws
        four_times).1 in
    ((attempt_all in_memory argon parameters policy attempts s').1 ≡ s')
    × AllHeldOff in_memory argon parameters policy 1 s' attempts
        (attempt_all in_memory argon parameters policy attempts s').0
unfolding user_by_email user_by_id stored_hash_for credential_of verify
login-AllHeldOff_example =
    login-AllHeldOff in_memory argon parameters policy (record command { password = 12 }) draws
      four_times struck attempts (refl, omega arith) (omega arith) refl refl (omega arith)
      (omega arith) refl ((refl, omega arith), ((refl, omega arith), tt))

login-Admits_example :
    Admits in_memory argon parameters policy command draws accounts
      (authenticated 51 none)
      (login in_memory argon parameters policy command draws accounts).1
unfolding login decide stored_hash stored_hash_for credential_of user_by_email verify is_locked
    succeed succeed_with transaction clear_failures record_platform_event has_confirmed_factor
    is_familiar after_commit upgrade rehash_credential issue_session issue issue_data issued
    conclude_login credential_still_current lifetime_seconds idle_expiry_from
login-Admits_example =
    login-Admits in_memory argon parameters policy command draws accounts (authenticated 51 none)
      (login in_memory argon parameters policy command draws accounts).1 refl

consume-once_example :
    (consume_token in_memory.tokens 21 VerificationPurpose.email_verification 2000
      (consume_token in_memory.tokens 21 VerificationPurpose.password_reset 1000
        accounts.tokens).1).0
    ≡ none
unfolding consume_token token_by_hash
consume-once_example =
    consume-once in_memory.tokens ttl 21 VerificationPurpose.password_reset 1000 accounts.tokens
      (consume_token in_memory.tokens 21 VerificationPurpose.password_reset 1000 accounts.tokens).1
      1 (omega arith) refl (no_calls _) VerificationPurpose.email_verification 2000

TokenSteps-outstanding_example :
    outstanding in_memory.tokens ttl 1 VerificationPurpose.password_reset
      (consume_token in_memory.tokens 21 VerificationPurpose.password_reset 1000 accounts.tokens).1
    ≤ 1
TokenSteps-outstanding_example =
    TokenSteps-outstanding in_memory.tokens ttl accounts.tokens _
      (TokenSteps.next _ _ _ (consumes 21 VerificationPurpose.password_reset 1000 accounts.tokens)
        (no_calls _))
      1 VerificationPurpose.password_reset (omega arith)

abbrev after_reset : Accounts in_memory
after_reset = (reset in_memory argon parameters policy false reset_command reset_draws accounts).1

reset_answers :
    reset in_memory argon parameters policy false reset_command reset_draws accounts
    ≡ (ok tt, after_reset)
unfolding reset transaction reset_tx redeem consume_token token_by_hash user_by_id credential_of
    apply_reset write_credential update_user record_reset record_platform_event end_sessions
    revoke_all_for_user revoke_many revoke_live_for_user
reset_answers = refl

reset-resolve_example :
    (resolve in_memory.sessions in_memory.redis policy 40 2000 after_reset.sessions).0 ≡ revoked
unfolding consume_token token_by_hash find_by_token_hash
reset-resolve_example =
    reset-resolve in_memory argon parameters policy false reset_command reset_draws accounts tt
      after_reset 40 session after_reset.sessions reset_answers refl refl refl refl (done _) 2000

reset-once_example :
    reset in_memory argon parameters policy false
      (record reset_command { password = 13 })
      (record reset_draws { consumed_at = 1500 })
      after_reset
    ≡ (err token_invalid, after_reset)
reset-once_example =
    reset-once in_memory argon parameters policy false reset_command reset_draws accounts tt
      after_reset after_reset (record reset_command { password = 13 })
      (record reset_draws { consumed_at = 1500 }) (omega arith) reset_answers ttl (no_calls _) refl

-- The reset commits after the login has verified, and revokes before the login inserts.
abbrev meeting : Meeting
meeting = record {
  user = 1;
  in_force = some 11;
  mfa = false;
  login = command;
  draws = draws;
  reset = reset_command;
  fresh = 12;
  reset_draws = reset_draws;
}

abbrev state_committed : Accounts in_memory
state_committed = record {
  users =
      record open_account { failed_login_count = 0; email_verified_at = some 1000 }
      ∷ locked_account
      ∷ [];
  credentials = record { id = 1; user_id = 1; password_hash = 12 } ∷ [];
  tokens = record link { consumed_at = some 1000 } ∷ [];
  factors = [];
  events = user_event (some 1) (reset_completed 1 true true) (some 1) request ∷ [];
  sessions = accounts.sessions;
}

state_committed_lem :
    reset_tx in_memory reset_command 12 reset_draws accounts ≡ ok (1, state_committed)
unfolding reset_tx redeem consume_token token_by_hash user_by_id credential_of apply_reset
    write_credential update_user record_reset record_platform_event
state_committed_lem = refl

abbrev race_end : Accounts in_memory
race_end =
    (conclude_login in_memory argon parameters policy 1 false (some 11) command draws
      (session_of in_memory argon parameters policy meeting)
      (issue_session in_memory argon parameters policy 1 false command draws
        (end_sessions in_memory policy reset_draws (ok 1, state_committed)).1).1).1

race-revoked_example :
    is_dead (row_by_hash in_memory argon parameters policy meeting race_end) ≡ true
unfolding verify
race-revoked_example =
    race-revoked in_memory argon parameters policy meeting refl refl accounts race_end (
      RaceSteps.next _ committed _ _ verified _ _ _ _
        (commits verified accounts state_committed state_committed_lem)
        (RaceSteps.next _ swept _ _ verified _ _ _ _ (sweeps verified _) (
          RaceSteps.next _ swept _ _ inserted _ _ _ _ (inserts swept _)
            (RaceSteps.next _ swept _ _ checked _ _ _ _ (checks swept _) (through _ _ _)))))

fail_all-le_example :
    (u : UserRow) × (user_by_id in_memory 1
        (fail_all in_memory 1 open_account request (0 ∷ 10 ∷ 20 ∷ 30 ∷ 40 ∷ []) accounts)
      ≡ some u)
    × (u.failed_login_count * 60000 + 0 ≤ 300000 + 40)
unfolding user_by_id
fail_all-le_example =
    fail_all-le in_memory 1 open_account request 0 (0 ∷ 10 ∷ 20 ∷ 30 ∷ 40 ∷ []) open_account
      accounts refl (omega arith, (omega arith, (omega arith, (omega arith, (omega arith, tt)))))
      (refl, omega arith) (omega arith)
