-- ===== src/Mfa/Tests.antt =====
-- A factor whose code is the same in every step, and a pending session with four failures.
use sstsaas_pv.Common.{ℕ, ◌≡◌, ◌<◌, refl, false, true, none, some, List, [], ◌∷◌}
use sstsaas_pv.Common.Table.{list_table}
use sstsaas_pv.Tenancy.Rows.{RequestContext}
use sstsaas_pv.Totp.{
  TotpParameters, step_at, search_step, totp_code, truncated, padded, verify_totp_code,
  minimum_step_for,
}
use sstsaas_pv.Sessions.Rows.{SessionRow, SessionPolicy, pending_mfa, revoked}
use sstsaas_pv.Sessions.Repository.{find_by_id, find_by_token_hash}
use sstsaas_pv.Sessions.Service.{resolve}
use sstsaas_pv.Sessions.Service.Calls.{done}
use sstsaas_pv.Identity.Rows.{FactorRow, bad_code, PlatformAuditEvent, mfa_challenge_failed}
use sstsaas_pv.Identity.Store.{Accounts, in_memory}
use sstsaas_pv.Mfa.{mfa_event, swap_step, spend_step, spend_with, spend_totp_code, record_failure}
use sstsaas_pv.Mfa.Replay.{spends, done as no_attempts, spend-once}
use sstsaas_pv.Mfa.Attempts.{
  IsLedger, Failures-IsLedger, fails, done as no_failures, record_failure-resolve,
}

abbrev zeros : ℕ → TotpParameters
zeros secret = record {
  digits = 3;
  step_seconds = 30;
  digest_length = 20;
  digest = λ step index. 0;
}

abbrev factor : FactorRow
factor = record {
  id = 6;
  user_id = 1;
  secret_encrypted = 9;
  secret_key_version = none;
  confirmed_at = some 1;
  last_accepted_step = none;
  last_used_at = none;
}

abbrev code : List ℕ
code = 48 ∷ 48 ∷ 48 ∷ []

-- The factor after a first code.
abbrev moved : FactorRow
moved = record factor { last_accepted_step = some 2; last_used_at = some 90000 }

-- The same code is accepted for the second step, refused where the factor is still as it was before,
-- and accepted for the third step where it is read again.
spend-once_example : 2 < 3
unfolding spend_totp_code spend_with spend_step swap_step verify_totp_code search_step totp_code
    truncated padded step_at minimum_step_for
spend-once_example =
    spend-once (list_table FactorRow) (λ sealed version. some sealed) zeros factor moved code code
      90000 90000 90001 90002 (factor ∷ []) (moved ∷ []) 2 3 refl
      (spends factor code 90000 90001 (moved ∷ []) (moved ∷ []) (no_attempts (moved ∷ []))) refl
      refl

abbrev request : RequestContext
request = record { ip = some 1; user_agent = none; request_id = none }

abbrev policy : SessionPolicy
policy = record {
  absolute_lifetime_seconds = 100;
  remember_me_lifetime_seconds = 1000;
  idle_timeout_seconds = 20;
  pending_mfa_lifetime_seconds = 10;
  cache_ttl_seconds = 5;
}

abbrev waiting : SessionRow
waiting = record {
  id = 3;
  user_id = 1;
  token_hash = 40;
  status = pending_mfa;
  idle_expires_at = 10000;
  absolute_expires_at = 10000;
  last_seen_at = 0;
  remember_me = false;
  active_organization_id = none;
  ip = none;
  user_agent = none;
  mfa_completed_at = none;
  rotated_from_id = none;
  revoked_at = none;
}

abbrev failed : PlatformAuditEvent
failed = mfa_event 3 (mfa_challenge_failed bad_code 1) request

abbrev four_times : Accounts in_memory
four_times = record {
  users = [];
  credentials = [];
  tokens = [];
  factors = factor ∷ [];
  events = failed ∷ failed ∷ failed ∷ failed ∷ [];
  sessions = record { rows = waiting ∷ []; cache = (true, λ k. none) };
}

Failures-IsLedger_example : IsLedger in_memory policy 3 (
    record_failure in_memory policy 3 1 bad_code request 3000
      (record_failure in_memory policy 3 1 bad_code request 2000 four_times))
unfolding IsLedger
Failures-IsLedger_example =
    Failures-IsLedger in_memory policy four_times _
      (fails 3 1 bad_code request 2000 _ _ (fails 3 1 bad_code request 3000 _ _ (no_failures _))) 3
      refl

record_failure-resolve_example :
    (resolve in_memory.sessions in_memory.redis policy 40 3000
      (record_failure in_memory policy 3 1 bad_code request 2000 four_times).sessions).0
    ≡ revoked
unfolding find_by_id find_by_token_hash
record_failure-resolve_example =
    record_failure-resolve in_memory policy 3 1 bad_code request 2000 four_times 40 waiting _ refl
      refl refl refl (done _) 3000
