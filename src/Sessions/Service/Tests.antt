-- ===== src/Sessions/Service/Tests.antt =====
-- The session service on a small table and an in-memory cache.
use sstsaas_pv.Common.{
  ◌≡◌, refl, true, false, none, some, [], ◌∷◌, ◌||◌, ◌==◌, arith, if◌then◌else◌, is_some,
}
use sstsaas_pv.Common.Table.{Table, list_table}
use sstsaas_pv.Sessions.Rows.{
  SessionRow, SessionPolicy, active, revoked, to_resolved, is_expired, lifetime_seconds,
  idle_expiry_from, is_renewal_due,
}
use sstsaas_pv.Sessions.Cache.{encoded, memory_redis, read, write_live}
use sstsaas_pv.Sessions.Repository.{Scope, find_by_token_hash, find_by_id, rotate}
use sstsaas_pv.Sessions.Service.{
  State, IssueInput, RotateInput, IssuedSession, rotated, issue, resolve, revoke, revoke_many,
  rotate_session, issue_data, issued, rotate_row, rotate_live, successor_data, resolve_cached,
  resolve_from_database, resolve_row, settle_row, cache_renewed, renew,
}
use sstsaas_pv.Sessions.Service.Calls.{Steps, done, next, resolves}
use sstsaas_pv.Sessions.Service.Sound.{IsUnexpired}
use sstsaas_pv.Sessions.Service.Agreement.{MatchesRow, Steps-resolved}
use sstsaas_pv.Sessions.Service.Issue.{IsSession, issue-resolve}
use sstsaas_pv.Sessions.Service.Revocation.{revoke-resolve, revoke_many-resolve}
use sstsaas_pv.Sessions.Service.Successor.{
  IsSuccessor, rotate_session-IsSuccessor, rotate_session-resolve,
}

abbrev table : Table SessionRow
table = list_table SessionRow

abbrev policy : SessionPolicy
policy = record {
  absolute_lifetime_seconds = 100;
  remember_me_lifetime_seconds = 1000;
  idle_timeout_seconds = 20;
  pending_mfa_lifetime_seconds = 10;
  cache_ttl_seconds = 5;
}

abbrev row : SessionRow
row = record {
  id = 1;
  user_id = 7;
  token_hash = 40;
  status = active;
  idle_expires_at = 20000;
  absolute_expires_at = 90000;
  last_seen_at = 0;
  remember_me = false;
  active_organization_id = some 3;
  ip = none;
  user_agent = none;
  mfa_completed_at = none;
  rotated_from_id = none;
  revoked_at = none;
}

-- The row, cached.
abbrev seeded : State table memory_redis
seeded = record {
  rows = row ∷ [];
  cache = (true, λ k. if k == 40 then some (encoded (to_resolved row)) else none);
}

-- The row with an empty cache.
abbrev cold : State table memory_redis
cold = record { rows = row ∷ []; cache = (true, λ k. none) }

abbrev login : IssueInput
login = record {
  user_id = 8;
  status = active;
  remember_me = true;
  active_organization_id = none;
  mfa_completed_at = none;
  ip = none;
  user_agent = none;
}

abbrev switch : RotateInput
switch = record {
  session_id = 1;
  status = active;
  active_organization_id = some (some 4);
  mfa_completed_at = none;
  ip = none;
  user_agent = none;
}

abbrev everywhere : Scope
everywhere = record { user_id = 7; organization_id = none; except_session_id = none }

-- One more request for the old token.
one_more :
    (s : State table memory_redis)
    → Steps table memory_redis policy s (resolve table memory_redis policy 40 6000 s).1
one_more s = next s _ _ (resolves 40 6000 s) (done _)

revoke-resolve_example :
    (resolve table memory_redis policy 40 7000
      (resolve table memory_redis policy 40 6000
        (revoke table memory_redis policy 1 5000 seeded).1).1).0
    ≡ revoked
unfolding find_by_id find_by_token_hash
revoke-resolve_example =
    revoke-resolve table memory_redis policy 1 40 row 5000 seeded _ refl refl refl (one_more _) 7000

revoke_many-resolve_example :
    (resolve table memory_redis policy 40 7000
      (resolve table memory_redis policy 40 6000
        (revoke_many table memory_redis policy everywhere 5000 seeded).1).1).0
    ≡ revoked
unfolding find_by_token_hash
revoke_many-resolve_example =
    revoke_many-resolve table memory_redis policy everywhere 40 row 5000 seeded _ refl refl refl
      (one_more _) 7000

turned : IssuedSession
unfolding successor_data issued
turned = issued (successor_data policy row switch 2 41 5000) 60 5000

rotates_seeded :
    (rotate_session table memory_redis policy switch 2 60 41 5000 seeded).0 ≡ rotated turned
unfolding turned rotate_session rotate_row rotate_live rotate find_by_id
rotates_seeded = refl

rotate_session-IsSuccessor_example :
    (x : SessionRow) × (find_by_id table 1 seeded.rows ≡ some x)
    × ((is_some x.revoked_at || is_expired (to_resolved x) 5000) ≡ false)
    × IsSuccessor switch x turned.session
rotate_session-IsSuccessor_example =
    rotate_session-IsSuccessor table memory_redis policy switch 2 60 41 5000 seeded turned
      rotates_seeded

rotate_session-resolve_example :
    (resolve table memory_redis policy 40 7000
      (resolve table memory_redis policy 40 6000
        (rotate_session table memory_redis policy switch 2 60 41 5000 seeded).1).1).0
    ≡ revoked
unfolding find_by_id find_by_token_hash
rotate_session-resolve_example =
    rotate_session-resolve table memory_redis policy switch 2 60 41 5000 40 row seeded _ turned refl
      refl refl refl rotates_seeded (one_more _) 7000

issue-resolve_example :
    IsSession
      (issue table memory_redis policy login 2 60 41 5000 cold).0.session
      (resolve table memory_redis policy 41 24000
        (issue table memory_redis policy login 2 60 41 5000 cold).1).0
unfolding find_by_id find_by_token_hash issue issued issue_data lifetime_seconds idle_expiry_from
issue-resolve_example =
    issue-resolve table memory_redis policy login 2 60 41 5000 cold (λ h s e. cc) refl refl refl
      24000 refl

Steps-resolved_example :
    let t = (resolve table memory_redis policy 40 6000 cold).1 in
    ((r : SessionRow) × (find_by_token_hash table 40
          (resolve table memory_redis policy 40 7000 t).1.rows
        ≡ some r)
      × MatchesRow (to_resolved row) r)
    × IsUnexpired 7000 (to_resolved row)
unfolding find_by_token_hash resolve resolve_cached resolve_from_database resolve_row settle_row
    cache_renewed renew is_renewal_due read write_live
Steps-resolved_example =
    Steps-resolved table memory_redis policy (omega arith) cold _ (λ h s e. cc) (one_more cold) 40
      7000 (to_resolved row) refl
