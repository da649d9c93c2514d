-- ===== src/Sessions/Service.antt =====
-- `SessionService` of apps/api/src/modules/auth/session.service.ts. The clock, the minted token and
-- the new identifier are arguments; inputs are those that the schemas have parsed.
pub mod Calls
pub mod Agreement
pub mod Coherence
pub mod Ended
pub mod Issue
pub mod Resolve
pub mod Revocation
pub mod Successor
mod Tests
pub mod Sound
pub mod Stays
use sstsaas_pv.Common.{
  ℕ, ◌+◌, ◌*◌, ◌-◌, ◌/◌, ◌==◌, ltb, Bool, true, false, not, ◌&&◌, ◌||◌, Option, none, some, is_none,
  is_some, List, [], ◌∷◌, map, length, if◌then◌else◌,
}
use sstsaas_pv.Common.Table.{Table}
use sstsaas_pv.Sessions.Rows.{
  SessionStatus, is_pending, is_active, SessionCreateData, SessionRow, ResolvedSession, row_of,
  to_resolved, SessionResolution, resolved, unknown, expired, revoked, SessionPolicy, milliseconds,
  lifetime_seconds, is_renewal_due, is_expired, idle_expiry_from,
}
use sstsaas_pv.Sessions.Cache.{
  CacheValue, tombstone, encoded, unreadable, Redis, read, write_live, write_tombstone,
}
use sstsaas_pv.Sessions.Repository.{
  Scope, find_by_token_hash, find_by_id, touch, revoke_by_id, list_live_for_user,
  revoke_live_for_user, rotate as rotate_rows,
}

pub record State (T : Table SessionRow) (R : Redis) : Type 0 where
  pub rows : T.Store
  pub cache : R.Store

-- `IssueSessionInput`, parsed.
pub record IssueInput : Type 0 where
  pub user_id : ℕ
  pub status : SessionStatus
  pub remember_me : Bool
  pub active_organization_id : Option ℕ
  pub mfa_completed_at : Option ℕ
  pub ip : Option ℕ
  pub user_agent : Option ℕ

-- `RotateSessionInput`, parsed: the outer `none` of a field is `undefined`, the inner one `null`.
pub record RotateInput : Type 0 where
  pub session_id : ℕ
  pub status : SessionStatus
  pub active_organization_id : Option (Option ℕ)
  pub mfa_completed_at : Option (Option ℕ)
  pub ip : Option ℕ
  pub user_agent : Option ℕ

-- `IssuedSession`
pub record IssuedSession : Type 0 where
  pub session : ResolvedSession
  pub token : ℕ
  pub cookie_max_age_seconds : Option ℕ

-- What `rotate` does: it throws MFA_EVIDENCE_REQUIRED, answers `null`, or issues.
pub data Rotation : Type 0 where
  evidence_required not_rotated : Rotation
  rotated : IssuedSession → Rotation

-- `OwnedRevocation`
pub data OwnedRevocation : Type 0 where
  was_revoked nothing_to_revoke not_found : OwnedRevocation

-- `given ?? fallback`
abbrev pub or_else : Option ℕ → Option ℕ → Option ℕ
or_else none fallback = fallback
or_else (some a) fallback = some a

-- `given === undefined ? fallback : given`
abbrev pub if_given : Option (Option ℕ) → Option ℕ → Option ℕ
if_given none fallback = fallback
if_given (some given) fallback = given

-- `parsed.mfaCompletedAt instanceof Date`
abbrev pub is_date : Option (Option ℕ) → Bool
is_date (some (some at)) = true
is_date _ = false

-- `issued`
unfoldable pub issued : SessionCreateData → ℕ → ℕ → IssuedSession
issued d token now = record {
  session = to_resolved (row_of d);
  token = token;
  cookie_max_age_seconds =
      if d.remember_me then some ((d.absolute_expires_at - now) / milliseconds) else none;
}

-- The row that `issue` inserts.
unfoldable pub issue_data : SessionPolicy → IssueInput → ℕ → ℕ → ℕ → SessionCreateData
issue_data policy input id token_hash now =
    let absolute = now + lifetime_seconds policy input.status input.remember_me * milliseconds in
    record {
      id = id;
      user_id = input.user_id;
      token_hash = token_hash;
      status = input.status;
      idle_expires_at = idle_expiry_from policy now absolute;
      absolute_expires_at = absolute;
      last_seen_at = now;
      remember_me = input.remember_me;
      active_organization_id = input.active_organization_id;
      ip = input.ip;
      user_agent = input.user_agent;
      mfa_completed_at = input.mfa_completed_at;
      rotated_from_id = none;
    }

-- `startsRealSession`
abbrev pub starts_real_session : SessionRow → RotateInput → Bool
starts_real_session predecessor input = is_pending predecessor.status && is_active input.status

-- The row that `rotate` inserts.
pub successor_data : SessionPolicy → SessionRow → RotateInput → ℕ → ℕ → ℕ → SessionCreateData
successor_data policy predecessor input id token_hash now =
    let absolute =
      if starts_real_session predecessor input
      then now + lifetime_seconds policy input.status predecessor.remember_me * milliseconds
      else predecessor.absolute_expires_at in
    record {
      id = id;
      user_id = predecessor.user_id;
      token_hash = token_hash;
      status = input.status;
      idle_expires_at = idle_expiry_from policy now absolute;
      absolute_expires_at = absolute;
      last_seen_at = now;
      remember_me = predecessor.remember_me;
      active_organization_id =
          if_given input.active_organization_id predecessor.active_organization_id;
      ip = or_else input.ip predecessor.ip;
      user_agent = or_else input.user_agent predecessor.user_agent;
      mfa_completed_at = if_given input.mfa_completed_at predecessor.mfa_completed_at;
      rotated_from_id = some predecessor.id;
    }

module _ (T : Table SessionRow) (R : Redis) (policy : SessionPolicy) where
  -- `issue`
  unfoldable pub issue : IssueInput → ℕ → ℕ → ℕ → ℕ → State T R → IssuedSession × State T R
  issue input id token token_hash now st =
      let d = issue_data policy input id token_hash now in
      (issued d token now, record st { rows = T.create (row_of d) st.rows })

  -- `renew`
  unfoldable pub renew : ResolvedSession → ℕ → State T R → Option ResolvedSession × State T R
  renew session now st =
      let idle = idle_expiry_from policy now session.absolute_expires_at in
      let (live, rows) = touch T session.id now idle st.rows in
      if is_renewal_due session.last_seen_at now policy.idle_timeout_seconds
      then (if live
          then (
            some (record session { last_seen_at = now; idle_expires_at = idle }),
            record st { rows = rows },
          )
          else (none, record st { rows = rows }))
      else (some session, st)

  -- The end of both resolutions: the renewed session is cached, unless a tombstone stands there.
  unfoldable pub cache_renewed : ℕ → ResolvedSession → State T R → SessionResolution × State T R
  cache_renewed h session st = (
    resolved session,
    record st { cache = (write_live R h session policy.cache_ttl_seconds st.cache).1 },
  )

  -- `renew` of the row, and what follows it.
  unfoldable pub settle_row : ℕ → Option ResolvedSession × State T R → SessionResolution × State T R
  settle_row h (none, st) = (revoked, st)
  settle_row h (some session, st) = cache_renewed h session st

  -- `resolveFromDatabase`, on the row found.
  unfoldable pub resolve_row : ℕ → ℕ → Option SessionRow → State T R → SessionResolution × State T R
  resolve_row h now none st = (unknown, st)
  resolve_row h now (some row) st =
      if is_some row.revoked_at
      then (revoked, st)
      else (if is_expired (to_resolved row) now
          then (expired, st)
          else settle_row h (renew (to_resolved row) now st))

  -- `resolveFromDatabase`
  unfoldable pub resolve_from_database : ℕ → ℕ → State T R → SessionResolution × State T R
  unfolding resolve_row settle_row cache_renewed
  resolve_from_database h now st = resolve_row h now (find_by_token_hash T h st.rows) st

  -- `renew` of the snapshot, and what follows it.
  unfoldable pub settle_snapshot :
      ℕ → ℕ → Option ResolvedSession × State T R → SessionResolution × State T R
  settle_snapshot h now (none, st) = resolve_from_database h now st
  settle_snapshot h now (some session, st) = cache_renewed h session st

  -- `resolve`, on what the cache answered.
  unfoldable pub resolve_cached :
      ℕ → ℕ → Option CacheValue → State T R → SessionResolution × State T R
  resolve_cached h now none st = resolve_from_database h now st
  resolve_cached h now (some tombstone) st = (revoked, st)
  resolve_cached h now (some unreadable) st = resolve_from_database h now st
  resolve_cached h now (some (encoded snapshot)) st =
      if is_expired snapshot now
      then (expired, st)
      else (if is_renewal_due snapshot.last_seen_at now policy.idle_timeout_seconds
          then settle_snapshot h now (renew snapshot now st)
          else (resolved snapshot, st))

  -- `resolve`, of the token whose hash is `h`.
  unfoldable pub resolve : ℕ → ℕ → State T R → SessionResolution × State T R
  unfolding resolve_cached settle_snapshot
  resolve h now st = resolve_cached h now (read R h st.cache) st

  -- `poison`: the failures are only counted for a log line.
  pub poison : List ℕ → R.Store → R.Store
  poison [] c = c
  poison (h ∷ hs) c = poison hs (write_tombstone R h policy.cache_ttl_seconds c).1

  -- `revoke`, on the row found.
  unfoldable pub revoke_row : ℕ → Option SessionRow → State T R → Bool × State T R
  revoke_row now none st = (false, st)
  revoke_row now (some row) st =
      let (written, rows) = revoke_by_id T row.id now st.rows in
      (written, record { rows = rows; cache = poison (row.token_hash ∷ []) st.cache })

  -- `revoke`
  unfoldable pub revoke : ℕ → ℕ → State T R → Bool × State T R
  unfolding revoke_row
  revoke id now st = revoke_row now (find_by_id T id st.rows) st

  -- `revokeOwned`, on the row found.
  pub revoke_owned_row : ℕ → ℕ → Option SessionRow → State T R → OwnedRevocation × State T R
  revoke_owned_row user now none st = (not_found, st)
  revoke_owned_row user now (some row) st =
      if row.user_id == user
      then (let (written, rows) = revoke_by_id T row.id now st.rows in
          (
            (if written then was_revoked else nothing_to_revoke),
            record { rows = rows; cache = poison (row.token_hash ∷ []) st.cache },
          ))
      else (not_found, st)

  -- `revokeOwned`
  pub revoke_owned : ℕ → ℕ → ℕ → State T R → OwnedRevocation × State T R
  unfolding revoke_owned_row
  revoke_owned user id now st = revoke_owned_row user now (find_by_id T id st.rows) st

  -- `revokeMany`, which `revokeAllForUser` and `revokeAllForUserInOrganization` call.
  unfoldable pub revoke_many : Scope → ℕ → State T R → ℕ × State T R
  revoke_many scope now st =
      let before = map (λ r. r.token_hash) (list_live_for_user T scope st.rows) in
      let (count, hashes, rows) = revoke_live_for_user T scope now st.rows in
      (count, record { rows = rows; cache = poison hashes (poison before st.cache) })

  -- `revokeAllForUser`
  unfoldable pub revoke_all_for_user : ℕ → Option ℕ → ℕ → State T R → ℕ × State T R
  revoke_all_for_user user except =
      revoke_many (record { user_id = user; organization_id = none; except_session_id = except })

  -- `revokeAllForUserInOrganization`
  pub revoke_all_for_user_in_organization : ℕ → ℕ → ℕ → State T R → ℕ × State T R
  revoke_all_for_user_in_organization user org =
      revoke_many (record { user_id = user; organization_id = some org; except_session_id = none })

  -- `rotate`, on a row that is neither revoked nor expired.
  pub rotate_live : RotateInput → SessionRow → ℕ → ℕ → ℕ → ℕ → State T R → Rotation × State T R
  rotate_live input predecessor id token token_hash now st =
      let successor = successor_data policy predecessor input id token_hash now in
      let (done, rows) = rotate_rows T predecessor.id now successor st.rows in
      let st' : State T R = record {
        rows = rows;
        cache = poison (predecessor.token_hash ∷ []) st.cache;
      } in
      if starts_real_session predecessor input && not (is_date input.mfa_completed_at)
      then (evidence_required, st)
      else (if done
          then (Rotation.rotated (issued successor token now), st')
          else (not_rotated, st'))

  pub rotate_row :
      RotateInput → Option SessionRow → ℕ → ℕ → ℕ → ℕ → State T R → Rotation × State T R
  rotate_row input none id token token_hash now st = (not_rotated, st)
  rotate_row input (some row) id token token_hash now st =
      if is_some row.revoked_at || is_expired (to_resolved row) now
      then (not_rotated, st)
      else rotate_live input row id token token_hash now st

  -- `rotate`
  pub rotate_session : RotateInput → ℕ → ℕ → ℕ → ℕ → State T R → Rotation × State T R
  unfolding rotate_row rotate_live
  rotate_session input id token token_hash now st =
      rotate_row input (find_by_id T input.session_id st.rows) id token token_hash now st
