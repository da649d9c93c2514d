-- ===== src/Sessions/Repository.antt =====
-- `SessionRepository` of apps/api/src/modules/auth/session.repository.ts over the session table.
use sstsaas_pv.Common.{
  ℕ, ◌==◌, Bool, true, false, not, ◌&&◌, Option, none, some, is_none, holds_value, List, map,
  if◌then◌else◌,
}
use sstsaas_pv.Common.Table.{Table}
use sstsaas_pv.Sessions.Rows.{SessionRow, SessionCreateData, row_of}

-- `{ id, revokedAt: null }`
abbrev pub is_live_id : ℕ → SessionRow → Bool
is_live_id id r = r.id == id && is_none r.revoked_at

abbrev pub set_seen : ℕ → ℕ → SessionRow → SessionRow
set_seen last_seen_at idle_expires_at r = record r {
  last_seen_at = last_seen_at;
  idle_expires_at = idle_expires_at;
}

abbrev pub set_revoked : ℕ → SessionRow → SessionRow
set_revoked revoked_at r = record r { revoked_at = some revoked_at }

-- The scope of a mass revocation; `undefined` leaves a condition out.
pub record Scope : Type 0 where
  pub user_id : ℕ
  pub organization_id : Option ℕ
  pub except_session_id : Option ℕ

abbrev pub in_organization : Option ℕ → SessionRow → Bool
in_organization none r = true
in_organization (some org) r = holds_value r.active_organization_id org

abbrev pub not_excepted : Option ℕ → SessionRow → Bool
not_excepted none r = true
not_excepted (some id) r = not (r.id == id)

abbrev pub in_scope : Scope → SessionRow → Bool
in_scope scope r =
    r.user_id == scope.user_id
    && (in_organization scope.organization_id r && not_excepted scope.except_session_id r)

abbrev pub is_live_in : Scope → SessionRow → Bool
is_live_in scope r = in_scope scope r && is_none r.revoked_at

module _ (T : Table SessionRow) where
  unfoldable pub find_by_token_hash : ℕ → T.Store → Option SessionRow
  find_by_token_hash h = T.find_first (λ r. r.token_hash == h)

  unfoldable pub find_by_id : ℕ → T.Store → Option SessionRow
  find_by_id id = T.find_first (λ r. r.id == id)

  -- `touch`: `count === 1`
  unfoldable pub touch : ℕ → ℕ → ℕ → T.Store → Bool × T.Store
  touch id last_seen_at idle_expires_at s = (
    T.updated_count (is_live_id id) s == 1,
    T.update_many (is_live_id id) (set_seen last_seen_at idle_expires_at) s,
  )

  unfoldable pub revoke_by_id : ℕ → ℕ → T.Store → Bool × T.Store
  revoke_by_id id revoked_at s = (
    T.updated_count (is_live_id id) s == 1,
    T.update_many (is_live_id id) (set_revoked revoked_at) s,
  )

  unfoldable pub list_live_for_user : Scope → T.Store → List SessionRow
  list_live_for_user scope = T.find_many (is_live_in scope)

  -- `revokeLiveForUser`: the count, and the hashes of the rows in scope that carry this instant.
  unfoldable pub revoke_live_for_user : Scope → ℕ → T.Store → ℕ × List ℕ × T.Store
  revoke_live_for_user scope revoked_at s =
      let s' = T.update_many (is_live_in scope) (set_revoked revoked_at) s in
      (
        T.updated_count (is_live_in scope) s,
        map (λ r. r.token_hash)
            (T.find_many (λ r. in_scope scope r && holds_value r.revoked_at revoked_at) s'),
        s',
      )

  -- `rotate`: one transaction; where the predecessor is no longer live nothing is created.
  unfoldable pub rotate : ℕ → ℕ → SessionCreateData → T.Store → Bool × T.Store
  rotate current_id revoked_at successor s =
      let s' = T.update_many (is_live_id current_id) (set_revoked revoked_at) s in
      if T.updated_count (is_live_id current_id) s == 1
      then (true, T.create (row_of successor) s')
      else (false, s')
