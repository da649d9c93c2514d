-- ===== src/Sessions/Service/Issue.antt =====
-- `issue` followed by `resolve` of the token issued.
use sstsaas_pv.Common.{
  ℕ, ◌≡◌, ◌⊎◌, refl, inl, inr, ◌==◌, true, false, Option, none, some, Bool-cases, ==_refl,
  count_if-eq-zero, find?-none-All, All-map,
}
use sstsaas_pv.Common.Table.{Table}
use sstsaas_pv.Sessions.Rows.{
  SessionRow, SessionPolicy, SessionCreateData, ResolvedSession, SessionResolution, resolved,
  row_of, to_resolved, is_expired, is_renewal_due, idle_expiry_from,
}
use sstsaas_pv.Sessions.Cache.{
  CacheValue, tombstone, encoded, unreadable, Redis, read, is_tombstone,
}
use sstsaas_pv.Sessions.Repository.{find_by_token_hash, find_by_id, touch, is_live_id}
use sstsaas_pv.Sessions.Service.{
  State, IssueInput, issue, issue_data, issued, resolve, resolve_cached, resolve_from_database,
  resolve_row, settle_row, cache_renewed, renew,
}
use sstsaas_pv.Sessions.Service.Coherence.{IsCoherent}

-- The session is this one, its idle clock aside.
abbrev pub IsSession : ResolvedSession → SessionResolution → Type 0
IsSession s o =
    (at idle : ℕ) × (o ≡ resolved (record s { last_seen_at = at; idle_expires_at = idle }))

module _ (T : Table SessionRow) (R : Redis) (policy : SessionPolicy) where
  -- Of a new identifier there is one live row once it is created.
  touched_one :
      (d : SessionCreateData) (at idle : ℕ) (rows : T.Store)
      → find_by_id T d.id rows ≡ none
      → (touch T d.id at idle (T.create (row_of d) rows)).0 ≡ true
  unfolding touch find_by_id
  touched_one d at idle rows fresh =
      rw
        (
          T.updated_count_lem (is_live_id d.id) (T.create (row_of d) rows),
          T.rows-create (row_of d) rows,
          ==_refl d.id,
          count_if-eq-zero (is_live_id d.id) (T.rows rows) (
              All-map (λ r other. rw other refl) (T.rows rows)
                (find?-none-All (λ r. r.id == d.id) (T.rows rows)
                  (rw (T.find_first_lem (λ r. r.id == d.id) rows) at fresh))),
        )
        refl

  found_new :
      (d : SessionCreateData) (rows : T.Store)
      → find_by_token_hash T d.token_hash (T.create (row_of d) rows) ≡ some (row_of d)
  unfolding find_by_token_hash
  found_new d rows =
      rw
        (
          T.find_first_lem (λ r. r.token_hash == d.token_hash) (T.create (row_of d) rows),
          T.rows-create (row_of d) rows,
          ==_refl d.token_hash,
        )
        refl

  -- A coherent cache holds no snapshot under a hash that no row has.
  read_miss :
      (h : ℕ) (s : State T R)
      → IsCoherent T R s
      → find_by_token_hash T h s.rows ≡ none
      → is_tombstone (R.get h s.cache) ≡ false
      → (read R h s.cache ≡ none) ⊎ (read R h s.cache ≡ some unreadable)
  unfolding read
  read_miss h s coherent fresh clear = elim (Bool-cases (R.answers s.cache)) [
    | inl up ↦ rw up (entry (R.get h s.cache) refl)
    | inr down ↦ rw down (inl refl)
  ]
    where
      entry : (o : Option CacheValue) → R.get h s.cache ≡ o → (o ≡ none) ⊎ (o ≡ some unreadable)
      entry none e = inl refl
      entry (some unreadable) e = inr refl
      entry (some tombstone) e = let absurd : true ≡ false = rw e at clear in cc
      entry (some (encoded x)) e =
          let (row, found, _) = coherent h x e in
          let absurd : none ≡ some row = rw fresh at found in cc

  -- The resolution of a row that is live and due or not.
  resolve_row-IsSession :
      (h now : ℕ) (d : SessionCreateData) (cache : R.Store) (rows : T.Store)
      → find_by_id T d.id rows ≡ none
      → is_expired (to_resolved (row_of d)) now ≡ false
      → IsSession
          (to_resolved (row_of d))
          (resolve_row T R policy h now
            (some (row_of d))
            (record { rows = T.create (row_of d) rows; cache = cache })).0
  unfolding resolve_row settle_row cache_renewed renew
  resolve_row-IsSession h now d cache rows fresh early =
      let one = touched_one d now (idle_expiry_from policy now d.absolute_expires_at) rows fresh in
      elim (Bool-cases (is_renewal_due d.last_seen_at now policy.idle_timeout_seconds)) [
        | inl due ↦
            rw (early, due, one) (now, idle_expiry_from policy now d.absolute_expires_at, refl)
        | inr not_due ↦ rw (early, not_due) (d.last_seen_at, d.idle_expires_at, refl)
      ]

  -- Where the cache agrees with the rows, the new identifier and the new token's hash are on no row
  -- and no tombstone stands under that hash, a token resolves right after `issue`, for as long as the
  -- issued session has not expired, to the session issued, its idle clock aside.
  pub issue-resolve :
      (input : IssueInput) (id token h now : ℕ) (s : State T R)
      → IsCoherent T R s
      → find_by_id T id s.rows ≡ none
      → find_by_token_hash T h s.rows ≡ none
      → is_tombstone (R.get h s.cache) ≡ false
      → (later : ℕ) → is_expired (issue T R policy input id token h now s).0.session later ≡ false
      → IsSession
          (issue T R policy input id token h now s).0.session
          (resolve T R policy h later (issue T R policy input id token h now s).1).0
  unfolding resolve resolve_cached resolve_from_database issue issue_data issued
  issue-resolve input id token h now s coherent fresh_id fresh_hash clear later early =
      let d = issue_data policy input id h now in
      let row = resolve_row-IsSession h later d s.cache s.rows fresh_id early in
      elim (read_miss h s coherent fresh_hash clear) [
        | inl miss ↦ rw (miss, found_new d s.rows) row
        | inr miss ↦ rw (miss, found_new d s.rows) row
      ]
