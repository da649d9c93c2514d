-- ===== src/Sessions/Service/Resolve.antt =====
-- What `resolve` may do to the state: move an idle clock, and cache a snapshot under its own hash.
use sstsaas_pv.Common.{ℕ, inl, inr, Option, none, some, is_some, Bool-cases, arith}
use sstsaas_pv.Common.Table.{Table}
use sstsaas_pv.Sessions.Rows.{
  SessionRow, SessionPolicy, ResolvedSession, is_renewal_due, is_expired, to_resolved,
  idle_expiry_from,
}
use sstsaas_pv.Sessions.Cache.{CacheValue, tombstone, encoded, unreadable, Redis, write_live}
use sstsaas_pv.Sessions.Repository.{touch}
use sstsaas_pv.Sessions.Service.{
  State, resolve, resolve_cached, resolve_from_database, resolve_row, settle_row, settle_snapshot,
  cache_renewed, renew,
}

module _ {κ} (T : Table SessionRow) (R : Redis) (policy : SessionPolicy) (P : State T R → Type κ)
    (touched : (id at idle : ℕ) (st : State T R)
      → P st
      → P (record st { rows = (touch T id at idle st.rows).1 }))
    (h : ℕ)
    (cached : (s : ResolvedSession) (ttl : ℕ) (st : State T R)
      → P st
      → P (record st { cache = (write_live R h s ttl st.cache).1 })) where
  renew-keeps :
      (s : ResolvedSession) (now : ℕ) (st : State T R) → P st → P (renew T R policy s now st).1
  unfolding renew
  renew-keeps s now st p =
      let moved = touched s.id now (idle_expiry_from policy now s.absolute_expires_at) st p in
      ground (arith, moved)

  settle_row-keeps :
      (o : Option ResolvedSession × State T R) → P o.1 → P (settle_row T R policy h o).1
  unfolding settle_row cache_renewed
  settle_row-keeps (none, st) p = p
  settle_row-keeps (some s, st) p = cached s policy.cache_ttl_seconds st p

  resolve_row-keeps :
      (now : ℕ) (o : Option SessionRow) (st : State T R)
      → P st
      → P (resolve_row T R policy h now o st).1
  unfolding resolve_row
  resolve_row-keeps now none st p = p
  resolve_row-keeps now (some row) st p =
      let renewed = settle_row-keeps _ (renew-keeps (to_resolved row) now st p) in
      elim (Bool-cases (is_some row.revoked_at)) [
        | inl gone ↦ rw gone p
        | inr live ↦ elim (Bool-cases (is_expired (to_resolved row) now)) [
          | inl over ↦ rw (live, over) p
          | inr fresh ↦ rw (live, fresh) renewed
        ]
      ]

  resolve_from_database-keeps :
      (now : ℕ) (st : State T R) → P st → P (resolve_from_database T R policy h now st).1
  unfolding resolve_from_database
  resolve_from_database-keeps now st p = resolve_row-keeps now _ st p

  settle_snapshot-keeps :
      (now : ℕ) (o : Option ResolvedSession × State T R)
      → P o.1
      → P (settle_snapshot T R policy h now o).1
  unfolding settle_snapshot cache_renewed
  settle_snapshot-keeps now (none, st) p = resolve_from_database-keeps now st p
  settle_snapshot-keeps now (some s, st) p = cached s policy.cache_ttl_seconds st p

  resolve_cached-keeps :
      (now : ℕ) (o : Option CacheValue) (st : State T R)
      → P st
      → P (resolve_cached T R policy h now o st).1
  unfolding resolve_cached
  resolve_cached-keeps now none st p = resolve_from_database-keeps now st p
  resolve_cached-keeps now (some tombstone) st p = p
  resolve_cached-keeps now (some unreadable) st p = resolve_from_database-keeps now st p
  resolve_cached-keeps now (some (encoded s)) st p =
      let renewed = settle_snapshot-keeps now _ (renew-keeps s now st p) in
      elim (Bool-cases (is_expired s now)) [
        | inl over ↦ rw over p
        | inr fresh ↦
            elim (Bool-cases (is_renewal_due s.last_seen_at now policy.idle_timeout_seconds)) [
              | inl due ↦ rw (fresh, due) renewed
              | inr early ↦ rw (fresh, early) p
            ]
      ]

  pub resolve-keeps : (now : ℕ) (st : State T R) → P st → P (resolve T R policy h now st).1
  unfolding resolve
  resolve-keeps now st p = resolve_cached-keeps now _ st p
