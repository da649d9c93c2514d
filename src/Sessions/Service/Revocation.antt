-- ===== src/Sessions/Service/Revocation.antt =====
-- What a revocation ends for good: one session, all the sessions in a scope, a rotated session.
use sstsaas_pv.Common.{
  ℕ, ◌≡◌, refl, inl, inr, ◌==◌, Bool, true, false, ◌||◌, Option, none, some, is_some, is_none, List,
  [], ◌∷◌, find?, any, filter, find?-map_if, find?-holds, Bool-cases, arith, ==_iff, ==_refl, map,
}
use sstsaas_pv.Common.Table.{Table}
use sstsaas_pv.Sessions.Rows.{SessionRow, SessionPolicy, revoked}
use sstsaas_pv.Sessions.Cache.{tombstone, Redis, write_tombstone}
use sstsaas_pv.Sessions.Repository.{
  Scope, find_by_token_hash, find_by_id, revoke_by_id, revoke_live_for_user, is_live_in, is_live_id,
  set_revoked, list_live_for_user,
}
use sstsaas_pv.Sessions.Service.{
  State, resolve, revoke, revoke_row, revoke_owned, revoke_owned_row, revoke_many, poison,
}
use sstsaas_pv.Sessions.Service.Calls.{Steps}
use sstsaas_pv.Sessions.Service.Ended.{holds_live, is_dead, IsEnded, holds_live-poison}
use sstsaas_pv.Sessions.Service.Stays.{Steps-resolve}

module _ (T : Table SessionRow) (R : Redis) (policy : SessionPolicy) where
  -- While Redis answers, every poisoned key loses its snapshot.
  poison-holds_live :
      (h : ℕ) (ks : List ℕ) (c : R.Store)
      → R.answers c ≡ true
      → any (λ k. k == h) ks ≡ true
      → holds_live (R.get h (poison T R policy ks c)) ≡ false
  unfolding poison write_tombstone
  poison-holds_live h [] c up hit = cc
  poison-holds_live h (k ∷ ks) c up hit = elim (Bool-cases (k == h)) [
    | inl this ↦
        holds_live-poison T R policy h ks _
          (ground (arith, up, ==_iff k h, R.get-set_ex_self h policy.cache_ttl_seconds tombstone c))
    | inr other ↦
        poison-holds_live h ks _
          (ground (arith, up, R.answers-set_ex k policy.cache_ttl_seconds tombstone c))
          (rw other at hit)
  ]

  -- The row of a hash after a revocation whose condition it meets.
  pub is_dead-hit :
      (q : SessionRow → Bool) (at h : ℕ) (row : SessionRow) (s : T.Store)
      → find_by_token_hash T h s ≡ some row
      → is_some row.revoked_at || q row ≡ true
      → is_dead (find_by_token_hash T h (T.update_many q (set_revoked at) s)) ≡ true
  unfolding find_by_token_hash
  is_dead-hit q at h row s found hit =
      rw
        (
          T.find_first_lem (λ r. r.token_hash == h) (T.update_many q (set_revoked at) s),
          T.rows-update_many q (set_revoked at) s,
          find?-map_if (λ r. r.token_hash == h) q (set_revoked at) (λ r. refl) (T.rows s) row
              (rw (T.find_first_lem (λ r. r.token_hash == h) s) at found),
        )
        (ground (arith, hit))

  or_true : (b : Bool) → b || true ≡ true
  or_true b = ground arith

  some_or_none : {A : Type 0} (o : Option A) → is_some o || is_none o ≡ true
  some_or_none none = refl
  some_or_none (some a) = refl

  pub live_or_dead : (row : SessionRow) → is_some row.revoked_at || is_live_id row.id row ≡ true
  live_or_dead row = rw (==_refl row.id) (some_or_none row.revoked_at)

  hash_of :
      (h : ℕ) (row : SessionRow) (s : T.Store)
      → find_by_token_hash T h s ≡ some row
      → (row.token_hash == h) ≡ true
  unfolding find_by_token_hash
  hash_of h row s found =
      find?-holds (λ r. r.token_hash == h) (T.rows s) row
        (rw (T.find_first_lem (λ r. r.token_hash == h) s) at found)

  -- The row of the hash revoked, and its entry poisoned.
  pub ends_one :
      (h : ℕ) (row : SessionRow) (at : ℕ) (s : State T R)
      → find_by_token_hash T h s.rows ≡ some row
      → R.answers s.cache ≡ true
      → IsEnded T R h (record {
        rows = (revoke_by_id T row.id at s.rows).1;
        cache = poison T R policy (row.token_hash ∷ []) s.cache;
      })
  unfolding revoke_by_id
  ends_one h row at s found up = (
    is_dead-hit (is_live_id row.id) at h row s.rows found (live_or_dead row),
    poison-holds_live h (row.token_hash ∷ []) s.cache up (rw (hash_of h row s.rows found) refl),
  )

  revoke-IsEnded :
      (id h : ℕ) (row : SessionRow) (at : ℕ) (s : State T R)
      → find_by_id T id s.rows ≡ some row
      → find_by_token_hash T h s.rows ≡ some row
      → R.answers s.cache ≡ true
      → IsEnded T R h (revoke T R policy id at s).1
  unfolding revoke revoke_row
  revoke-IsEnded id h row at s by_id by_hash up = rw by_id (ends_one h row at s by_hash up)

  revoke_owned-IsEnded :
      (user id h : ℕ) (row : SessionRow) (at : ℕ) (s : State T R)
      → find_by_id T id s.rows ≡ some row
      → find_by_token_hash T h s.rows ≡ some row
      → (row.user_id == user) ≡ true
      → R.answers s.cache ≡ true
      → IsEnded T R h (revoke_owned T R policy user id at s).1
  unfolding revoke_owned revoke_owned_row
  revoke_owned-IsEnded user id h row at s by_id by_hash own up =
      rw (by_id, own) (ends_one h row at s by_hash up)

  listed :
      (h : ℕ) (row : SessionRow) (p : SessionRow → Bool) (xs : List SessionRow)
      → find? (λ r. r.token_hash == h) xs ≡ some row
      → p row ≡ true
      → any (λ k. k == h) (map (λ r. r.token_hash) (filter p xs)) ≡ true
  listed h row p [] found live = cc
  listed h row p (x ∷ xs) found live = elim (Bool-cases (x.token_hash == h)) [
    | inl hit ↦ ground (arith, hit)
    | inr miss ↦ ground (arith, miss, listed h row p xs)
  ]

  revoke_many-IsEnded :
      (scope : Scope) (h : ℕ) (row : SessionRow) (at : ℕ) (s : State T R)
      → find_by_token_hash T h s.rows ≡ some row
      → is_live_in scope row ≡ true
      → R.answers s.cache ≡ true
      → IsEnded T R h (revoke_many T R policy scope at s).1
  unfolding revoke_many revoke_live_for_user list_live_for_user find_by_token_hash
  revoke_many-IsEnded scope h row at s found live up = (
    is_dead-hit (is_live_in scope) at h row s.rows found
        (rw live (or_true (is_some row.revoked_at))),
    holds_live-poison T R policy h _ _ (
        poison-holds_live h _ s.cache up (
          rw (T.find_many_lem (is_live_in scope) s.rows) (
            listed h row (is_live_in scope) (T.rows s.rows)
              (rw (T.find_first_lem (λ r. r.token_hash == h) s.rows) at found) live))),
  )

  -- Revoking a session while Redis answers, where its identifier and its token hash find the same
  -- row, makes its token resolve to `revoked` after any later sequence of requests and of expiries,
  -- evictions and outages of the cache, where every new token's hash is on no row yet.
  pub revoke-resolve :
      (id h : ℕ) (row : SessionRow) (at : ℕ) (s t : State T R)
      → find_by_id T id s.rows ≡ some row
      → find_by_token_hash T h s.rows ≡ some row
      → R.answers s.cache ≡ true
      → Steps T R policy (revoke T R policy id at s).1 t
      → (now : ℕ) → (resolve T R policy h now t).0 ≡ revoked
  revoke-resolve id h row at s t by_id by_hash up later now =
      Steps-resolve T R policy h _ t later (revoke-IsEnded id h row at s by_id by_hash up) now

  -- After a mass revocation while Redis answers, the token of every session that was live and in its
  -- scope resolves to `revoked`, after any later sequence of requests and of expiries, evictions and
  -- outages of the cache, where every new token's hash is on no row yet.
  pub revoke_many-resolve :
      (scope : Scope) (h : ℕ) (row : SessionRow) (at : ℕ) (s t : State T R)
      → find_by_token_hash T h s.rows ≡ some row
      → is_live_in scope row ≡ true
      → R.answers s.cache ≡ true
      → Steps T R policy (revoke_many T R policy scope at s).1 t
      → (now : ℕ) → (resolve T R policy h now t).0 ≡ revoked
  revoke_many-resolve scope h row at s t by_hash live up later now =
      Steps-resolve T R policy h _ t later (revoke_many-IsEnded scope h row at s by_hash live up)
        now
