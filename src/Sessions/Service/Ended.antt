-- ===== src/Sessions/Service/Ended.antt =====
-- A session that is over: its row is revoked and no live snapshot of it is cached.
use sstsaas_pv.Common.{
  ℕ, ◌≡◌, refl, ◌==◌, inl, inr, Bool, true, false, Option, none, some, is_some, List, [], ◌∷◌,
  find?, find?-map_if, map_if, Option-cases, arith, if◌then◌else◌, ==_iff,
}
use sstsaas_pv.Common.Table.{Table}
use sstsaas_pv.Sessions.Rows.{SessionRow, SessionPolicy, ResolvedSession, revoked}
use sstsaas_pv.Sessions.Cache.{
  CacheValue, tombstone, encoded, Redis, read, write_live, write_tombstone,
}
use sstsaas_pv.Sessions.Repository.{find_by_token_hash}
use sstsaas_pv.Sessions.Service.{
  State, resolve, resolve_cached, resolve_from_database, resolve_row, poison,
}

-- A live snapshot stands in the entry.
abbrev pub holds_live : Option CacheValue → Bool
holds_live (some (encoded s)) = true
holds_live _ = false

abbrev pub is_dead : Option SessionRow → Bool
is_dead none = false
is_dead (some row) = is_some row.revoked_at

module _ (T : Table SessionRow) (R : Redis) where
  -- The session of this token hash is over.
  abbrev pub IsEnded : ℕ → State T R → Type 0
  IsEnded h st =
      (is_dead (find_by_token_hash T h st.rows) ≡ true) × (holds_live (R.get h st.cache) ≡ false)

  -- What a rewrite of rows keeps.
  pub is_dead-update_many :
      (h : ℕ) (q : SessionRow → Bool) (f : SessionRow → SessionRow)
      → ((r : SessionRow) → (f r).token_hash ≡ r.token_hash)
      → ((r : SessionRow) → is_some r.revoked_at ≡ true → is_some (f r).revoked_at ≡ true)
      → (s : T.Store) → is_dead (find_by_token_hash T h s) ≡ true
      → is_dead (find_by_token_hash T h (T.update_many q f s)) ≡ true
  unfolding find_by_token_hash
  is_dead-update_many h q f same keep s d =
      rw (T.find_first_lem (λ r. r.token_hash == h) (T.update_many q f s), T.rows-update_many q f s)
        (found _ (rw (T.find_first_lem (λ r. r.token_hash == h) s) at d))
    where
      after :
          (r : SessionRow) (b : Bool)
          → is_some r.revoked_at ≡ true
          → is_some (if b then f r else r).revoked_at ≡ true
      after r true e = keep r e
      after r false e = e

      found :
          (xs : List SessionRow)
          → is_dead (find? (λ r. r.token_hash == h) xs) ≡ true
          → is_dead (find? (λ r. r.token_hash == h) (map_if q f xs)) ≡ true
      found xs e = elim (Option-cases (find? (λ r. r.token_hash == h) xs)) [
        | inl missing ↦ let absurd : false ≡ true = rw missing at e in cc
        | inr (r, hit) ↦
            rw (find?-map_if (λ r. r.token_hash == h) q f (λ x. rw (same x) refl) xs r hit)
              (after r (q r) (rw hit at e))
      ]

  pub holds_live-write_tombstone :
      (h k ttl : ℕ) (c : R.Store)
      → holds_live (R.get h c) ≡ false
      → holds_live (R.get h (write_tombstone R k ttl c).1) ≡ false
  unfolding write_tombstone
  holds_live-write_tombstone h k ttl c d =
      ground (
        arith,
        ==_iff h k,
        R.get-set_ex_self k ttl tombstone c,
        R.get-set_ex_ne h k ttl tombstone c,
      )

  pub holds_live-write_live :
      (h k ttl : ℕ) (s : ResolvedSession) (c : R.Store)
      → (h == k) ≡ false
      → holds_live (R.get h c) ≡ false
      → holds_live (R.get h (write_live R k s ttl c).1) ≡ false
  unfolding write_live
  holds_live-write_live h k ttl s c apart d = ground (arith, R.get-set_ex_ne h k ttl (encoded s) c)

  module _ (policy : SessionPolicy) where
    pub holds_live-poison :
        (h : ℕ) (ks : List ℕ) (c : R.Store)
        → holds_live (R.get h c) ≡ false
        → holds_live (R.get h (poison T R policy ks c)) ≡ false
    unfolding poison
    holds_live-poison h [] c d = d
    holds_live-poison h (k ∷ ks) c d =
        holds_live-poison h ks _ (holds_live-write_tombstone h k policy.cache_ttl_seconds c d)

    -- The token of a session that is over resolves to `revoked`, and nothing changes.
    pub resolve-ended :
        (h now : ℕ) (st : State T R) → IsEnded h st → resolve T R policy h now st ≡ (revoked, st)
    unfolding resolve resolve_cached resolve_from_database resolve_row read
    resolve-ended h now st d = ground (arith)
