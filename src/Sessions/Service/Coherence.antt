-- ===== src/Sessions/Service/Coherence.antt =====
-- Agreement of cache and rows: a live snapshot cached under a hash differs from the row of that hash
-- in its idle clock at most.
use sstsaas_pv.Common.{
  ℕ, ◌≡◌, ◌⊎◌, refl, subst, sym, inl, inr, ◌==◌, Bool, true, false, none, some, List, [], ◌∷◌,
  find?-map_if, Bool-cases, arith, if◌then◌else◌, ==_iff, ◌∙◌,
}
use sstsaas_pv.Common.Table.{Table}
use sstsaas_pv.Sessions.Rows.{
  SessionRow, SessionPolicy, SessionCreateData, ResolvedSession, row_of, to_resolved,
}
use sstsaas_pv.Sessions.Cache.{tombstone, encoded, Redis, write_tombstone, write_live}
use sstsaas_pv.Sessions.Repository.{find_by_token_hash}
use sstsaas_pv.Sessions.Service.{State, poison}
use sstsaas_pv.Sessions.Service.Calls.{Forgets}

-- Every field but `last_seen_at` and `idle_expires_at` is the row's.
abbrev pub Agrees : ResolvedSession → SessionRow → Type 0
Agrees s row =
    record (to_resolved row) { last_seen_at = s.last_seen_at; idle_expires_at = s.idle_expires_at }
    ≡ s

module _ (T : Table SessionRow) (R : Redis) where
  abbrev pub Vouched : ℕ → ResolvedSession → T.Store → Type 0
  Vouched h s rows = (row : SessionRow) × (find_by_token_hash T h rows ≡ some row) × Agrees s row

  abbrev pub IsCoherent : State T R → Type 0
  IsCoherent st =
      (h : ℕ) (s : ResolvedSession) → R.get h st.cache ≡ some (encoded s) → Vouched h s st.rows

  pub Vouched-update_many :
      (h : ℕ) (s : ResolvedSession) (q : SessionRow → Bool) (f : SessionRow → SessionRow)
      → ((r : SessionRow) → (f r).token_hash ≡ r.token_hash)
      → ((r : SessionRow) → Agrees s r → Agrees s (f r))
      → (rows : T.Store) → Vouched h s rows
      → Vouched h s (T.update_many q f rows)
  unfolding find_by_token_hash
  Vouched-update_many h s q f same keep rows (row, found, agrees) = (
    if q row then f row else row,
    rw
        (
          T.find_first_lem (λ r. r.token_hash == h) (T.update_many q f rows),
          T.rows-update_many q f rows,
        )
        (find?-map_if (λ r. r.token_hash == h) q f (λ x. rw (same x) refl) (T.rows rows) row
          (rw (T.find_first_lem (λ r. r.token_hash == h) rows) at found)),
    after (q row),
  )
    where
      after : (b : Bool) → Agrees s (if b then f row else row)
      after true = keep row agrees
      after false = agrees

  pub Vouched-create :
      (h : ℕ) (s : ResolvedSession) (d : SessionCreateData) (rows : T.Store)
      → find_by_token_hash T d.token_hash rows ≡ none
      → Vouched h s rows
      → Vouched h s (T.create (row_of d) rows)
  unfolding find_by_token_hash
  Vouched-create h s d rows fresh (row, found, agrees) = (
    row,
    rw
        (
          T.find_first_lem (λ r. r.token_hash == h) (T.create (row_of d) rows),
          T.rows-create (row_of d) rows,
          apart,
        )
        (rw (T.find_first_lem (λ r. r.token_hash == h) rows) at found),
    agrees,
  )
    where
      apart : (d.token_hash == h) ≡ false
      apart = elim (Bool-cases (d.token_hash == h)) [
        | inl same ↦
            let missing : T.find_first (λ r. r.token_hash == h) rows ≡ none =
              subst (λ n. T.find_first (λ r. r.token_hash == n) rows ≡ none)
                ((==_iff d.token_hash h).0 same) fresh in
            cc
        | inr other ↦ other
      ]

  -- An entry after a write: it is the old one, or the one written under its own key.
  write_live-get :
      (h k ttl : ℕ) (snapshot : ResolvedSession) (c : R.Store)
      → (R.get h (write_live R k snapshot ttl c).1 ≡ R.get h c)
        ⊎ ((h ≡ k) × (R.get h (write_live R k snapshot ttl c).1 ≡ some (encoded snapshot)))
  unfolding write_live
  write_live-get h k ttl snapshot c = ground (
    arith,
    ==_iff h k,
    R.get-set_ex_self k ttl (encoded snapshot) c,
    R.get-set_ex_ne h k ttl (encoded snapshot) c,
  )

  write_tombstone-get :
      (h k ttl : ℕ) (c : R.Store)
      → (R.get h (write_tombstone R k ttl c).1 ≡ R.get h c)
        ⊎ (R.get h (write_tombstone R k ttl c).1 ≡ some tombstone)
  unfolding write_tombstone
  write_tombstone-get h k ttl c =
      ground (
        arith,
        ==_iff h k,
        R.get-set_ex_self k ttl tombstone c,
        R.get-set_ex_ne h k ttl tombstone c,
      )

  pub IsCoherent-write_live :
      (k ttl : ℕ) (snapshot : ResolvedSession) (st : State T R)
      → Vouched k snapshot st.rows
      → IsCoherent st
      → IsCoherent (record st { cache = (write_live R k snapshot ttl st.cache).1 })
  IsCoherent-write_live k ttl snapshot st vouched coherent h s e =
      elim (write_live-get h k ttl snapshot st.cache) [
        | inl kept ↦ coherent h s (sym kept ∙ e)
        | inr (this, written) ↦
            let same : snapshot ≡ s = cc in
            subst (λ n. Vouched n s st.rows) (sym this)
              (subst (λ x. Vouched k x st.rows) same vouched)
      ]

  pub IsCoherent-write_tombstone :
      (k ttl : ℕ) (st : State T R)
      → IsCoherent st
      → IsCoherent (record st { cache = (write_tombstone R k ttl st.cache).1 })
  IsCoherent-write_tombstone k ttl st coherent h s e = elim (write_tombstone-get h k ttl st.cache) [
    | inl kept ↦ coherent h s (sym kept ∙ e)
    | inr gone ↦ cc
  ]

  pub IsCoherent-poison :
      (policy : SessionPolicy) (ks : List ℕ) (rows : T.Store) (c : R.Store)
      → IsCoherent (record { rows = rows; cache = c })
      → IsCoherent (record { rows = rows; cache = poison T R policy ks c })
  unfolding poison
  IsCoherent-poison policy [] rows c coherent = coherent
  IsCoherent-poison policy (k ∷ ks) rows c coherent = IsCoherent-poison policy ks rows _ (
      IsCoherent-write_tombstone k policy.cache_ttl_seconds (record { rows = rows; cache = c })
        coherent)

  pub IsCoherent-Forgets :
      (st : State T R) (cache : R.Store) (policy : SessionPolicy)
      → Forgets T R policy st.cache cache
      → IsCoherent st
      → IsCoherent (record st { cache = cache })
  IsCoherent-Forgets st cache policy f coherent h s e = elim (f h) [
    | inl gone ↦ cc
    | inr kept ↦ coherent h s (sym kept ∙ e)
  ]

  -- Rewrites of rows that a snapshot does not see.
  pub IsCoherent-update_many :
      (q : SessionRow → Bool) (f : SessionRow → SessionRow)
      → ((r : SessionRow) → (f r).token_hash ≡ r.token_hash)
      → ((s : ResolvedSession) (r : SessionRow) → Agrees s r → Agrees s (f r))
      → (st : State T R) → IsCoherent st
      → IsCoherent (record st { rows = T.update_many q f st.rows })
  IsCoherent-update_many q f same keep st coherent h s e =
      Vouched-update_many h s q f same (keep s) st.rows (coherent h s e)
