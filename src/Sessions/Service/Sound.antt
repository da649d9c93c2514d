-- ===== src/Sessions/Service/Sound.antt =====
-- What a resolved session is: the row of its token, not expired, and the cache stays in agreement.
use sstsaas_pv.Common.{
  ℕ, ◌≡◌, ◌<◌, refl, subst, ap, inl, inr, false, Option, none, some, is_some, Bool-cases, arith,
}
use sstsaas_pv.Common.Table.{Table}
use sstsaas_pv.Sessions.Rows.{
  SessionRow, SessionPolicy, ResolvedSession, SessionResolution, resolved, to_resolved, is_expired,
  is_renewal_due, idle_expiry_from,
}
use sstsaas_pv.Sessions.Cache.{CacheValue, tombstone, encoded, unreadable, Redis, read}
use sstsaas_pv.Sessions.Repository.{find_by_token_hash, touch, is_live_id, set_seen}
use sstsaas_pv.Sessions.Service.{
  State, resolve, resolve_cached, resolve_from_database, resolve_row, settle_row, settle_snapshot,
  cache_renewed, renew,
}
use sstsaas_pv.Sessions.Service.Coherence.{
  Vouched, IsCoherent, Vouched-update_many, IsCoherent-write_live, IsCoherent-update_many,
}

-- Neither deadline of the session has come.
abbrev pub IsUnexpired : ℕ → ResolvedSession → Type 0
IsUnexpired now s = (now < s.absolute_expires_at) × (now < s.idle_expires_at)

abbrev set_clock : ℕ → ℕ → ResolvedSession → ResolvedSession
set_clock at idle s = record s { last_seen_at = at; idle_expires_at = idle }

is_expired-IsUnexpired :
    (s : ResolvedSession) (now : ℕ) → is_expired s now ≡ false → IsUnexpired now s
is_expired-IsUnexpired s now h = ground arith

idle_expiry_from-later :
    (policy : SessionPolicy) (now absolute : ℕ)
    → 0 < policy.idle_timeout_seconds
    → now < absolute
    → now < idle_expiry_from policy now absolute
unfolding idle_expiry_from
idle_expiry_from-later policy now absolute positive before = ground arith

some_inj : {A : Type 0} {a b : A} → some a ≡ some b → a ≡ b
some_inj e = cc

resolved_inj : {a b : ResolvedSession} → resolved a ≡ resolved b → a ≡ b
resolved_inj e = cc

module _ (T : Table SessionRow) (R : Redis) (policy : SessionPolicy)
    (positive : 0 < policy.idle_timeout_seconds) (h now : ℕ) where
  abbrev Vouches : ResolvedSession → State T R → Type 0
  Vouches s st = Vouched T R h s st.rows × IsUnexpired now s

  abbrev Renewed : Option ResolvedSession × State T R → Type 0
  Renewed o = IsCoherent T R o.1 × ((s : ResolvedSession) → o.0 ≡ some s → Vouches s o.1)

  abbrev Sound : SessionResolution × State T R → Type 0
  Sound o = IsCoherent T R o.1 × ((s : ResolvedSession) → o.0 ≡ resolved s → Vouches s o.1)

  IsCoherent-touch :
      (id idle : ℕ) (st : State T R)
      → IsCoherent T R st
      → IsCoherent T R (record st { rows = (touch T id now idle st.rows).1 })
  unfolding touch
  IsCoherent-touch id idle =
      IsCoherent-update_many T R (is_live_id id) (set_seen now idle) (λ r. refl) (λ s r a. a)

  Vouched-touch :
      (s : ResolvedSession) (id idle : ℕ) (rows : T.Store)
      → Vouched T R h s rows
      → Vouched T R h s (touch T id now idle rows).1
  unfolding touch
  Vouched-touch s id idle =
      Vouched-update_many T R h s (is_live_id id) (set_seen now idle) (λ r. refl) (λ r a. a)

  Vouched-moved :
      (s : ResolvedSession) (at idle : ℕ) (rows : T.Store)
      → Vouched T R h s rows
      → Vouched T R h (set_clock at idle s) rows
  Vouched-moved s at idle rows (row, found, agrees) = (row, found, ap (set_clock at idle) agrees)

  renew-Renewed :
      (s : ResolvedSession) (st : State T R)
      → IsCoherent T R st
      → Vouches s st
      → Renewed (renew T R policy s now st)
  unfolding renew
  renew-Renewed s st coherent vouched =
      let idle = idle_expiry_from policy now s.absolute_expires_at in
      let touched = IsCoherent-touch s.id idle st coherent in
      let st' : State T R = record st { rows = (touch T s.id now idle st.rows).1 } in
      let vouches : Vouches (set_clock now idle s) st' = (
        Vouched-moved s now idle _ (Vouched-touch s s.id idle st.rows vouched.0),
        (vouched.1.0, idle_expiry_from-later policy now s.absolute_expires_at positive vouched.1.0),
      ) in
      elim (Bool-cases (is_renewal_due s.last_seen_at now policy.idle_timeout_seconds)) [
        | inl due ↦ elim (Bool-cases (touch T s.id now idle st.rows).0) [
          | inl live ↦
              rw (due, live) (touched, λ x e. subst (λ y. Vouches y st') (some_inj e) vouches)
          | inr gone ↦ rw (due, gone) (touched, λ x e. cc)
        ]
        | inr early ↦ rw early (coherent, λ x e. subst (λ y. Vouches y st) (some_inj e) vouched)
      ]

  cached-Sound :
      (s : ResolvedSession) (st : State T R)
      → IsCoherent T R st
      → Vouches s st
      → Sound (cache_renewed T R policy h s st)
  unfolding cache_renewed
  cached-Sound s st coherent vouched = (
    IsCoherent-write_live T R h policy.cache_ttl_seconds s st vouched.0 coherent,
    λ x e. subst (λ y. Vouches y st) (resolved_inj e) vouched,
  )

  settle_row-Sound :
      (o : Option ResolvedSession × State T R) → Renewed o → Sound (settle_row T R policy h o)
  unfolding settle_row
  settle_row-Sound (none, st) r = (r.0, λ x e. cc)
  settle_row-Sound (some s, st) r = cached-Sound s st r.0 (r.1 s refl)

  resolve_row-Sound :
      (o : Option SessionRow) (st : State T R)
      → find_by_token_hash T h st.rows ≡ o
      → IsCoherent T R st
      → Sound (resolve_row T R policy h now o st)
  unfolding resolve_row
  resolve_row-Sound none st found coherent = (coherent, λ x e. cc)
  resolve_row-Sound (some row) st found coherent = elim (Bool-cases (is_some row.revoked_at)) [
    | inl gone ↦ rw gone (coherent, λ x e. cc)
    | inr live ↦ elim (Bool-cases (is_expired (to_resolved row) now)) [
      | inl over ↦ rw (live, over) (coherent, λ x e. cc)
      | inr fresh ↦
          rw (live, fresh)
            (settle_row-Sound _ (
              renew-Renewed (to_resolved row) st coherent
                ((row, found, refl), is_expired-IsUnexpired (to_resolved row) now fresh)))
    ]
  ]

  resolve_from_database-Sound :
      (st : State T R) → IsCoherent T R st → Sound (resolve_from_database T R policy h now st)
  unfolding resolve_from_database
  resolve_from_database-Sound st coherent = resolve_row-Sound _ st refl coherent

  settle_snapshot-Sound :
      (o : Option ResolvedSession × State T R)
      → Renewed o
      → Sound (settle_snapshot T R policy h now o)
  unfolding settle_snapshot
  settle_snapshot-Sound (none, st) r = resolve_from_database-Sound st r.0
  settle_snapshot-Sound (some s, st) r = cached-Sound s st r.0 (r.1 s refl)

  resolve_cached-Sound :
      (o : Option CacheValue) (st : State T R)
      → ((s : ResolvedSession) → o ≡ some (encoded s) → Vouched T R h s st.rows)
      → IsCoherent T R st
      → Sound (resolve_cached T R policy h now o st)
  unfolding resolve_cached
  resolve_cached-Sound none st v coherent = resolve_from_database-Sound st coherent
  resolve_cached-Sound (some tombstone) st v coherent = (coherent, λ x e. cc)
  resolve_cached-Sound (some unreadable) st v coherent = resolve_from_database-Sound st coherent
  resolve_cached-Sound (some (encoded s)) st v coherent = elim (Bool-cases (is_expired s now)) [
    | inl over ↦ rw over (coherent, λ x e. cc)
    | inr fresh ↦
        let vouched : Vouches s st = (v s refl, is_expired-IsUnexpired s now fresh) in
        elim (Bool-cases (is_renewal_due s.last_seen_at now policy.idle_timeout_seconds)) [
          | inl due ↦
              rw (fresh, due) (settle_snapshot-Sound _ (renew-Renewed s st coherent vouched))
          | inr early ↦
              rw (fresh, early)
                (coherent, λ x e. subst (λ y. Vouches y st) (resolved_inj e) vouched)
        ]
  ]

  read-Vouched :
      (st : State T R) (s : ResolvedSession)
      → IsCoherent T R st
      → read R h st.cache ≡ some (encoded s)
      → Vouched T R h s st.rows
  unfolding read
  read-Vouched st s coherent e = elim (Bool-cases (R.answers st.cache)) [
    | inl up ↦ coherent h s (rw up at e)
    | inr down ↦ let impossible : none ≡ some (encoded s) = rw down at e in cc
  ]

  pub resolve-Sound :
      (st : State T R)
      → IsCoherent T R st
      → IsCoherent T R (resolve T R policy h now st).1
        × ((s : ResolvedSession)
            → (resolve T R policy h now st).0 ≡ resolved s
            → Vouched T R h s (resolve T R policy h now st).1.rows × IsUnexpired now s)
  unfolding resolve
  resolve-Sound st coherent = resolve_cached-Sound _ st (λ s. read-Vouched st s coherent) coherent
