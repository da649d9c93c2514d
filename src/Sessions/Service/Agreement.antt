-- ===== src/Sessions/Service/Agreement.antt =====
-- The agreement of cache and rows through every request, and what a resolved session then is.
use sstsaas_pv.Common.{
  ap, sym, ℕ, ◌≡◌, ◌<◌, refl, inl, inr, ◌==◌, Bool, not, ◌&&◌, ◌||◌, Option, none, some, is_some,
  [], ◌∷◌, Bool-cases, find?-none-map_if,
}
use sstsaas_pv.Common.Table.{Table}
use sstsaas_pv.Sessions.Rows.{
  SessionRow, SessionPolicy, SessionCreateData, ResolvedSession, resolved, row_of, to_resolved,
  is_expired,
}
use sstsaas_pv.Sessions.Cache.{Redis}
use sstsaas_pv.Sessions.Repository.{
  find_by_token_hash, revoke_by_id, revoke_live_for_user, is_live_in, is_live_id, set_revoked,
  rotate,
}
use sstsaas_pv.Sessions.Service.{
  State, RotateInput, issue, issue_data, resolve, revoke, revoke_row, revoke_owned,
  revoke_owned_row, revoke_many, rotate_session, rotate_row, rotate_live, successor_data,
  starts_real_session, is_date,
}
use sstsaas_pv.Sessions.Service.Calls.{
  Step, issues, resolves, revokes, revokes_owned, revokes_many, rotates, forgets, Steps, done, next,
}
use sstsaas_pv.Sessions.Service.Coherence.{
  IsCoherent, Vouched-create, IsCoherent-update_many, IsCoherent-poison, IsCoherent-Forgets,
}
use sstsaas_pv.Sessions.Service.Sound.{IsUnexpired, resolve-Sound}

-- The session is the row, in every field but the idle clock.
abbrev pub MatchesRow : ResolvedSession → SessionRow → Type 0
MatchesRow x row =
    (x.id ≡ row.id)
    × (x.user_id ≡ row.user_id)
    × (x.status ≡ row.status)
    × (x.active_organization_id ≡ row.active_organization_id)
    × (x.remember_me ≡ row.remember_me)
    × (x.absolute_expires_at ≡ row.absolute_expires_at)
    × (x.mfa_completed_at ≡ row.mfa_completed_at)

module _ (T : Table SessionRow) (R : Redis) (policy : SessionPolicy)
    (positive : 0 < policy.idle_timeout_seconds) where
  IsCoherent-revoke :
      (q : SessionRow → Bool) (at : ℕ) (st : State T R)
      → IsCoherent T R st
      → IsCoherent T R (record st { rows = T.update_many q (set_revoked at) st.rows })
  IsCoherent-revoke q at = IsCoherent-update_many T R q (set_revoked at) (λ r. refl) (λ s r a. a)

  IsCoherent-create :
      (d : SessionCreateData) (st : State T R)
      → find_by_token_hash T d.token_hash st.rows ≡ none
      → IsCoherent T R st
      → IsCoherent T R (record st { rows = T.create (row_of d) st.rows })
  IsCoherent-create d st fresh coherent h s e =
      Vouched-create T R h s d st.rows fresh (coherent h s e)

  revoke_row-IsCoherent :
      (now : ℕ) (o : Option SessionRow) (st : State T R)
      → IsCoherent T R st
      → IsCoherent T R (revoke_row T R policy now o st).1
  unfolding revoke_row revoke_by_id
  revoke_row-IsCoherent now none st c = c
  revoke_row-IsCoherent now (some row) st c =
      IsCoherent-poison T R policy (row.token_hash ∷ []) _ st.cache
        (IsCoherent-revoke (is_live_id row.id) now st c)

  revoke_owned_row-IsCoherent :
      (user now : ℕ) (o : Option SessionRow) (st : State T R)
      → IsCoherent T R st
      → IsCoherent T R (revoke_owned_row T R policy user now o st).1
  unfolding revoke_owned_row revoke_by_id
  revoke_owned_row-IsCoherent user now none st c = c
  revoke_owned_row-IsCoherent user now (some row) st c =
      let after =
        IsCoherent-poison T R policy (row.token_hash ∷ []) _ st.cache
          (IsCoherent-revoke (is_live_id row.id) now st c) in
      elim (Bool-cases (row.user_id == user)) [ inl own ↦ rw own after | inr other ↦ rw other c ]

  find-update_many :
      (k : ℕ) (q : SessionRow → Bool) (at : ℕ) (s : T.Store)
      → find_by_token_hash T k s ≡ none
      → find_by_token_hash T k (T.update_many q (set_revoked at) s) ≡ none
  unfolding find_by_token_hash
  find-update_many k q at s fresh =
      rw
        (
          T.find_first_lem (λ r. r.token_hash == k) (T.update_many q (set_revoked at) s),
          T.rows-update_many q (set_revoked at) s,
        )
        (find?-none-map_if (λ r. r.token_hash == k) q (set_revoked at) (λ x. refl) (T.rows s)
          (rw (T.find_first_lem (λ r. r.token_hash == k) s) at fresh))

  IsCoherent-rotate :
      (id now : ℕ) (d : SessionCreateData) (st : State T R)
      → find_by_token_hash T d.token_hash st.rows ≡ none
      → IsCoherent T R st
      → IsCoherent T R (record st { rows = (rotate T id now d st.rows).1 })
  unfolding rotate
  IsCoherent-rotate id now d st fresh c =
      let st' : State T R = record st {
        rows = T.update_many (is_live_id id) (set_revoked now) st.rows;
      } in
      let gone = IsCoherent-revoke (is_live_id id) now st c in
      let made =
        IsCoherent-create d st' (find-update_many d.token_hash (is_live_id id) now st.rows fresh)
          gone in
      elim (Bool-cases (T.updated_count (is_live_id id) st.rows == 1)) [
        | inl one ↦ rw one made
        | inr other ↦ rw other gone
      ]

  rotate_live-IsCoherent :
      (input : RotateInput) (row : SessionRow) (id token k now : ℕ) (st : State T R)
      → find_by_token_hash T k st.rows ≡ none
      → IsCoherent T R st
      → IsCoherent T R (rotate_live T R policy input row id token k now st).1
  unfolding rotate_live successor_data
  rotate_live-IsCoherent input row id token k now st fresh c =
      let d = successor_data policy row input id k now in
      let after =
        IsCoherent-poison T R policy (row.token_hash ∷ []) _ st.cache
          (IsCoherent-rotate row.id now d st fresh c) in
      elim (Bool-cases (starts_real_session row input && not (is_date input.mfa_completed_at))) [
        | inl refused ↦ rw refused c
        | inr admitted ↦ elim (Bool-cases (rotate T row.id now d st.rows).0) [
          | inl won ↦ rw (admitted, won) after
          | inr lost ↦ rw (admitted, lost) after
        ]
      ]

  rotate_row-IsCoherent :
      (input : RotateInput) (o : Option SessionRow) (id token k now : ℕ) (st : State T R)
      → find_by_token_hash T k st.rows ≡ none
      → IsCoherent T R st
      → IsCoherent T R (rotate_row T R policy input o id token k now st).1
  unfolding rotate_row
  rotate_row-IsCoherent input none id token k now st fresh c = c
  rotate_row-IsCoherent input (some row) id token k now st fresh c =
      let after = rotate_live-IsCoherent input row id token k now st fresh c in
      elim (Bool-cases (is_some row.revoked_at || is_expired (to_resolved row) now)) [
        | inl over ↦ rw over c
        | inr live ↦ rw live after
      ]

  Step-IsCoherent : (s t : State T R) → Step T R policy s t → IsCoherent T R s → IsCoherent T R t
  unfolding issue issue_data revoke revoke_owned revoke_many rotate_session revoke_live_for_user
  Step-IsCoherent s t (issues input id token k now st fresh) c =
      IsCoherent-create (issue_data policy input id k now) s fresh c
  Step-IsCoherent s t (resolves k now st) c = (resolve-Sound T R policy positive k now s c).0
  Step-IsCoherent s t (revokes id now st) c = revoke_row-IsCoherent now _ s c
  Step-IsCoherent s t (revokes_owned user id now st) c = revoke_owned_row-IsCoherent user now _ s c
  Step-IsCoherent s t (revokes_many scope now st) c =
      IsCoherent-poison T R policy _ _ _
        (IsCoherent-poison T R policy _ _ s.cache (IsCoherent-revoke (is_live_in scope) now s c))
  Step-IsCoherent s t (rotates input id token k now st fresh) c =
      rotate_row-IsCoherent input _ id token k now s fresh c
  Step-IsCoherent s t (forgets st cache f) c = IsCoherent-Forgets T R s cache policy f c

  Steps-IsCoherent : (s t : State T R) → Steps T R policy s t → IsCoherent T R s → IsCoherent T R t
  Steps-IsCoherent s t (done st) c = c
  Steps-IsCoherent s t (next _ u _ step steps) c =
      Steps-IsCoherent u t steps (Step-IsCoherent s u step c)

  -- Where the idle timeout is positive, the cache agrees with the rows at first (as an empty cache
  -- does) and every new token's hash is on no row yet: after any sequence of requests and of
  -- expiries, evictions and outages of the cache, a token that resolves at `now` has a row under its
  -- hash, the session that it resolves to is that row in every field but the idle clock, and neither
  -- its absolute nor its idle deadline has come at `now`.
  pub Steps-resolved :
      (s t : State T R)
      → IsCoherent T R s
      → Steps T R policy s t
      → (h now : ℕ) (x : ResolvedSession) → (resolve T R policy h now t).0 ≡ resolved x
      → ((row : SessionRow) × (find_by_token_hash T h (resolve T R policy h now t).1.rows
            ≡ some row)
          × MatchesRow x row)
        × IsUnexpired now x
  Steps-resolved s t c steps h now x e =
      let ((row, found, agrees), live) =
        (resolve-Sound T R policy positive h now t (Steps-IsCoherent s t steps c)).1 x e in
      (
        (
          row,
          found,
          (
            ap (λ y. y.id) (sym agrees),
            ap (λ y. y.user_id) (sym agrees),
            ap (λ y. y.status) (sym agrees),
            ap (λ y. y.active_organization_id) (sym agrees),
            ap (λ y. y.remember_me) (sym agrees),
            ap (λ y. y.absolute_expires_at) (sym agrees),
            ap (λ y. y.mfa_completed_at) (sym agrees),
          ),
        ),
        live,
      )
