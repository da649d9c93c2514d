-- ===== src/Sessions/Service/Successor.antt =====
-- `rotate` of the session service: its predecessor and its successor.
use sstsaas_pv.Common.{
  ℕ, ◌≡◌, ◌⊎◌, ◌≤◌, refl, subst, sym, inl, inr, ◌==◌, Bool, true, false, not, ◌&&◌, ◌||◌, Option,
  none, some, is_some, [], ◌∷◌, Bool-cases, arith, ==_iff, and_left, and_right,
}
use sstsaas_pv.Common.Table.{Table}
use sstsaas_pv.Sessions.Rows.{
  SessionRow, SessionPolicy, ResolvedSession, revoked, row_of, to_resolved, is_expired,
  idle_expiry_from, is_pending, is_active,
}
use sstsaas_pv.Sessions.Cache.{Redis}
use sstsaas_pv.Sessions.Repository.{
  find_by_token_hash, find_by_id, revoke_by_id, is_live_id, rotate,
}
use sstsaas_pv.Sessions.Service.{
  State, RotateInput, IssuedSession, rotated, not_rotated, issued, resolve, rotate_session,
  rotate_row, rotate_live, poison, successor_data, starts_real_session, is_date,
}
use sstsaas_pv.Sessions.Service.Calls.{Steps}
use sstsaas_pv.Sessions.Service.Ended.{IsEnded}
use sstsaas_pv.Sessions.Service.Stays.{Steps-resolve, is_dead-create}
use sstsaas_pv.Sessions.Service.Revocation.{ends_one}

rotated_inj : {a b : IssuedSession} → rotated a ≡ rotated b → a ≡ b
rotated_inj e = cc

-- The successor of a row: its owner, a deadline that is the row's or that of a first session after
-- the second factor, and an idle deadline within it.
abbrev pub IsSuccessor : RotateInput → SessionRow → ResolvedSession → Type 0
IsSuccessor input row x =
    (x.user_id ≡ row.user_id)
    × (x.idle_expires_at ≤ x.absolute_expires_at)
    × ((x.absolute_expires_at ≡ row.absolute_expires_at)
        ⊎ ((is_pending row.status ≡ true)
            × (is_active input.status ≡ true)
            × (is_date input.mfa_completed_at ≡ true)))

idle_expiry_from-within :
    (policy : SessionPolicy) (now absolute : ℕ) → idle_expiry_from policy now absolute ≤ absolute
unfolding idle_expiry_from
idle_expiry_from-within policy now absolute = ground arith

module _ (T : Table SessionRow) (R : Redis) (policy : SessionPolicy) where
  successor_data-IsSuccessor :
      (input : RotateInput) (row : SessionRow) (id token k now : ℕ)
      → (starts_real_session row input && not (is_date input.mfa_completed_at)) ≡ false
      → IsSuccessor input row (issued (successor_data policy row input id k now) token now).session
  unfolding issued successor_data
  successor_data-IsSuccessor input row id token k now admitted =
      elim (Bool-cases (starts_real_session row input)) [
        | inl starts ↦ (
          refl,
          idle_expiry_from-within policy now _,
          inr (
            and_left _ _ starts,
            and_right _ _ starts,
            evidence (is_date input.mfa_completed_at) (rw starts at admitted),
          ),
        )
        | inr same ↦ (refl, idle_expiry_from-within policy now _, inl (rw same refl))
      ]
    where
      evidence : (b : Bool) → (true && not b) ≡ false → b ≡ true
      evidence true e = refl
      evidence false e = cc

  rotate_live-Turned :
      (input : RotateInput) (row : SessionRow) (id token k now : ℕ) (s : State T R)
      → (x : IssuedSession) → (rotate_live T R policy input row id token k now s).0 ≡ rotated x
      → IsSuccessor input row x.session
        × ((rotate_live T R policy input row id token k now s).1 ≡ record {
          rows =
              T.create
                (row_of (successor_data policy row input id k now))
                (revoke_by_id T row.id now s.rows).1;
          cache = poison T R policy (row.token_hash ∷ []) s.cache;
        })
  unfolding rotate_live rotate revoke_by_id
  rotate_live-Turned input row id token k now s =
      elim (Bool-cases (starts_real_session row input && not (is_date input.mfa_completed_at))) [
        | inl refused ↦ rw refused (λ x e. cc)
        | inr admitted ↦ elim (Bool-cases (T.updated_count (is_live_id row.id) s.rows == 1)) [
          | inl won ↦
              rw (admitted, won)
                (λ x e. (
                  subst (λ y. IsSuccessor input row y.session) (rotated_inj e)
                      (successor_data-IsSuccessor input row id token k now admitted),
                  refl,
                ))
          | inr lost ↦ rw (admitted, lost) (λ x e. cc)
        ]
      ]

  rotate_row-Turned :
      (input : RotateInput) (o : Option SessionRow) (id token k now : ℕ) (s : State T R)
      (x : IssuedSession)
      → (rotate_row T R policy input o id token k now s).0 ≡ rotated x
      → (row : SessionRow) × (o ≡ some row)
        × (is_some row.revoked_at || is_expired (to_resolved row) now ≡ false)
        × IsSuccessor input row x.session
        × ((rotate_row T R policy input o id token k now s).1 ≡ record {
          rows =
              T.create
                (row_of (successor_data policy row input id k now))
                (revoke_by_id T row.id now s.rows).1;
          cache = poison T R policy (row.token_hash ∷ []) s.cache;
        })
  unfolding rotate_row
  rotate_row-Turned input none id token k now s x e = cc
  rotate_row-Turned input (some row) id token k now s x e =
      let turned = rotate_live-Turned input row id token k now s x in
      elim (Bool-cases (is_some row.revoked_at || is_expired (to_resolved row) now)) [
        | inl over ↦ let absurd : not_rotated ≡ rotated x = rw over at e in cc
        | inr live ↦
            let (successor, after) = turned (rw live at e) in
            rw live (row, refl, live, successor, after)
      ]

  -- A rotation that answers a session found a row under the identifier of the request that was
  -- neither revoked nor expired; the new session has its user, an idle deadline within the absolute
  -- one, and its absolute deadline, unless a session pending a second factor becomes active on
  -- evidence of that factor.
  pub rotate_session-IsSuccessor :
      (input : RotateInput) (id token k now : ℕ) (s : State T R) (x : IssuedSession)
      → (rotate_session T R policy input id token k now s).0 ≡ rotated x
      → (row : SessionRow) × (find_by_id T input.session_id s.rows ≡ some row)
        × ((is_some row.revoked_at || is_expired (to_resolved row) now) ≡ false)
        × IsSuccessor input row x.session
  unfolding rotate_session
  rotate_session-IsSuccessor input id token k now s x e =
      let (row, found, live, successor, _) = rotate_row-Turned input _ id token k now s x e in
      (row, found, live, successor)

  apart :
      (h k : ℕ) (row : SessionRow) (rows : T.Store)
      → find_by_token_hash T h rows ≡ some row
      → find_by_token_hash T k rows ≡ none
      → (k == h) ≡ false
  apart h k row rows found missing = elim (Bool-cases (k == h)) [
    | inl same ↦
        let absent : find_by_token_hash T h rows ≡ none =
          subst (λ n. find_by_token_hash T n rows ≡ none) ((==_iff k h).0 same) missing in
        cc
    | inr other ↦ other
  ]

  rotate_session-IsEnded :
      (input : RotateInput) (id token k now h : ℕ) (row : SessionRow) (s : State T R)
      (x : IssuedSession)
      → find_by_id T input.session_id s.rows ≡ some row
      → find_by_token_hash T h s.rows ≡ some row
      → find_by_token_hash T k s.rows ≡ none
      → R.answers s.cache ≡ true
      → (rotate_session T R policy input id token k now s).0 ≡ rotated x
      → IsEnded T R h (rotate_session T R policy input id token k now s).1
  unfolding rotate_session successor_data
  rotate_session-IsEnded input id token k now h row s x by_id by_hash fresh up e =
      let (found, same, _, _, after) = rotate_row-Turned input _ id token k now s x e in
      let this : found ≡ row = cc in
      let ends = ends_one T R policy h row now s by_hash up in
      subst (IsEnded T R h) (sym after) (
        subst
          (λ r. IsEnded T R h (record {
            rows =
                T.create (row_of (successor_data policy r input id k now))
                  (revoke_by_id T r.id now s.rows).1;
            cache = poison T R policy (r.token_hash ∷ []) s.cache;
          }))
          (sym this)
          (
            is_dead-create T R policy h (successor_data policy row input id k now) _
                (apart h k row s.rows by_hash fresh) ends.0,
            ends.1,
          ))

  -- After a rotation that answers a session while Redis answers, where the identifier of the request
  -- and the token hash find the same row and the new token's hash is on no row, the old token
  -- resolves to `revoked`, after any later sequence of requests and of expiries, evictions and
  -- outages of the cache, where every new token's hash is on no row yet.
  pub rotate_session-resolve :
      (input : RotateInput) (id token k at h : ℕ) (row : SessionRow) (s t : State T R)
      (x : IssuedSession)
      → find_by_id T input.session_id s.rows ≡ some row
      → find_by_token_hash T h s.rows ≡ some row
      → find_by_token_hash T k s.rows ≡ none
      → R.answers s.cache ≡ true
      → (rotate_session T R policy input id token k at s).0 ≡ rotated x
      → Steps T R policy (rotate_session T R policy input id token k at s).1 t
      → (now : ℕ) → (resolve T R policy h now t).0 ≡ revoked
  rotate_session-resolve input id token k at h row s t x by_id by_hash fresh up e later now =
      Steps-resolve T R policy h _ t later
        (rotate_session-IsEnded input id token k at h row s x by_id by_hash fresh up e) now
