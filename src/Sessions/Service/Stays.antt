-- ===== src/Sessions/Service/Stays.antt =====
-- Sessions that are over (Sessions/Service/Ended), through the requests of the session service.
use sstsaas_pv.Common.{
  ℕ, ◌≡◌, refl, subst, ap, inl, inr, ◌==◌, Bool, true, false, not, Option, none, some, is_some,
  ◌&&◌, ◌||◌, List, [], ◌∷◌, Bool-cases, ==_iff,
}
use sstsaas_pv.Common.Table.{Table}
use sstsaas_pv.Sessions.Rows.{
  SessionRow, SessionPolicy, SessionCreateData, revoked, row_of, to_resolved, is_expired,
}
use sstsaas_pv.Sessions.Cache.{Redis}
use sstsaas_pv.Sessions.Repository.{
  find_by_token_hash, touch, revoke_by_id, revoke_live_for_user, is_live_in, is_live_id, set_seen,
  set_revoked, rotate,
}
use sstsaas_pv.Sessions.Service.{
  State, RotateInput, issue, resolve, revoke, revoke_row, revoke_owned, revoke_owned_row,
  revoke_many, rotate_session, rotate_row, rotate_live, poison, successor_data, issue_data,
  starts_real_session, is_date,
}
use sstsaas_pv.Sessions.Service.Calls.{
  Forgets, Step, issues, resolves, revokes, revokes_owned, revokes_many, rotates, forgets, Steps,
  done, next,
}
use sstsaas_pv.Sessions.Service.Ended.{
  holds_live, is_dead, IsEnded, is_dead-update_many, holds_live-write_live, holds_live-poison,
  resolve-ended,
}
use sstsaas_pv.Sessions.Service.Resolve.{resolve-keeps}

module _ (T : Table SessionRow) (R : Redis) (policy : SessionPolicy) (h : ℕ) where
  pub dead_apart :
      (k : ℕ) (s : T.Store)
      → is_dead (find_by_token_hash T h s) ≡ true
      → find_by_token_hash T k s ≡ none
      → (k == h) ≡ false
  dead_apart k s d e = elim (Bool-cases (k == h)) [
    | inl same ↦
        let missing : find_by_token_hash T h s ≡ none =
          subst (λ n. find_by_token_hash T n s ≡ none) ((==_iff k h).0 same) e in
        let absurd : false ≡ true = rw missing at d in cc
    | inr apart ↦ apart
  ]

  pub is_dead-create :
      (d : SessionCreateData) (s : T.Store)
      → (d.token_hash == h) ≡ false
      → is_dead (find_by_token_hash T h s) ≡ true
      → is_dead (find_by_token_hash T h (T.create (row_of d) s)) ≡ true
  unfolding find_by_token_hash
  is_dead-create d s apart e =
      rw
        (
          T.find_first_lem (λ r. r.token_hash == h) (T.create (row_of d) s),
          T.rows-create (row_of d) s,
          apart,
        )
        (rw (T.find_first_lem (λ r. r.token_hash == h) s) at e)

  is_dead-revoke :
      (q : SessionRow → Bool) (at : ℕ) (s : T.Store)
      → is_dead (find_by_token_hash T h s) ≡ true
      → is_dead (find_by_token_hash T h (T.update_many q (set_revoked at) s)) ≡ true
  is_dead-revoke q at = is_dead-update_many T R h q (set_revoked at) (λ r. refl) (λ r e. refl)

  -- What a revocation of rows and some poisoning keep.
  after_poison :
      (rows : T.Store) (ks : List ℕ) (st : State T R)
      → is_dead (find_by_token_hash T h rows) ≡ true
      → IsEnded T R h st
      → IsEnded T R h (record { rows = rows; cache = poison T R policy ks st.cache })
  after_poison rows ks st d e = (d, holds_live-poison T R policy h ks st.cache e.1)

  revoke_row-IsEnded :
      (now : ℕ) (o : Option SessionRow) (st : State T R)
      → IsEnded T R h st
      → IsEnded T R h (revoke_row T R policy now o st).1
  unfolding revoke_row revoke_by_id
  revoke_row-IsEnded now none st e = e
  revoke_row-IsEnded now (some row) st e =
      after_poison _ (row.token_hash ∷ []) st (is_dead-revoke (is_live_id row.id) now st.rows e.0) e

  revoke_owned_row-IsEnded :
      (user now : ℕ) (o : Option SessionRow) (st : State T R)
      → IsEnded T R h st
      → IsEnded T R h (revoke_owned_row T R policy user now o st).1
  unfolding revoke_owned_row revoke_by_id
  revoke_owned_row-IsEnded user now none st e = e
  revoke_owned_row-IsEnded user now (some row) st e =
      let after =
        after_poison _ (row.token_hash ∷ []) st (is_dead-revoke (is_live_id row.id) now st.rows e.0)
          e in
      elim (Bool-cases (row.user_id == user)) [ inl own ↦ rw own after | inr other ↦ rw other e ]

  is_dead-rotate :
      (id now : ℕ) (d : SessionCreateData) (s : T.Store)
      → (d.token_hash == h) ≡ false
      → is_dead (find_by_token_hash T h s) ≡ true
      → is_dead (find_by_token_hash T h (rotate T id now d s).1) ≡ true
  unfolding rotate
  is_dead-rotate id now d s apart e =
      let gone = is_dead-revoke (is_live_id id) now s e in
      let made = is_dead-create d _ apart gone in
      elim (Bool-cases (T.updated_count (is_live_id id) s == 1)) [
        | inl one ↦ rw one made
        | inr none_left ↦ rw none_left gone
      ]

  successor_data-token_hash :
      (input : RotateInput) (row : SessionRow) (id k now : ℕ)
      → (successor_data policy row input id k now).token_hash ≡ k
  unfolding successor_data
  successor_data-token_hash input row id k now = refl

  rotate_live-IsEnded :
      (input : RotateInput) (row : SessionRow) (id token k now : ℕ) (st : State T R)
      → (k == h) ≡ false
      → IsEnded T R h st
      → IsEnded T R h (rotate_live T R policy input row id token k now st).1
  unfolding rotate_live
  rotate_live-IsEnded input row id token k now st apart e =
      let d = successor_data policy row input id k now in
      let turned = rotate T row.id now d st.rows in
      let after =
        after_poison turned.1 (row.token_hash ∷ []) st
          (is_dead-rotate row.id now d st.rows
            (rw (successor_data-token_hash input row id k now) apart) e.0)
          e in
      elim (Bool-cases (starts_real_session row input && not (is_date input.mfa_completed_at))) [
        | inl refused ↦ rw refused e
        | inr admitted ↦ elim (Bool-cases turned.0) [
          | inl won ↦ rw (admitted, won) after
          | inr lost ↦ rw (admitted, lost) after
        ]
      ]

  rotate_row-IsEnded :
      (input : RotateInput) (o : Option SessionRow) (id token k now : ℕ) (st : State T R)
      → (k == h) ≡ false
      → IsEnded T R h st
      → IsEnded T R h (rotate_row T R policy input o id token k now st).1
  unfolding rotate_row
  rotate_row-IsEnded input none id token k now st apart e = e
  rotate_row-IsEnded input (some row) id token k now st apart e =
      let after = rotate_live-IsEnded input row id token k now st apart e in
      elim (Bool-cases (is_some row.revoked_at || is_expired (to_resolved row) now)) [
        | inl over ↦ rw over e
        | inr live ↦ rw live after
      ]

  pub is_dead-touch :
      (id at idle : ℕ) (s : State T R)
      → is_dead (find_by_token_hash T h s.rows) ≡ true
      → is_dead (find_by_token_hash T h (touch T id at idle s.rows).1) ≡ true
  unfolding touch
  is_dead-touch id at idle s =
      is_dead-update_many T R h (is_live_id id) (set_seen at idle) (λ r. refl) (λ r d. d) s.rows

  resolve-IsEnded :
      (k now : ℕ) (st : State T R)
      → IsEnded T R h st
      → IsEnded T R h (resolve T R policy k now st).1
  resolve-IsEnded k now st e = elim (Bool-cases (h == k)) [
    | inl same ↦
        let this : resolve T R policy k now st ≡ (revoked, st) =
          subst (λ n. resolve T R policy n now st ≡ (revoked, st)) ((==_iff h k).0 same)
            (resolve-ended T R policy h now st e) in
        rw this e
    | inr apart ↦
        resolve-keeps T R policy (IsEnded T R h)
          (λ id at idle s d. (is_dead-touch id at idle s d.0, d.1)) k
          (λ snapshot ttl s d. (d.0, holds_live-write_live T R h k ttl snapshot s.cache apart d.1))
          now st e
  ]

  holds_live-Forgets :
      (before after : R.Store)
      → Forgets T R policy before after
      → holds_live (R.get h before) ≡ false
      → holds_live (R.get h after) ≡ false
  holds_live-Forgets before after f e = elim (f h) [
    | inl gone ↦ rw gone refl
    | inr kept ↦ rw kept e
  ]

  Step-IsEnded : (s t : State T R) → Step T R policy s t → IsEnded T R h s → IsEnded T R h t
  unfolding issue issue_data revoke revoke_owned revoke_many rotate_session revoke_live_for_user
  Step-IsEnded s t (issues input id token k now st fresh) e = (
    is_dead-create (issue_data policy input id k now) s.rows (dead_apart k s.rows e.0 fresh) e.0,
    e.1,
  )
  Step-IsEnded s t (resolves k now st) e = resolve-IsEnded k now s e
  Step-IsEnded s t (revokes id now st) e = revoke_row-IsEnded now _ s e
  Step-IsEnded s t (revokes_owned user id now st) e = revoke_owned_row-IsEnded user now _ s e
  Step-IsEnded s t (revokes_many scope now st) e = (
    is_dead-revoke (is_live_in scope) now s.rows e.0,
    holds_live-poison T R policy h _ _ (holds_live-poison T R policy h _ s.cache e.1),
  )
  Step-IsEnded s t (rotates input id token k now st fresh) e =
      rotate_row-IsEnded input _ id token k now s (dead_apart k s.rows e.0 fresh) e
  Step-IsEnded s t (forgets st cache f) e = (e.0, holds_live-Forgets s.cache cache f e.1)

  -- Once a session is over (its row revoked, no live snapshot of it cached), its token resolves to
  -- `revoked` after any sequence of requests and of expiries, evictions and outages of the cache,
  -- where every new token's hash is on no row yet.
  pub Steps-resolve :
      (s t : State T R)
      → Steps T R policy s t
      → IsEnded T R h s
      → (now : ℕ) → (resolve T R policy h now t).0 ≡ revoked
  Steps-resolve s t (done st) e now = ap (λ r. r.0) (resolve-ended T R policy h now s e)
  Steps-resolve s t (next _ u _ step steps) e now =
      Steps-resolve u t steps (Step-IsEnded s u step e) now
