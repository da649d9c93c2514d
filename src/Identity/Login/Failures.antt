-- ===== src/Identity/Login/Failures.antt =====
-- How failures are counted: `recordFailure` of the login service on the account's row.
use sstsaas_pv.Common.{
  ℕ, suc, ◌≤◌, ◌==◌, ◌≡◌, refl, sym, ap, ◌∙◌, subst, inl, inr, Bool, true, false, Option, none,
  some, count_if, count_if-map_if, count_if-alone, find?-refine, found-counted, Bool-cases,
  and_left, ==_iff, ◌&&◌, if◌then◌else◌,
}
use sstsaas_pv.Common.Table.Lookup.{find_first-update_many, find_first-holds}
use sstsaas_pv.Access.Faults.{ok}
use sstsaas_pv.Access.Runs.{settle}
use sstsaas_pv.Access.Runs.Steps.{and_then}
use sstsaas_pv.Tenancy.Rows.{RequestContext}
use sstsaas_pv.Identity.Lockout.{locked_until_for}
use sstsaas_pv.Identity.Rows.{UserRow, PlatformAuditEvent, login_failed}
use sstsaas_pv.Identity.Store.{
  IdentityDatabase, Accounts, transaction, record_platform_event, update_user, user_by_id,
}
use sstsaas_pv.Identity.Login.{
  lapsed, is_open, add_failure, set_lock, user_event, apply_lock, record_lock, settle_failure,
  count_failure, record_failure,
}

-- One failure on the row, at an instant.
abbrev pub with_lock : Option ℕ → UserRow → UserRow
with_lock none u = u
with_lock (some until) u = set_lock (some until) u

abbrev pub counted_row : ℕ → UserRow → UserRow
counted_row now u = with_lock (locked_until_for (suc u.failed_login_count) now) (add_failure u)

abbrev pub fail_at : ℕ → UserRow → UserRow
fail_at now u = if lapsed u.locked_until now then counted_row now u else u

module _ (D : IdentityDatabase) (id : ℕ) where
  -- The account's row is `u`, and no other has its identifier.
  abbrev pub IsRow : UserRow → Accounts D → Type 0
  IsRow u s =
      (user_by_id D id s ≡ some u) × (count_if (λ v. UserRow.id v == id) (D.users.rows s.users) ≤ 1)

  -- No address comes or goes.
  pub Keeps : Accounts D → Accounts D → Type 0
  Keeps s t =
      (email : ℕ)
      → count_if (λ v. UserRow.email v == email) (D.users.rows t.users)
        ≡ count_if (λ v. UserRow.email v == email) (D.users.rows s.users)

  Keeps-update :
      (q : UserRow → Bool) (f : UserRow → UserRow) (s t : Accounts D)
      → ((v : UserRow) → (f v).email ≡ v.email)
      → t.users ≡ D.users.update_many q f s.users
      → Keeps s t
  unfolding Keeps
  Keeps-update q f s t same e email =
      rw (e, D.users.rows-update_many q f s.users)
        (count_if-map_if (λ v. v.email == email) q f (λ v hit. ap (λ n. n == email) (same v))
          (D.users.rows s.users))

  Keeps-users : (s t : Accounts D) → t.users ≡ s.users → Keeps s t
  unfolding Keeps
  Keeps-users s t e email = rw e refl

  Keeps-trans : (s t u : Accounts D) → Keeps s t → Keeps t u → Keeps s u
  unfolding Keeps
  Keeps-trans s t u h k email = k email ∙ h email

  -- A rewrite of rows that keeps their identifiers.
  IsRow-update :
      (q : UserRow → Bool) (f : UserRow → UserRow) (u : UserRow) (s t : Accounts D)
      → ((v : UserRow) → (f v).id ≡ v.id)
      → t.users ≡ D.users.update_many q f s.users
      → IsRow u s
      → IsRow (if q u then f u else u) t
  unfolding user_by_id
  IsRow-update q f u s t same e (found, one) = (
    rw e (
        find_first-update_many D.users (λ v. v.id == id) q f s.users u
          (λ v. ap (λ n. n == id) (same v)) found),
    rw
        (
          e,
          D.users.rows-update_many q f s.users,
          count_if-map_if (λ v. v.id == id) q f (λ v hit. ap (λ n. n == id) (same v))
              (D.users.rows s.users),
        )
        one,
  )

  IsRow-users : (u : UserRow) (s t : Accounts D) → t.users ≡ s.users → IsRow u s → IsRow u t
  unfolding user_by_id
  IsRow-users u s t e (found, one) = (rw e found, rw e one)

  row-counted :
      (q : UserRow → Bool) (u : UserRow) (s : Accounts D)
      → IsRow u s
      → q u ≡ true
      → (D.users.updated_count (λ v. v.id == id && q v) s.users == 0) ≡ false
  unfolding user_by_id
  row-counted q u s (found, one) hit =
      rw (D.users.updated_count_lem (λ v. v.id == id && q v) s.users) (
        found-counted (λ v. v.id == id && q v) u (D.users.rows s.users)
          (find?-refine (λ v. v.id == id) q (D.users.rows s.users) u
            (rw (D.users.find_first_lem (λ v. v.id == id) s.users) at found) hit))

  row-not_counted :
      (q : UserRow → Bool) (u : UserRow) (s : Accounts D)
      → IsRow u s
      → q u ≡ false
      → D.users.updated_count (λ v. v.id == id && q v) s.users ≡ 0
  unfolding user_by_id
  row-not_counted q u s (found, one) miss =
      rw (D.users.updated_count_lem (λ v. v.id == id && q v) s.users) (
        count_if-alone (λ v. v.id == id) (λ v. v.id == id && q v) (D.users.rows s.users) u
          (λ v hit. and_left (v.id == id) (q v) hit)
          (rw (D.users.find_first_lem (λ v. v.id == id) s.users) at found) (fails (u.id == id) miss)
          one)
    where
      fails : (b : Bool) {c : Bool} → c ≡ false → b && c ≡ false
      fails true h = h
      fails false h = refl

  user-id : (u : UserRow) (s : Accounts D) → IsRow u s → u.id ≡ id
  unfolding user_by_id
  user-id u s (found, one) =
      (==_iff u.id id).0 (find_first-holds D.users (λ v. v.id == id) s.users u found)

  update-ok :
      (change : UserRow → UserRow) (u : UserRow) (s : Accounts D)
      → IsRow u s
      → update_user D id change s
        ≡ ok (tt, record s { users = D.users.update_many (λ v. v.id == id) change s.users })
  unfolding update_user user_by_id
  update-ok change u s (found, one) =
      rw
        (
          D.users.updated_count_lem (λ v. v.id == id) s.users,
          found-counted (λ v. v.id == id) u (D.users.rows s.users)
              (rw (D.users.find_first_lem (λ v. v.id == id) s.users) at found),
        )
        refl

  -- What the lock's write leaves.
  apply_lock-IsRow :
      (l : Option ℕ) (u : UserRow) (s : Accounts D)
      → IsRow u s
      → (t : Accounts D) × (apply_lock D id l s ≡ ok (tt, t)) × IsRow (with_lock l u) t × Keeps s t
  unfolding apply_lock
  apply_lock-IsRow none u s row = (s, refl, row, Keeps-users s s refl)
  apply_lock-IsRow (some until) u s row =
      let t : Accounts D = record s {
        users = D.users.update_many (λ v. v.id == id) (set_lock (some until)) s.users;
      } in
      (
        t,
        update-ok (set_lock (some until)) u s row,
        subst (λ b. IsRow (if b then set_lock (some until) u else u) t)
            ((==_iff u.id id).1 (user-id u s row))
            (IsRow-update (λ v. v.id == id) (set_lock (some until)) u s t (λ v. refl) refl row),
        Keeps-update (λ v. v.id == id) (set_lock (some until)) s t (λ v. refl) refl,
      )

  record_lock-users :
      (failures : ℕ) (l : Option ℕ) (request : RequestContext) (s : Accounts D)
      → (t : Accounts D) × (record_lock D id failures l request s ≡ ok (tt, t))
        × (t.users ≡ s.users)
  unfolding record_lock record_platform_event
  record_lock-users failures none request s = (s, refl, refl)
  record_lock-users failures (some until) request s = (_, refl, refl)

  record_event-users :
      (e : PlatformAuditEvent) (s : Accounts D)
      → (t : Accounts D) × (record_platform_event D e s ≡ ok (tt, t)) × (t.users ≡ s.users)
  unfolding record_platform_event
  record_event-users e s = (_, refl, refl)

  settle_failure-IsRow :
      (u : UserRow) (now : ℕ) (request : RequestContext) (s : Accounts D)
      → IsRow u s
      → (t : Accounts D) × (settle_failure D (some u) now request s ≡ ok (tt, t))
        × IsRow (with_lock (locked_until_for u.failed_login_count now) u) t
        × Keeps s t
  unfolding settle_failure
  settle_failure-IsRow u now request s row =
      let l = locked_until_for u.failed_login_count now in
      let same = user-id u s row in
      let (s₁, locked, row₁, kept₁) = apply_lock-IsRow l u s row in
      let (s₂, noted, kept₂) =
        record_event-users
          (user_event none (login_failed true u.failed_login_count) (some u.id) request) s₁ in
      let (s₃, marked, kept₃) = record_lock-users u.failed_login_count l request s₂ in
      let here = subst (λ n. apply_lock D n l s ≡ ok (tt, s₁)) (sym same) locked in
      let there =
        subst (λ n. record_lock D n u.failed_login_count l request s₂ ≡ ok (tt, s₃)) (sym same)
          marked in
      (
        s₃,
        and_then (apply_lock D u.id l) _ s tt s₁ here (
            and_then
              (record_platform_event D
                (user_event none (login_failed true u.failed_login_count) (some u.id) request))
              _ s₁ tt s₂ noted there),
        IsRow-users (with_lock l u) s₁ s₃ (kept₃ ∙ kept₂) row₁,
        Keeps-trans s s₁ s₃ kept₁ (Keeps-users s₁ s₃ (kept₃ ∙ kept₂)),
      )

  counted-eq :
      (now : ℕ) (u : UserRow) (request : RequestContext) (s t : Accounts D)
      → (D.users.updated_count (is_open id now) s.users == 0) ≡ false
      → user_by_id D id
          (record s { users = D.users.update_many (is_open id now) add_failure s.users })
        ≡ some u
      → settle_failure D
          (some u)
          now
          request
          (record s { users = D.users.update_many (is_open id now) add_failure s.users })
        ≡ ok (tt, t)
      → count_failure D id now request s ≡ ok (tt, t)
  unfolding count_failure
  counted-eq now u request s t counted found settled = rw (counted, found) settled

  uncounted-eq :
      (now : ℕ) (request : RequestContext) (s : Accounts D)
      → D.users.updated_count (is_open id now) s.users ≡ 0
      → count_failure D id now request s ≡ ok (tt, s)
  unfolding count_failure
  uncounted-eq now request s none_open = rw none_open refl

  recorded :
      (now : ℕ) (v : UserRow) (request : RequestContext) (s t : Accounts D)
      → v.id ≡ id
      → count_failure D id now request s ≡ ok (tt, t)
      → record_failure D (some v) now request s ≡ t
  unfolding record_failure transaction
  recorded now v request s t same e =
      ap (λ r. (settle s r).1)
        (subst (λ n. count_failure D n now request s ≡ ok (tt, t)) (sym same) e)

  -- What a recorded failure leaves.
  record_failure-parts :
      (now : ℕ) (v u : UserRow) (request : RequestContext) (s : Accounts D)
      → v.id ≡ id
      → IsRow u s
      → IsRow (fail_at now u) (record_failure D (some v) now request s)
        × Keeps s (record_failure D (some v) now request s)
  record_failure-parts now v u request s same row = elim (Bool-cases (lapsed u.locked_until now)) [
    | inr held ↦
        let stays = recorded now v request s s same (
          uncounted-eq now request s
            (row-not_counted (λ x. lapsed x.locked_until now) u s row held)) in
        (
          subst (λ x. IsRow x (record_failure D (some v) now request s))
              (sym (ap (λ b. if b then counted_row now u else u) held))
              (subst (λ t. IsRow u t) (sym stays) row),
          subst (Keeps s) (sym stays) (Keeps-users s s refl),
        )
    | inl free ↦
        let s₁ : Accounts D = record s {
          users = D.users.update_many (is_open id now) add_failure s.users;
        } in
        let hit : is_open id now u ≡ true = rw ((==_iff u.id id).1 (user-id u s row), free) refl in
        let row₁ : IsRow (add_failure u) s₁ =
          subst (λ b. IsRow (if b then add_failure u else u) s₁) hit
            (IsRow-update (is_open id now) add_failure u s s₁ (λ x. refl) refl row) in
        let (t, settled, last, kept) = settle_failure-IsRow (add_failure u) now request s₁ row₁ in
        let goes = recorded now v request s t same (
          counted-eq now (add_failure u) request s t
            (row-counted (λ x. lapsed x.locked_until now) u s row free) row₁.0 settled) in
        (
          subst (λ x. IsRow x (record_failure D (some v) now request s))
              (sym (ap (λ b. if b then counted_row now u else u) free))
              (subst (λ x. IsRow (counted_row now u) x) (sym goes) last),
          subst (Keeps s) (sym goes) (
              Keeps-trans s s₁ t (Keeps-update (is_open id now) add_failure s s₁ (λ x. refl) refl)
                kept),
        )
  ]

  -- A failure that is recorded for the account is `fail_at` on its row.
  pub record_failure-IsRow :
      (now : ℕ) (v u : UserRow) (request : RequestContext) (s : Accounts D)
      → v.id ≡ id
      → IsRow u s
      → IsRow (fail_at now u) (record_failure D (some v) now request s)
  record_failure-IsRow now v u request s same row =
      (record_failure-parts now v u request s same row).0

  -- It leaves as many rows under every address.
  pub record_failure-count :
      (now : ℕ) (v u : UserRow) (request : RequestContext) (s : Accounts D)
      → v.id ≡ id
      → IsRow u s
      → (email : ℕ)
      → count_if
          (λ v. v.email == email)
          (D.users.rows (record_failure D (some v) now request s).users)
        ≡ count_if (λ v. v.email == email) (D.users.rows s.users)
  unfolding Keeps
  record_failure-count now v u request s same row =
      (record_failure-parts now v u request s same row).1
