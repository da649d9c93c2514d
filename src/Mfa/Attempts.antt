-- ===== src/Mfa/Attempts.antt =====
-- The failures of a second factor that the audit holds, and the lock that the fifth one earns.
use sstsaas_pv.Common.{
  ℕ, suc, ◌==◌, leb, ◌≡◌, refl, sym, ap, ◌∙◌, subst, inl, inr, Bool, true, false, some, count_if,
  Bool-cases, ==_refl, ==_iff, arith, if◌then◌else◌,
}
use sstsaas_pv.Access.Faults.{ok}
use sstsaas_pv.Tenancy.Rows.{RequestContext}
use sstsaas_pv.Sessions.Rows.{SessionRow, SessionPolicy, revoked}
use sstsaas_pv.Sessions.Repository.{find_by_id, find_by_token_hash}
use sstsaas_pv.Sessions.Service.{State, revoke, resolve}
use sstsaas_pv.Sessions.Service.Calls.{Steps}
use sstsaas_pv.Sessions.Service.Revocation.{revoke-resolve}
use sstsaas_pv.Identity.Rows.{MfaFailure, mfa_challenge_failed, mfa_pending_session_locked}
use sstsaas_pv.Identity.Store.{IdentityDatabase, Accounts, transaction, record_platform_event}
use sstsaas_pv.Mfa.{
  mfa_attempt_limit, is_failure_of, is_lock_of, mfa_event, lock_at_limit, record_failure_tx,
  after_failure, record_failure,
}

module _ (D : IdentityDatabase) (policy : SessionPolicy) where
  -- The failures and the locks of a session that the audit holds.
  abbrev pub failures_of : ℕ → Accounts D → ℕ
  failures_of session s = count_if (is_failure_of session) (D.events.rows s.events)

  abbrev pub locks_of : ℕ → Accounts D → ℕ
  locks_of session s = count_if (is_lock_of session) (D.events.rows s.events)

  -- A recorded failure, with the lock where it is the fifth.
  abbrev with_failure : ℕ → ℕ → MfaFailure → RequestContext → Accounts D → Accounts D
  with_failure session user reason request s = record s {
    events =
        D.events.create (mfa_event session (mfa_challenge_failed reason user) request) s.events;
  }

  abbrev with_lock : ℕ → ℕ → ℕ → RequestContext → Accounts D → Accounts D
  with_lock session user failures request s = record s {
    events =
        D.events.create (mfa_event session (mfa_pending_session_locked failures user) request)
          s.events;
  }

  failures-with_failure :
      (session user : ℕ) (reason : MfaFailure) (request : RequestContext) (s : Accounts D) (n : ℕ)
      → failures_of n (with_failure session user reason request s)
        ≡ (if session == n then suc (failures_of n s) else failures_of n s)
  failures-with_failure session user reason request s n =
      rw
        (D.events.rows-create (mfa_event session (mfa_challenge_failed reason user) request)
          s.events)
        refl

  -- What `recordFailure` does: the fifth failure locks the session and revokes it.
  record_failure-eq :
      (session user : ℕ) (reason : MfaFailure) (request : RequestContext) (at : ℕ) (s : Accounts D)
      → record_failure D policy session user reason request at s ≡ (
          if suc (failures_of session s) == mfa_attempt_limit
          then after_failure D policy session at (
            ok true,
            with_lock session user
                (suc (failures_of session s))
                request
                (with_failure session user reason request s),
          )
          else with_failure session user reason request s)
  unfolding record_failure record_failure_tx lock_at_limit record_platform_event transaction
  record_failure-eq session user reason request at s =
      rw
        (
          D.events.count_lem (is_failure_of session)
              (with_failure session user reason request s).events,
          failures-with_failure session user reason request s session,
          ==_refl session,
        )
        (elim (Bool-cases (suc (failures_of session s) == mfa_attempt_limit)) [
          | inl fifth ↦ rw fifth refl
          | inr other ↦ rw other refl
        ])

  locks-with_failure :
      (session user : ℕ) (reason : MfaFailure) (request : RequestContext) (s : Accounts D) (n : ℕ)
      → locks_of n (with_failure session user reason request s) ≡ locks_of n s
  locks-with_failure session user reason request s n =
      rw
        (D.events.rows-create (mfa_event session (mfa_challenge_failed reason user) request)
          s.events)
        refl

  failures-with_lock :
      (session user count : ℕ) (request : RequestContext) (s : Accounts D) (n : ℕ)
      → failures_of n (with_lock session user count request s) ≡ failures_of n s
  failures-with_lock session user count request s n =
      rw
        (D.events.rows-create (mfa_event session (mfa_pending_session_locked count user) request)
          s.events)
        refl

  locks-with_lock :
      (session user count : ℕ) (request : RequestContext) (s : Accounts D) (n : ℕ)
      → locks_of n (with_lock session user count request s)
        ≡ (if session == n then suc (locks_of n s) else locks_of n s)
  locks-with_lock session user count request s n =
      rw
        (D.events.rows-create (mfa_event session (mfa_pending_session_locked count user) request)
          s.events)
        refl

  -- A session has one lock from its fifth failure on, and none before.
  unfoldable pub IsLedger : ℕ → Accounts D → Type 0
  IsLedger n s = locks_of n s ≡ (if leb 5 (failures_of n s) then 1 else 0)

  same_session :
      (f l : ℕ)
      → l ≡ (if leb mfa_attempt_limit f then 1 else 0)
      → (if suc f == mfa_attempt_limit then suc l else l)
        ≡ (if leb mfa_attempt_limit (suc f) then 1 else 0)
  same_session f l e = ground arith

  record_failure-failures :
      (session user : ℕ) (reason : MfaFailure) (request : RequestContext) (at : ℕ) (s : Accounts D)
      (n : ℕ)
      → failures_of n (record_failure D policy session user reason request at s)
        ≡ (if session == n then suc (failures_of n s) else failures_of n s)
  record_failure-failures session user reason request at s n =
      rw (record_failure-eq session user reason request at s)
        (elim (Bool-cases (suc (failures_of session s) == mfa_attempt_limit)) [
          | inl fifth ↦ rw fifth (
              failures-with_lock session user (suc (failures_of session s)) request
                (with_failure session user reason request s) n
              ∙ failures-with_failure session user reason request s n)
          | inr other ↦ rw other (failures-with_failure session user reason request s n)
        ])

  locks-locked :
      (session user count : ℕ) (reason : MfaFailure) (request : RequestContext) (s : Accounts D)
      (n : ℕ)
      → locks_of n
          (with_lock session user count request (with_failure session user reason request s))
        ≡ (if session == n then suc (locks_of n s) else locks_of n s)
  locks-locked session user count reason request s n =
      locks-with_lock session user count request (with_failure session user reason request s) n
      ∙ ap (λ l. if session == n then suc l else l)
          (locks-with_failure session user reason request s n)

  -- The failures counted are those of the session observed, where it is the one recorded.
  observed :
      (f : ℕ → ℕ) (session n l : ℕ) (b : Bool)
      → (suc (f session) == mfa_attempt_limit) ≡ b
      → (if session == n then (if b then suc l else l) else l)
        ≡ (if session == n then (if suc (f n) == mfa_attempt_limit then suc l else l) else l)
  observed f session n l b e = elim (Bool-cases (session == n)) [
    | inr other ↦ rw other refl
    | inl this ↦ rw this (
        ap (λ c. if c then suc l else l)
          (sym e ∙ ap (λ m. suc (f m) == mfa_attempt_limit) ((==_iff session n).0 this)))
  ]

  record_failure-locks :
      (session user : ℕ) (reason : MfaFailure) (request : RequestContext) (at : ℕ) (s : Accounts D)
      (n : ℕ)
      → locks_of n (record_failure D policy session user reason request at s) ≡ (
          if session == n
          then (if suc (failures_of n s) == mfa_attempt_limit
              then suc (locks_of n s)
              else locks_of n s)
          else locks_of n s)
  record_failure-locks session user reason request at s n =
      rw (record_failure-eq session user reason request at s)
        (elim (Bool-cases (suc (failures_of session s) == mfa_attempt_limit)) [
          | inl fifth ↦ rw fifth (
              locks-locked session user (suc (failures_of session s)) reason request s n
              ∙ observed (λ m. failures_of m s) session n (locks_of n s) true fifth)
          | inr other ↦ rw other (
              locks-with_failure session user reason request s n
              ∙ (stays (session == n) (locks_of n s)
                  ∙ observed (λ m. failures_of m s) session n (locks_of n s) false other))
        ])
    where
      stays : (c : Bool) (l : ℕ) → l ≡ (if c then l else l)
      stays true l = refl
      stays false l = refl

  record_failure-IsLedger :
      (session user : ℕ) (reason : MfaFailure) (request : RequestContext) (at : ℕ) (s : Accounts D)
      (n : ℕ)
      → IsLedger n s
      → IsLedger n (record_failure D policy session user reason request at s)
  unfolding IsLedger
  record_failure-IsLedger session user reason request at s n h =
      rw
        (
          record_failure-locks session user reason request at s n,
          record_failure-failures session user reason request at s n,
        )
        (elim (Bool-cases (session == n)) [
          | inl this ↦ rw this (same_session (failures_of n s) (locks_of n s) h)
          | inr other ↦ rw other h
        ])

  -- Any sequence of failures, of whatever sessions.
  pub data Failures : Accounts D → Accounts D → Type 0 where
    done : (s : Accounts D) → Failures s s
    fails :
        (session user : ℕ) (reason : MfaFailure) (request : RequestContext) (at : ℕ)
        (s t : Accounts D)
        → Failures (record_failure D policy session user reason request at s) t
        → Failures s t

  -- Where the audit holds one lock of a session if it holds five failures of it, and none if fewer, it
  -- does so after any sequence of failures, of whatever sessions, is recorded.
  pub Failures-IsLedger : (s t : Accounts D) → Failures s t → (n : ℕ) → IsLedger n s → IsLedger n t
  Failures-IsLedger s t (done _) n h = h
  Failures-IsLedger s t (fails session user reason request at _ _ later) n h =
      Failures-IsLedger _ t later n (record_failure-IsLedger session user reason request at s n h)

  -- The fifth failure that is recorded of a pending session, while Redis answers, makes its token
  -- resolve to `revoked` after any later sequence of requests to the sessions and of expiries,
  -- evictions and outages of the cache, where its identifier and its token hash find the same row and
  -- every new token's hash is on no row yet.
  pub record_failure-resolve :
      (session user : ℕ) (reason : MfaFailure) (request : RequestContext) (at : ℕ) (s : Accounts D)
      (h : ℕ) (row : SessionRow) (t : State D.sessions D.redis)
      → failures_of session s ≡ 4
      → find_by_id D.sessions session s.sessions.rows ≡ some row
      → find_by_token_hash D.sessions h s.sessions.rows ≡ some row
      → D.redis.answers s.sessions.cache ≡ true
      → Steps D.sessions D.redis policy
          (record_failure D policy session user reason request at s).sessions
          t
      → (now : ℕ) → (resolve D.sessions D.redis policy h now t).0 ≡ revoked
  record_failure-resolve session user reason request at s h row t four by_id by_hash up later now =
      revoke-resolve D.sessions D.redis policy session h row at s.sessions t by_id by_hash up
        (subst (λ x. Steps D.sessions D.redis policy x t) revoked_now later) now
    where
      revoked_now :
          (record_failure D policy session user reason request at s).sessions
          ≡ (revoke D.sessions D.redis policy session at s.sessions).1
      revoked_now = rw (record_failure-eq session user reason request at s, four) refl
