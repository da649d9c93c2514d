-- ===== src/Sessions/Service/Calls.antt =====
-- The requests that reach the session service, as steps of its state, and the steps that Redis takes
-- by itself: an entry expires or is evicted, the server stops answering or answers again.
use sstsaas_pv.Common.{ℕ, ◌≡◌, ◌⊎◌, none}
use sstsaas_pv.Common.Table.{Table}
use sstsaas_pv.Sessions.Rows.{SessionRow, SessionPolicy}
use sstsaas_pv.Sessions.Cache.{Redis}
use sstsaas_pv.Sessions.Repository.{Scope, find_by_token_hash}
use sstsaas_pv.Sessions.Service.{
  State, IssueInput, RotateInput, issue, resolve, revoke, revoke_owned, revoke_many, rotate_session,
}

module _ (T : Table SessionRow) (R : Redis) (policy : SessionPolicy) where
  -- Every entry of `after` stands in `before` too.
  abbrev pub Forgets : R.Store → R.Store → Type 0
  Forgets before after = (k : ℕ) → (R.get k after ≡ none) ⊎ (R.get k after ≡ R.get k before)

  -- A new token's hash is on no row: the column is unique.
  abbrev pub IsFresh : ℕ → State T R → Type 0
  IsFresh h st = find_by_token_hash T h st.rows ≡ none

  pub data Step : State T R → State T R → Type 0 where
    issues :
        (input : IssueInput) (id token h now : ℕ) (st : State T R)
        → IsFresh h st
        → Step st (issue T R policy input id token h now st).1
    resolves : (h now : ℕ) (st : State T R) → Step st (resolve T R policy h now st).1
    revokes : (id now : ℕ) (st : State T R) → Step st (revoke T R policy id now st).1
    revokes_owned :
        (user id now : ℕ) (st : State T R) → Step st (revoke_owned T R policy user id now st).1
    revokes_many :
        (scope : Scope) (now : ℕ) (st : State T R) → Step st (revoke_many T R policy scope now st).1
    rotates :
        (input : RotateInput) (id token h now : ℕ) (st : State T R)
        → IsFresh h st
        → Step st (rotate_session T R policy input id token h now st).1
    forgets :
        (st : State T R) (cache : R.Store)
        → Forgets st.cache cache
        → Step st (record st { cache = cache })

  pub data Steps : State T R → State T R → Type 0 where
    done : (st : State T R) → Steps st st
    next : (s t u : State T R) → Step s t → Steps t u → Steps s u
