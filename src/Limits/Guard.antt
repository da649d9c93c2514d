-- ===== src/Limits/Guard.antt =====
-- apps/api/src/common/guards/rate-limit.guard.ts: `RateLimitGuard` and, with the other phase,
-- `TenantRateLimitGuard`. Addresses and texts are numbers; how an address or an account name is
-- normalised and hashed is any function, and so is the key of a class, a scope and an identifier. A
-- command to Redis may throw. Warnings to the log are not modelled.
pub mod Decisions
use sstsaas_pv.Common.{
  ℕ, zero, suc, ◌==◌, ltb, Bool, true, false, not, ◌&&◌, Option, none, some, List, [], ◌∷◌, ◌++◌,
  filter, if◌then◌else◌,
}
use sstsaas_pv.Limits.Window.{Window, WindowDecision, SortedSets, consume_sliding_window}
use sstsaas_pv.Limits.Classes.{
  RateLimitScope, rate_limit_scopes, RateLimitPhase, scope_phase, same_phase, PrincipalSource,
  authenticated, body_field, FailMode, open', closed, RateLimitClassConfig, window_for,
}

-- `KeyableRequest`; `body` is none where it is no object, and a field is none where it is no string
-- or a blank one.
pub record KeyableRequest : Type 0 where
  pub ip : Option ℕ
  pub remote_address : Option ℕ
  pub principal_id : Option ℕ
  pub organization_id : Option ℕ
  pub body : Option (ℕ → Option ℕ)

-- The functions of the text of an address and of an account name.
pub record Naming : Type 0 where
  pub normalise_ip : ℕ → ℕ
  pub hash_identifier : ℕ → ℕ
  -- `slidingWindowKey` of the class at hand
  pub key_of : RateLimitScope → ℕ → ℕ

-- `address ?? fallback`
abbrev pub or_else : Option ℕ → Option ℕ → Option ℕ
or_else (some a) _ = some a
or_else none o = o

abbrev pub apply : (ℕ → ℕ) → Option ℕ → Option ℕ
apply f none = none
apply f (some a) = some (f a)

abbrev pub field_of : Option (ℕ → Option ℕ) → ℕ → Option ℕ
field_of none field = none
field_of (some body) field = body field

-- `resolveIdentifier` of `perPrincipal`
abbrev pub principal_identifier : Naming → KeyableRequest → Option PrincipalSource → Option ℕ
principal_identifier naming request (some (body_field field)) =
    apply naming.hash_identifier (field_of request.body field)
principal_identifier naming request _ = request.principal_id

-- `resolveIdentifier`
unfoldable pub resolve_identifier :
    Naming → RateLimitScope → KeyableRequest → RateLimitClassConfig → Option ℕ
resolve_identifier naming RateLimitScope.per_ip request config =
    apply naming.normalise_ip (or_else request.ip request.remote_address)
resolve_identifier naming RateLimitScope.per_principal request config =
    principal_identifier naming request config.principal_source
resolve_identifier naming RateLimitScope.per_organization request config = request.organization_id

-- One step of `tightest`.
abbrev pub worse : WindowDecision → WindowDecision → WindowDecision
worse worst decision =
    if worst.allowed && not decision.allowed
    then decision
    else (if decision.allowed && not worst.allowed
        then worst
        else (if ltb decision.remaining worst.remaining then decision else worst))

abbrev pub tightest_from : WindowDecision → List WindowDecision → WindowDecision
tightest_from worst [] = worst
tightest_from worst (d ∷ ds) = tightest_from (worse worst d) ds

-- `tightest`
unfoldable pub tightest : List WindowDecision → Option WindowDecision
tightest [] = none
tightest (d ∷ ds) = some (tightest_from d ds)

-- What `canActivate` does: it answers true, with the headers of a decision or without, or it throws
-- RATE_LIMITED, with a `Retry-After` or without.
pub data Verdict : Type 0 where
  admitted : Option WindowDecision → Verdict
  rate_limited : Option ℕ → Verdict

-- `applyFailMode`
unfoldable pub apply_fail_mode : FailMode → Verdict
apply_fail_mode open' = admitted none
apply_fail_mode closed = rate_limited none

-- What follows the tightest decision.
unfoldable pub answer : Option WindowDecision → Verdict
answer none = admitted none
answer (some worst) =
    if worst.allowed then admitted (some worst) else rate_limited (some worst.reset_seconds)

-- What the loop leaves: how many scopes are declared, the decisions in order, and whether a command
-- threw.
pub record Charges (Z : SortedSets) : Type 0 where
  pub declared : ℕ
  pub decisions : List WindowDecision
  pub threw : Bool
  pub store : Z.Store

abbrev pub no_decisions : List WindowDecision → Bool
no_decisions [] = true
no_decisions (d ∷ ds) = false

-- The scopes of the phase.
abbrev pub scopes_in : RateLimitPhase → List RateLimitScope
scopes_in phase = filter (λ scope. same_phase (scope_phase scope) phase) rate_limit_scopes

-- What follows the loop.
unfoldable pub conclude : {Z : SortedSets} → FailMode → Charges Z → Verdict
conclude mode c =
    if c.threw
    then apply_fail_mode mode
    else (if ltb 0 c.declared && no_decisions c.decisions
        then apply_fail_mode mode
        else answer (tightest c.decisions))

module _ (Z : SortedSets) (naming : Naming) (throws : ℕ → Bool) where
  -- The loop over the scopes; the decisions come in the order of the scopes.
  unfoldable pub charge :
      RateLimitClassConfig → KeyableRequest → ℕ → List RateLimitScope → Z.Store → Charges Z
  charge config request now [] s = record { declared = 0; decisions = []; threw = false; store = s }
  charge config request now (scope ∷ scopes) s = elim (window_for config scope) [
    | none ↦ charge config request now scopes s
    | some window ↦ elim (resolve_identifier naming scope request config) [
      | none ↦
          let rest = charge config request now scopes s in
          record rest { declared = suc rest.declared }
      | some identifier ↦
          let key = naming.key_of scope identifier in
          let (decision, s') = consume_sliding_window Z key window now s in
          elim (throws key) [
            | true ↦ record { declared = 1; decisions = []; threw = true; store = s }
            | false ↦ elim decision.allowed [
              | false ↦ record {
                declared = 1;
                decisions = decision ∷ [];
                threw = false;
                store = s';
              }
              | true ↦
                  let rest = charge config request now scopes s' in
                  record rest {
                    declared = suc rest.declared;
                    decisions = decision ∷ rest.decisions;
                  }
            ]
          ]
    ]
  ]

  -- `canActivate`, for the class found in the metadata, in this guard's phase.
  unfoldable pub can_activate :
      Bool
      → RateLimitPhase
      → RateLimitClassConfig
      → KeyableRequest
      → ℕ
      → Z.Store
      → Verdict × Z.Store
  can_activate exempt phase config request now s =
      let charges = charge config request now (scopes_in phase) s in
      if exempt then (admitted none, s) else (conclude config.fail_mode charges, charges.store)
