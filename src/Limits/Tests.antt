-- ===== src/Limits/Tests.antt =====
-- A window of two requests in a second, and a login request.
use sstsaas_pv.Common.{
  ◌<◌, ◌⊎◌, ℕ, ◌≤◌, ◌≡◌, refl, Bool, true, false, none, some, [], ◌∷◌, All, count_if, arith,
}
use sstsaas_pv.Limits.Window.{
  Window, WindowDecision, one_key, trim, consume_script, decision_of, consume_sliding_window,
}
use sstsaas_pv.Limits.Window.Bound.{within, admitted, admitted-le}
use sstsaas_pv.Limits.Window.Retry.{consume-retry}
use sstsaas_pv.Limits.Classes.{edge, login, rate_limit_classes, window_for}
use sstsaas_pv.Limits.Guard.{
  KeyableRequest, Naming, tightest, answer, resolve_identifier, charge, conclude, can_activate,
  scopes_in,
}
use sstsaas_pv.Limits.Guard.Decisions.{no_better, tightest-no_better, HasRoom, can_activate-HasRoom}

abbrev two_a_second : Window
two_a_second = record { limit = 2; window_seconds = 1 }

admitted-le_example :
    count_if (within 1000 1200) (admitted one_key 7 two_a_second (0 ∷ 300 ∷ 600 ∷ 1200 ∷ []) [] [])
    ≤ 2
admitted-le_example =
    admitted-le one_key 7 two_a_second (0 ∷ 300 ∷ 600 ∷ 1200 ∷ []) [] refl
      (omega arith, (omega arith, (omega arith, (omega arith, tt)))) 1200

consume-retry_example :
    (consume_sliding_window one_key 7 two_a_second 1700
      (consume_sliding_window one_key 7 two_a_second 600 (300 ∷ 0 ∷ [])).1).0.allowed
    ≡ true
unfolding consume_sliding_window consume_script trim decision_of
consume-retry_example =
    consume-retry one_key 7 two_a_second 600 1700 (300 ∷ 0 ∷ []) (omega arith, (omega arith, tt))
      (omega arith) (omega arith) refl (omega arith)

abbrev decided : Bool → ℕ → WindowDecision
decided allowed remaining = record {
  allowed = allowed;
  limit = 5;
  remaining = remaining;
  reset_seconds = 1;
}

tightest-no_better_example :
    All
      (λ d. no_better (decided false 0) d ≡ true)
      (decided true 3 ∷ decided false 0 ∷ decided true 1 ∷ [])
unfolding tightest
tightest-no_better_example =
    tightest-no_better (decided true 3 ∷ decided false 0 ∷ decided true 1 ∷ []) (decided false 0)
      refl

abbrev naming : Naming
naming = record { normalise_ip = λ a. a; hash_identifier = λ a. a; key_of = λ scope a. a }

abbrev request : KeyableRequest
request = record {
  ip = some 90;
  remote_address = none;
  principal_id = none;
  organization_id = none;
  body = some (λ field. some 91);
}

abbrev first_login : WindowDecision
first_login = record { allowed = true; limit = 5; remaining = 3; reset_seconds = 900 }

-- A login of this address and this account is charged in both windows.
can_activate-HasRoom_example :
    (n : ℕ) × HasRoom one_key naming
      (λ key. false)
      (rate_limit_classes login)
      request
      5000000
      (scopes_in edge)
      []
      (5000000 ∷ 5000000 ∷ [])
      n
    × ((All (λ scope. window_for (rate_limit_classes login) scope ≡ none) (scopes_in edge))
        ⊎ (0 < n))
unfolding can_activate conclude charge resolve_identifier rate_limit_classes tightest answer
    consume_sliding_window consume_script trim decision_of
can_activate-HasRoom_example =
    can_activate-HasRoom one_key naming (λ key. false) (rate_limit_classes login) request 5000000
      edge [] (some first_login) refl refl
