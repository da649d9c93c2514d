-- ===== src/Totp/Window.antt =====
-- The window of steps that `verifyTotpCode` searches.
use sstsaas_pv.Common.{
  ℕ, zero, suc, ◌+◌, ◌-◌, ◌≤◌, ◌<◌, ◌≡◌, ◌≢◌, refl, subst, inl, inr, ◌⊎◌, ◌==◌, ltb, Bool, true,
  false, not, ◌&&◌, Option, none, some, length, if◌then◌else◌, Bool-cases, arith, sym, ==_iff,
  and_left, and_right,
}
use sstsaas_pv.Totp.{
  VerifyTotpInput, step_at, is_numeric, is_too_early, same_code, totp_code, accepts, search_step,
  verify_totp_code, minimum_step_for,
}

search_step-accepts :
    (input : VerifyTotpInput) (left from step : ℕ)
    → search_step input left from ≡ some step
    → (from ≤ step) × (step < from + left) × (accepts input step ≡ true)
unfolding search_step
search_step-accepts input zero from step e = cc
search_step-accepts input (suc left) from step e =
    elim (Bool-cases (is_too_early input.minimum_step from)) [
      | inl early ↦
          widen from left step (search_step-accepts input left (suc from) step (rw early at e))
      | inr due ↦ elim (Bool-cases (same_code (totp_code input.parameters from) input.code)) [
        | inl hit ↦
            let this : from ≡ step = cc (rw (due, hit) at e) in
            subst (λ n. (from ≤ n) × (n < from + suc left) × (accepts input n ≡ true)) this
              (omega arith, omega arith, rw (due, hit) refl)
        | inr miss ↦
            widen from left step
              (search_step-accepts input left (suc from) step (rw (due, miss) at e))
      ]
    ]
  where
    widen :
        (from left step : ℕ)
        → (suc from ≤ step) × (step < suc from + left) × (accepts input step ≡ true)
        → (from ≤ step) × (step < from + suc left) × (accepts input step ≡ true)
    widen from left step (low, high, ok) = (omega (arith, low), omega (arith, high), ok)

search_step-finds :
    (input : VerifyTotpInput) (left from step : ℕ)
    → from ≤ step
    → step < from + left
    → accepts input step ≡ true
    → search_step input left from ≢ none
unfolding search_step
search_step-finds input zero from step low high ok e = omega (arith, low, high)
search_step-finds input (suc left) from step low high ok e = elim (Bool-cases (from == step)) [
  | inl this ↦
      let here : accepts input from ≡ true =
        subst (λ n. accepts input n ≡ true) (sym ((==_iff from step).0 this)) ok in
      first _ (is_too_early input.minimum_step from)
        (same_code (totp_code input.parameters from) input.code) here e
  | inr other ↦
      rest _ (is_too_early input.minimum_step from)
        (same_code (totp_code input.parameters from) input.code)
        (λ none_later.
          search_step-finds input left (suc from) step (after other) (omega (arith, high)) ok
            none_later)
        e
]
  where
    after : (from == step) ≡ false → suc from ≤ step
    after apart = ground (arith, low)

    first :
        (o : Option ℕ) (early hit : Bool)
        → (not early && hit) ≡ true
        → (if early then o else (if hit then some from else o)) ≢ none
    first o true hit h q = cc
    first o false true h q = cc
    first o false false h q = cc

    rest :
        (o : Option ℕ) (early hit : Bool)
        → o ≢ none
        → (if early then o else (if hit then some from else o)) ≢ none
    rest o true hit h q = h q
    rest o false true h q = cc
    rest o false false h q = h q

in_time : (minimum step : ℕ) → not (ltb step minimum) ≡ true → minimum ≤ step
in_time minimum step h = ground arith

past :
    (last : Option ℕ) (step : ℕ)
    → minimum_step_for last ≤ step
    → (last ≡ none) ⊎ ((l : ℕ) × (last ≡ some l) × (l < step))
unfolding minimum_step_for
past none step h = inl refl
past (some l) step h = inr (l, refl, omega (arith, h))

-- A code that is accepted has the configured number of characters, all digits, and is the code of
-- the step answered, which lies within the drift around the current step and, where an earlier step
-- was accepted last, after it, where the current step is at least the drift and the minimum step is
-- that of the step accepted last.
pub verify_totp_code-accepts :
    (input : VerifyTotpInput) (last : Option ℕ) (step : ℕ)
    → input.minimum_step ≡ some (minimum_step_for last)
    → input.drift_steps ≤ step_at input.at_ms input.parameters.step_seconds
    → verify_totp_code input ≡ some step
    → (length input.code ≡ input.parameters.digits)
      × (is_numeric input.code ≡ true)
      × (same_code (totp_code input.parameters step) input.code ≡ true)
      × (step_at input.at_ms input.parameters.step_seconds - input.drift_steps ≤ step)
      × (step ≤ step_at input.at_ms input.parameters.step_seconds + input.drift_steps)
      × (minimum_step_for last ≤ step)
      × ((last ≡ none) ⊎ ((l : ℕ) × (last ≡ some l) × (l < step)))
unfolding verify_totp_code
verify_totp_code-accepts input last step minimum settled e =
    elim (Bool-cases (length input.code == input.parameters.digits)) [
      | inr wrong ↦ let absurd = rw wrong at e in cc
      | inl right ↦ elim (Bool-cases (is_numeric input.code)) [
        | inr text ↦ let absurd = rw (right, text) at e in cc
        | inl numeric ↦
            let (low, high, ok) = search_step-accepts input _ _ step (rw (right, numeric) at e) in
            let due : not (is_too_early input.minimum_step step) ≡ true = and_left _ _ ok in
            (
              (==_iff (length input.code) input.parameters.digits).0 right,
              numeric,
              and_right _ _ ok,
              low,
              omega (arith, high, settled),
              in_time (minimum_step_for last) step (rw minimum at due),
              past last step (in_time (minimum_step_for last) step (rw minimum at due)),
            )
      ]
    ]

-- Where the current step is at least the drift, a numeric code of the configured length is accepted
-- when it is the code of some step within the drift that is not before the minimum step.
pub verify_totp_code-finds :
    (input : VerifyTotpInput) (step : ℕ)
    → input.drift_steps ≤ step_at input.at_ms input.parameters.step_seconds
    → length input.code ≡ input.parameters.digits
    → is_numeric input.code ≡ true
    → step_at input.at_ms input.parameters.step_seconds - input.drift_steps ≤ step
    → step ≤ step_at input.at_ms input.parameters.step_seconds + input.drift_steps
    → accepts input step ≡ true
    → verify_totp_code input ≢ none
unfolding verify_totp_code
verify_totp_code-finds input step settled right numeric low high ok e =
    search_step-finds input _ _ step low (omega (arith, high, settled)) ok
      (rw ((==_iff (length input.code) input.parameters.digits).1 right, numeric) at e)
