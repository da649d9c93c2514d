-- ===== src/Totp/Tests.antt =====
-- A code of three digits under a digest of zeros, ninety seconds after the epoch.
use sstsaas_pv.Common.{
  Option, ℕ, ◌<◌, ◌⊎◌, ◌≤◌, ◌≡◌, ◌≢◌, ◌+◌, ◌-◌, refl, true, none, some, [], ◌∷◌, length, arith,
}
use sstsaas_pv.Totp.{
  TotpParameters, VerifyTotpInput, step_at, is_numeric, same_code, totp_code, truncated, padded,
  search_step, verify_totp_code, minimum_step_for,
}
use sstsaas_pv.Totp.Window.{verify_totp_code-accepts, verify_totp_code-finds}

abbrev zeros : TotpParameters
zeros = record { digits = 3; step_seconds = 30; digest_length = 20; digest = λ step index. 0 }

-- The last step accepted was the second, the current step is the third.
abbrev submitted : VerifyTotpInput
submitted = record {
  code = 48 ∷ 48 ∷ 48 ∷ [];
  at_ms = 90000;
  minimum_step = some 3;
  drift_steps = 1;
  parameters = zeros;
}

abbrev second : Option ℕ
second = some 2

verify_totp_code-accepts_example :
    (length submitted.code ≡ zeros.digits)
    × (is_numeric submitted.code ≡ true)
    × (same_code (totp_code zeros 3) submitted.code ≡ true)
    × (step_at 90000 30 - 1 ≤ 3)
    × (3 ≤ step_at 90000 30 + 1)
    × (minimum_step_for (some 2) ≤ 3)
    × ((second ≡ none) ⊎ ((l : ℕ) × (second ≡ some l) × (l < 3)))
unfolding verify_totp_code search_step totp_code truncated padded step_at minimum_step_for
verify_totp_code-accepts_example =
    verify_totp_code-accepts submitted (some 2) 3 refl (omega arith) refl

verify_totp_code-finds_example : verify_totp_code submitted ≢ none
unfolding search_step totp_code truncated padded step_at
verify_totp_code-finds_example =
    verify_totp_code-finds submitted 4 (omega arith) refl refl (omega arith) (omega arith) refl
