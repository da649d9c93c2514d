-- ===== src/Totp.antt =====
-- apps/api/src/modules/auth/totp.ts: one-time codes. The HMAC of Node is a parameter: the bytes of the
-- digest of a counter under the secret and hash at hand, by their index, and their number. A code is
-- the list of its characters' codes; instants are at least `drift` steps after the epoch.
pub mod Window
mod Tests
use sstsaas_pv.Common.{
  ℕ, zero, suc, ◌+◌, ◌-◌, ◌*◌, ◌/◌, ◌%◌, ◌^◌, ◌==◌, ltb, leb, Bool, true, false, not, ◌&&◌, ◌||◌,
  Option, none, some, List, [], ◌∷◌, ◌++◌, length, if◌then◌else◌,
}

-- `TotpParameters`, the algorithm aside, and what `createHmac` computes with it.
pub record TotpParameters : Type 0 where
  pub digits : ℕ
  pub step_seconds : ℕ
  pub digest_length : ℕ
  pub digest : ℕ → ℕ → ℕ

-- `stepAt`
unfoldable pub step_at : ℕ → ℕ → ℕ
step_at at_ms step_seconds = at_ms / 1000 / step_seconds

-- `digest[index] ?? 0` of the counter's digest.
abbrev pub byte_at : TotpParameters → ℕ → ℕ → ℕ
byte_at parameters step index =
    if ltb index parameters.digest_length then parameters.digest step index else 0

-- `binary`; the shifts and masks of bytes are products and remainders.
unfoldable pub truncated : TotpParameters → ℕ → ℕ
truncated parameters step =
    let offset = byte_at parameters step (parameters.digest_length - 1) % 16 in
    byte_at parameters step offset % 128 * 2 ^ 24
    + byte_at parameters step (offset + 1) % 256 * 2 ^ 16
    + byte_at parameters step (offset + 2) % 256 * 2 ^ 8
    + byte_at parameters step (offset + 3) % 256

-- `String(n).padStart(digits, '0')` of a number below `10 ** digits`.
unfoldable pub padded : ℕ → ℕ → List ℕ
padded zero n = []
padded (suc digits) n = padded digits (n / 10) ++ (48 + n % 10) ∷ []

-- `totpCode`
unfoldable pub totp_code : TotpParameters → ℕ → List ℕ
totp_code parameters step =
    padded parameters.digits (truncated parameters step % 10 ^ parameters.digits)

-- `expected.length === submitted.length && timingSafeEqual(expected, submitted)`
abbrev pub same_code : List ℕ → List ℕ → Bool
same_code [] [] = true
same_code (a ∷ xs) (b ∷ ys) = a == b && same_code xs ys
same_code _ _ = false

-- `/^\d+$/.test(code)`
abbrev pub all_digits : List ℕ → Bool
all_digits [] = true
all_digits (c ∷ cs) = leb 48 c && leb c 57 && all_digits cs

abbrev pub is_numeric : List ℕ → Bool
is_numeric [] = false
is_numeric (c ∷ cs) = all_digits (c ∷ cs)

-- `input.minimumStep !== undefined && step < input.minimumStep`
abbrev pub is_too_early : Option ℕ → ℕ → Bool
is_too_early none step = false
is_too_early (some minimum) step = ltb step minimum

-- `VerifyTotpInput`
pub record VerifyTotpInput : Type 0 where
  pub code : List ℕ
  pub at_ms : ℕ
  pub minimum_step : Option ℕ
  pub drift_steps : ℕ
  pub parameters : TotpParameters

-- A step that the loop answers.
abbrev pub accepts : VerifyTotpInput → ℕ → Bool
accepts input step =
    not (is_too_early input.minimum_step step)
    && same_code (totp_code input.parameters step) input.code

-- The loop of `verifyTotpCode`, with the number of steps left.
unfoldable pub search_step : VerifyTotpInput → ℕ → ℕ → Option ℕ
search_step input zero step = none
search_step input (suc left) step =
    let later = search_step input left (suc step) in
    if is_too_early input.minimum_step step
    then later
    else (if same_code (totp_code input.parameters step) input.code then some step else later)

-- `verifyTotpCode`
unfoldable pub verify_totp_code : VerifyTotpInput → Option ℕ
verify_totp_code input =
    let current = step_at input.at_ms input.parameters.step_seconds in
    if not (length input.code == input.parameters.digits)
    then none
    else (if not (is_numeric input.code)
        then none
        else search_step input (2 * input.drift_steps + 1) (current - input.drift_steps))

-- `minimumStepFor`
unfoldable pub minimum_step_for : Option ℕ → ℕ
minimum_step_for none = 0
minimum_step_for (some last) = last + 1
