-- ===== src/Identity/Tokens.antt =====
-- apps/api/src/modules/auth/token.service.ts over the token table. The clock, the new identifier and
-- the hash of the minted token are arguments; the advisory lock orders the transactions, which the
-- model runs one by one.
use sstsaas_pv.Common.{
  ℕ, ◌+◌, ◌*◌, ◌==◌, ltb, Bool, true, false, ◌&&◌, Option, none, some, is_none, if◌then◌else◌,
}
pub mod Single
use mathlib.Core.Option
use sstsaas_pv.Common.Table.{Table}
use sstsaas_pv.Identity.Rows.{
  VerificationPurpose, email_verification, password_reset, same_purpose, TokenRow,
}

-- `SecretTokenTtlSeconds`, of the two purposes.
pub record TtlSeconds : Type 0 where
  pub email_verification : ℕ
  pub password_reset : ℕ

abbrev pub ttl_seconds_for : TtlSeconds → VerificationPurpose → ℕ
ttl_seconds_for ttl email_verification = ttl.email_verification
ttl_seconds_for ttl password_reset = ttl.password_reset

-- `expiresAtFor`
abbrev pub expires_at_for : TtlSeconds → VerificationPurpose → ℕ → ℕ
expires_at_for ttl purpose at = at + ttl_seconds_for ttl purpose * 1000

-- `{ userId, purpose, consumedAt: null }`
abbrev pub is_outstanding : ℕ → VerificationPurpose → TokenRow → Bool
is_outstanding user purpose r =
    r.user_id == user && (same_purpose r.purpose purpose && is_none r.consumed_at)

-- `{ tokenHash, purpose, consumedAt: null, expiresAt: { gt: consumedAt } }`
abbrev pub is_redeemable : ℕ → VerificationPurpose → ℕ → TokenRow → Bool
is_redeemable h purpose now r =
    r.token_hash == h
    && (same_purpose r.purpose purpose && (is_none r.consumed_at && ltb now r.expires_at))

abbrev pub set_consumed : ℕ → TokenRow → TokenRow
set_consumed at r = record r { consumed_at = some at }

abbrev pub new_token : TtlSeconds → ℕ → VerificationPurpose → ℕ → ℕ → ℕ → TokenRow
new_token ttl user purpose id h at = record {
  id = id;
  user_id = user;
  purpose = purpose;
  token_hash = h;
  expires_at = expires_at_for ttl purpose at;
  consumed_at = none;
}

module _ (T : Table TokenRow) where
  -- `findUnique({ where: { tokenHash } })`
  unfoldable pub token_by_hash : ℕ → T.Store → Option TokenRow
  token_by_hash h = T.find_first (λ r. r.token_hash == h)

  -- `issueInTransaction`: supersede, then insert.
  unfoldable pub issue_token :
      TtlSeconds → ℕ → VerificationPurpose → ℕ → ℕ → ℕ → T.Store → TokenRow × T.Store
  issue_token ttl user purpose id h at s =
      let row = new_token ttl user purpose id h at in
      (row, T.create row (T.update_many (is_outstanding user purpose) (set_consumed at) s))

  -- `consumeWith`: the user whose token it was.
  unfoldable pub consume_token : ℕ → VerificationPurpose → ℕ → T.Store → Option ℕ × T.Store
  consume_token h purpose now s =
      let s' = T.update_many (is_redeemable h purpose now) (set_consumed now) s in
      if T.updated_count (is_redeemable h purpose now) s == 1
      then (Option.map (λ r. r.user_id) (token_by_hash h s'), s')
      else (none, s')
