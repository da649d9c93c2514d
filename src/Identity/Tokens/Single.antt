-- ===== src/Identity/Tokens/Single.antt =====
-- One-time tokens through any sequence of the service's calls: a token redeemed, and the outstanding
-- tokens of a user for one purpose.
use sstsaas_pv.Common.{
  ℕ, ◌≤◌, ◌==◌, ◌≡◌, refl, subst, inl, inr, Bool, true, false, not, ◌&&◌, Option, none, some,
  is_none, and_left, All-gone, suc, All, All-map_if, All-map, count_if, find?-map_if,
  count_if-eq-zero, count_if-full, count_if-map_if-le, Bool-cases, ==_iff, arith, if◌then◌else◌,
  All-rewritten,
}
use mathlib.Core.Option
use sstsaas_pv.Common.Table.{Table}
use sstsaas_pv.Identity.Rows.{
  VerificationPurpose, email_verification, password_reset, same_purpose, TokenRow,
}
use sstsaas_pv.Identity.Tokens.{
  TtlSeconds, is_outstanding, is_redeemable, set_consumed, new_token, token_by_hash, issue_token,
  consume_token,
}

-- `tokenHash`, and the row not consumed.
abbrev pub has_hash : ℕ → TokenRow → Bool
has_hash h r = r.token_hash == h

abbrev pub is_unspent : ℕ → TokenRow → Bool
is_unspent h r = r.token_hash == h && is_none r.consumed_at

module _ (T : Table TokenRow) (ttl : TtlSeconds) where
  -- One call of the service; the hash of a minted token is on no row yet.
  pub data TokenStep : T.Store → T.Store → Type 0 where
    issues :
        (user : ℕ) (purpose : VerificationPurpose) (id h at : ℕ) (s : T.Store)
        → token_by_hash T h s ≡ none
        → TokenStep s (issue_token T ttl user purpose id h at s).1
    consumes :
        (h : ℕ) (purpose : VerificationPurpose) (now : ℕ) (s : T.Store)
        → TokenStep s (consume_token T h purpose now s).1

  pub data TokenSteps : T.Store → T.Store → Type 0 where
    done : (s : T.Store) → TokenSteps s s
    next : (s t u : T.Store) → TokenStep s t → TokenSteps t u → TokenSteps s u

  -- A row of the hash is stored, and every one is consumed.
  pub record IsSpent (h : ℕ) (s : T.Store) : Type 0 where
    pub stored : (r : TokenRow) × (token_by_hash T h s ≡ some r)
    pub spent : All (λ r. is_unspent h r ≡ false) (T.rows s)

  consume-state :
      (h : ℕ) (p : VerificationPurpose) (now : ℕ) (s : T.Store)
      → (consume_token T h p now s).1 ≡ T.update_many (is_redeemable h p now) (set_consumed now) s
  unfolding consume_token
  consume-state h p now s = ground arith

  stored-update :
      (h at : ℕ) (q : TokenRow → Bool) (s : T.Store) (r : TokenRow)
      → token_by_hash T h s ≡ some r
      → (r' : TokenRow) × (token_by_hash T h (T.update_many q (set_consumed at) s) ≡ some r')
  unfolding token_by_hash
  stored-update h at q s r e = (
    (if q r then set_consumed at r else r),
    rw
        (
          T.find_first_lem (has_hash h) (T.update_many q (set_consumed at) s),
          T.rows-update_many q (set_consumed at) s,
        )
        (find?-map_if (has_hash h) q (set_consumed at) (λ x. refl) (T.rows s) r
          (rw (T.find_first_lem (has_hash h) s) at e)),
  )

  and_false : (b : Bool) → (b && false) ≡ false
  and_false b = ground arith

  IsSpent-update :
      (h at : ℕ) (q : TokenRow → Bool) (s : T.Store)
      → IsSpent h s
      → IsSpent h (T.update_many q (set_consumed at) s)
  IsSpent-update h at q s d = record {
    stored = stored-update h at q s d.stored.0 d.stored.1;
    spent = rw (T.rows-update_many q (set_consumed at) s) (
        All-map_if {P = λ r. is_unspent h r ≡ false} q (set_consumed at)
          (λ x hit e. and_false (x.token_hash == h)) (T.rows s) d.spent);
  }

  -- A hash on no row is not one that is.
  fresh_apart :
      (h k : ℕ) (s : T.Store) (r : TokenRow)
      → token_by_hash T h s ≡ some r
      → token_by_hash T k s ≡ none
      → (k == h) ≡ false
  fresh_apart h k s r e missing = elim (Bool-cases (k == h)) [
    | inl same ↦
        let gone : token_by_hash T h s ≡ none =
          subst (λ n. token_by_hash T n s ≡ none) ((==_iff k h).0 same) missing in
        cc
    | inr apart ↦ apart
  ]

  IsSpent-create :
      (h : ℕ) (row : TokenRow) (s : T.Store)
      → (row.token_hash == h) ≡ false
      → IsSpent h s
      → IsSpent h (T.create row s)
  unfolding token_by_hash
  IsSpent-create h row s apart d = record {
    stored = (
      d.stored.0,
      rw (T.find_first_lem (has_hash h) (T.create row s), T.rows-create row s, apart)
          (rw (T.find_first_lem (has_hash h) s) at d.stored.1),
    );
    spent = rw (T.rows-create row s) (rw apart refl, d.spent);
  }

  IsSpent-TokenStep : (h : ℕ) (s t : T.Store) → TokenStep s t → IsSpent h s → IsSpent h t
  unfolding issue_token
  IsSpent-TokenStep h s t (issues user p id k at st fresh) d =
      IsSpent-create h (new_token ttl user p id k at) _
        (fresh_apart h k s d.stored.0 d.stored.1 fresh)
        (IsSpent-update h at (is_outstanding user p) s d)
  IsSpent-TokenStep h s t (consumes k p now st) d =
      rw (consume-state k p now s) (IsSpent-update h now (is_redeemable k p now) s d)

  IsSpent-TokenSteps : (h : ℕ) (s t : T.Store) → TokenSteps s t → IsSpent h s → IsSpent h t
  IsSpent-TokenSteps h s t (done _) d = d
  IsSpent-TokenSteps h s u (next _ t _ step steps) d =
      IsSpent-TokenSteps h t u steps (IsSpent-TokenStep h s t step d)

  -- A spent token is refused.
  not_unspent :
      (h : ℕ) (p : VerificationPurpose) (now : ℕ) (r : TokenRow)
      → is_unspent h r ≡ false
      → is_redeemable h p now r ≡ false
  not_unspent h p now r e = and_swap (r.token_hash == h) (same_purpose r.purpose p) _ _ e
    where
      and_swap : (a b c d : Bool) → (a && c) ≡ false → (a && (b && (c && d))) ≡ false
      and_swap a b c d e = ground arith

  consume-refused :
      (h : ℕ) (p : VerificationPurpose) (now : ℕ) (s : T.Store)
      → IsSpent h s
      → (consume_token T h p now s).0 ≡ none
  unfolding consume_token
  consume-refused h p now s d =
      rw
        (
          T.updated_count_lem (is_redeemable h p now) s,
          count_if-eq-zero (is_redeemable h p now) (T.rows s)
              (All-map (λ r. not_unspent h p now r) (T.rows s) d.spent),
        )
        refl

  -- A redemption that answers counted one row, and reads the user from the row of the hash.
  pub consume-ok :
      (h : ℕ) (p : VerificationPurpose) (now : ℕ) (s : T.Store) (user : ℕ)
      → (consume_token T h p now s).0 ≡ some user
      → (count_if (is_redeemable h p now) (T.rows s) ≡ 1)
        × ((r : TokenRow) × (token_by_hash T h (consume_token T h p now s).1 ≡ some r)
            × (r.user_id ≡ user))
  unfolding consume_token
  consume-ok h p now s user e = elim (Bool-cases (T.updated_count (is_redeemable h p now) s == 1)) [
    | inr other ↦ let absurd : none ≡ some user = rw other at e in cc
    | inl one ↦ (
      rw (← T.updated_count_lem (is_redeemable h p now) s)
          ((==_iff (T.updated_count (is_redeemable h p now) s) 1).0 one),
      rw one (found _ (rw one at e)),
    )
  ]
    where
      found :
          (o : Option TokenRow)
          → Option.map (λ r. r.user_id) o ≡ some user
          → (r : TokenRow) × (o ≡ some r) × (r.user_id ≡ user)
      found none e = cc
      found (some r) e = (r, refl, cc)

  -- Where a hash stands on one row at most, a redemption that answers consumes that row.
  consume-IsSpent :
      (h : ℕ) (p : VerificationPurpose) (now : ℕ) (s : T.Store) (user : ℕ)
      → count_if (has_hash h) (T.rows s) ≤ 1
      → (consume_token T h p now s).0 ≡ some user
      → IsSpent h (consume_token T h p now s).1
  consume-IsSpent h p now s user unique e =
      let (one, (r, found, _)) = consume-ok h p now s user e in
      record {
        stored = (r, found);
        spent =
            rw
              (
                consume-state h p now s,
                T.rows-update_many (is_redeemable h p now) (set_consumed now) s,
              )
              (All-rewritten {P = λ r. has_hash h r && not (is_redeemable h p now r) ≡ false}
                {Q = λ r. is_unspent h r ≡ false} (is_redeemable h p now) (set_consumed now)
                (λ r hit. and_false (r.token_hash == h))
                (λ r miss kept. other (has_hash h r) _ _ miss kept) (T.rows s)
                (count_if-full (is_redeemable h p now) (has_hash h)
                  (λ r hit. and_left (has_hash h r) _ hit) (T.rows s) (rw one unique)));
      }
    where
      other : (a b c : Bool) → b ≡ false → a && not b ≡ false → a && c ≡ false
      other a b c miss kept = ground arith

  -- Where a token's hash stands on one row at most, a token that was redeemed is never redeemed
  -- again, for whatever purpose and at whatever time, after any sequence of calls that mint tokens
  -- of new hashes and redeem tokens.
  pub consume-once :
      (h : ℕ) (p : VerificationPurpose) (now : ℕ) (s t : T.Store) (user : ℕ)
      → count_if (has_hash h) (T.rows s) ≤ 1
      → (consume_token T h p now s).0 ≡ some user
      → TokenSteps (consume_token T h p now s).1 t
      → (q : VerificationPurpose) (at : ℕ) → (consume_token T h q at t).0 ≡ none
  consume-once h p now s t user unique e steps q at =
      consume-refused h q at t
        (IsSpent-TokenSteps h _ t steps (consume-IsSpent h p now s user unique e))

  -- The outstanding tokens of a user for a purpose.
  abbrev pub outstanding : ℕ → VerificationPurpose → T.Store → ℕ
  outstanding user p s = count_if (is_outstanding user p) (T.rows s)

  outstanding-update :
      (user at : ℕ) (p : VerificationPurpose) (q : TokenRow → Bool) (s : T.Store)
      → outstanding user p (T.update_many q (set_consumed at) s) ≤ outstanding user p s
  outstanding-update user at p q s = rw (T.rows-update_many q (set_consumed at) s) (
      count_if-map_if-le (is_outstanding user p) q (set_consumed at)
        (λ r hit e. never (r.user_id == user) (same_purpose r.purpose p) _ e) (T.rows s))
    where
      never : (a b c : Bool) → a && (b && false) ≡ true → c ≡ true
      never a b c e = ground arith

  superseded :
      (user at : ℕ) (p : VerificationPurpose) (s : T.Store)
      → outstanding user p (T.update_many (is_outstanding user p) (set_consumed at) s) ≡ 0
  superseded user at p s = rw (T.rows-update_many (is_outstanding user p) (set_consumed at) s) (
      count_if-eq-zero (is_outstanding user p) _ (
        All-gone (is_outstanding user p) (is_outstanding user p) (set_consumed at)
          (λ r hit. never (r.user_id == user) (same_purpose r.purpose p)) (λ r miss. miss)
          (T.rows s)))
    where
      never : (a b : Bool) → a && (b && false) ≡ false
      never a b = ground arith

  same_purpose-eq : (p q : VerificationPurpose) → same_purpose p q ≡ true → p ≡ q
  same_purpose-eq email_verification email_verification e = refl
  same_purpose-eq password_reset password_reset e = refl
  same_purpose-eq email_verification password_reset e = cc
  same_purpose-eq password_reset email_verification e = cc

  outstanding-issue :
      (user u : ℕ) (p q : VerificationPurpose) (id h at : ℕ) (s : T.Store)
      → outstanding u q s ≤ 1
      → outstanding u q (issue_token T ttl user p id h at s).1 ≤ 1
  unfolding issue_token
  outstanding-issue user u p q id h at s le =
      rw
        (T.rows-create (new_token ttl user p id h at)
          (T.update_many (is_outstanding user p) (set_consumed at) s))
        (elim (Bool-cases (user == u)) [
          | inr other ↦ rw other (after le (outstanding-update u at q (is_outstanding user p) s))
          | inl same ↦ elim (Bool-cases (same_purpose p q)) [
            | inr other ↦
                rw (same, other) (after le (outstanding-update u at q (is_outstanding user p) s))
            | inl alike ↦
                rw (same, alike)
                  (first (
                    subst
                      (λ v.
                        outstanding v q (T.update_many (is_outstanding user p) (set_consumed at) s)
                        ≡ 0)
                      ((==_iff user u).0 same)
                      (subst
                        (λ r.
                          outstanding user r
                            (T.update_many (is_outstanding user p) (set_consumed at) s)
                          ≡ 0)
                        (same_purpose-eq p q alike) (superseded user at p s))))
          ]
        ])
    where
      after : {m n : ℕ} → n ≤ 1 → m ≤ n → m ≤ 1
      after f g = omega arith

      first : {m : ℕ} → m ≡ 0 → suc m ≤ 1
      first e = omega arith

  -- At most one token of a user is outstanding for a purpose: any sequence of calls keeps it so.
  pub TokenSteps-outstanding :
      (s t : T.Store)
      → TokenSteps s t
      → (user : ℕ) (p : VerificationPurpose) → outstanding user p s ≤ 1
      → outstanding user p t ≤ 1
  TokenSteps-outstanding s t (done _) user p le = le
  TokenSteps-outstanding s u (next _ t _ step steps) user p le =
      TokenSteps-outstanding t u steps user p (one_step s t step le)
    where
      after : {m n : ℕ} → n ≤ 1 → m ≤ n → m ≤ 1
      after f g = omega arith

      one_step :
          (s t : T.Store) → TokenStep s t → outstanding user p s ≤ 1 → outstanding user p t ≤ 1
      one_step s t (issues v q id h at st fresh) le = outstanding-issue v user q p id h at s le
      one_step s t (consumes h q now st) le =
          rw (consume-state h q now s)
            (after le (outstanding-update user now p (is_redeemable h q now) s))
