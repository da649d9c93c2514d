-- ===== src/Mfa/Replay.antt =====
-- One-time codes spent by any number of requests, each with the factor as it read it.
use sstsaas_pv.Common.{
  ℕ, ◌≤◌, ◌==◌, ltb, ◌≡◌, refl, inl, inr, Bool, true, false, ◌&&◌, Option, none, some, is_some,
  List, All, All-map, All-map_if, All-gone, and_right, subst, sym, ap, ◌∙◌, ◌<◌, leb, ◌⊎◌,
  Bool-cases, arith, count_if-eq-zero,
}
use sstsaas_pv.Common.Table.{Table}
use sstsaas_pv.Totp.{TotpParameters}
use sstsaas_pv.Identity.Rows.{FactorRow}
use sstsaas_pv.Mfa.{
  is_behind, replay_spend_where, set_accepted, swap_step, spend_step, spend_with, spend_totp_code,
}

module _ (F : Table FactorRow) (decrypt : ℕ → Option ℕ → Option ℕ) (totp : ℕ → TotpParameters) where
  -- Any sequence of attempts to spend codes; a factor may have been read at any time before.
  pub data Spends : F.Store → F.Store → Type 0 where
    done : (s : F.Store) → Spends s s
    spends :
        (factor : FactorRow) (code : List ℕ) (at_ms now : ℕ) (s t : F.Store)
        → Spends (spend_totp_code F decrypt totp factor code at_ms now s).1 t
        → Spends s t

  -- No row lets the step, or an earlier one, be spent.
  IsBeyond : ℕ → ℕ → F.Store → Type 0
  IsBeyond id step s = All (λ r. replay_spend_where id step r ≡ false) (F.rows s)

  -- A row that a swap wrote is beyond every step that it was beyond.
  moved :
      (step k : ℕ) (last : Option ℕ) (a c : Bool)
      → c && is_behind last k ≡ true
      → a && (c && is_behind last step) ≡ false
      → a && (c && ltb k step) ≡ false
  moved step k none a c hit e = ground arith
  moved step k (some last) a c hit e = ground arith

  IsBeyond-update :
      (id step other k now : ℕ) (s : F.Store)
      → IsBeyond id step s
      → IsBeyond id step (F.update_many (replay_spend_where other k) (set_accepted k now) s)
  unfolding IsBeyond
  IsBeyond-update id step other k now s h =
      rw (F.rows-update_many (replay_spend_where other k) (set_accepted k now) s) (
        All-map_if {P = λ r. replay_spend_where id step r ≡ false} (replay_spend_where other k)
          (set_accepted k now)
          (λ r hit e.
            moved step k r.last_accepted_step (r.id == id) (is_some r.confirmed_at)
              (and_right (r.id == other) _ hit) e)
          (F.rows s) h)

  -- After a swap of a step that answers, whatever was stored, no row lets it be spent.
  swapped-IsBeyond :
      (id step now : ℕ) (s : F.Store)
      → IsBeyond id step (F.update_many (replay_spend_where id step) (set_accepted step now) s)
  unfolding IsBeyond
  swapped-IsBeyond id step now s =
      rw (F.rows-update_many (replay_spend_where id step) (set_accepted step now) s) (
        All-gone (replay_spend_where id step) (replay_spend_where id step) (set_accepted step now)
          (λ r hit. itself step (r.id == id) (is_some r.confirmed_at)) (λ r miss. miss) (F.rows s))
    where
      itself : (step : ℕ) (a c : Bool) → a && (c && ltb step step) ≡ false
      itself step a c = ground arith

  -- An attempt changes nothing and answers nothing, or is a swap.
  Outcome : ℕ → ℕ → F.Store → Option ℕ × F.Store → Type 0
  Outcome id now s r = ((r.0 ≡ none) × (r.1 ≡ s)) ⊎ ((k : ℕ) × (r ≡ swap_step F id k now s))

  swap_step-state :
      (id step now : ℕ) (s : F.Store)
      → (swap_step F id step now s).1
        ≡ F.update_many (replay_spend_where id step) (set_accepted step now) s
  unfolding swap_step
  swap_step-state id step now s = ground arith

  swap_step-answer :
      (id k now step : ℕ) (s : F.Store) → (swap_step F id k now s).0 ≡ some step → k ≡ step
  unfolding swap_step
  swap_step-answer id k now step s e =
      elim (Bool-cases (F.updated_count (replay_spend_where id k) s == 0)) [
        | inl none_hit ↦ let never : none ≡ some step = rw none_hit at e in cc
        | inr some_hit ↦ let this : some k ≡ some step = rw some_hit at e in cc
      ]

  spend_step-Outcome :
      (id now : ℕ) (found : Option ℕ) (s : F.Store) → Outcome id now s (spend_step F id found now s)
  unfolding Outcome spend_step
  spend_step-Outcome id now none s = inl (refl, refl)
  spend_step-Outcome id now (some step) s = inr (step, refl)

  spend_with-Outcome :
      (factor : FactorRow) (secret : Option ℕ) (code : List ℕ) (at_ms now : ℕ) (s : F.Store)
      → Outcome factor.id now s (spend_with F decrypt totp factor secret code at_ms now s)
  unfolding Outcome spend_with
  spend_with-Outcome factor none code at_ms now s = inl (refl, refl)
  spend_with-Outcome factor (some secret) code at_ms now s = spend_step-Outcome factor.id now _ s

  spend-Outcome :
      (factor : FactorRow) (code : List ℕ) (at_ms now : ℕ) (s : F.Store)
      → Outcome factor.id now s (spend_totp_code F decrypt totp factor code at_ms now s)
  unfolding spend_totp_code
  spend-Outcome factor code at_ms now s = spend_with-Outcome factor _ code at_ms now s

  Outcome-IsBeyond :
      (id step other now : ℕ) (s : F.Store) (r : Option ℕ × F.Store)
      → Outcome other now s r
      → IsBeyond id step s
      → IsBeyond id step r.1
  unfolding Outcome
  Outcome-IsBeyond id step other now s r (inl (_, same)) h = subst (IsBeyond id step) (sym same) h
  Outcome-IsBeyond id step other now s r (inr (k, swap)) h =
      subst (IsBeyond id step) (sym (ap (λ x. x.1) swap ∙ swap_step-state other k now s))
        (IsBeyond-update id step other k now s h)

  -- What an attempt answers, its swap answered.
  Outcome-swap :
      (id now : ℕ) (s : F.Store) (r : Option ℕ × F.Store) (step : ℕ)
      → Outcome id now s r
      → r.0 ≡ some step
      → r ≡ swap_step F id step now s
  unfolding Outcome
  Outcome-swap id now s r step (inl (refused, _)) e = absurd (cc)
  Outcome-swap id now s r step (inr (k, swap)) e =
      subst (λ n. r ≡ swap_step F id n now s)
        (swap_step-answer id k now step s (sym (ap (λ x. x.0) swap) ∙ e)) swap

  spend-swap :
      (factor : FactorRow) (code : List ℕ) (at_ms now : ℕ) (s : F.Store) (step : ℕ)
      → (spend_totp_code F decrypt totp factor code at_ms now s).0 ≡ some step
      → spend_totp_code F decrypt totp factor code at_ms now s ≡ swap_step F factor.id step now s
  spend-swap factor code at_ms now s step e =
      Outcome-swap factor.id now s _ step (spend-Outcome factor code at_ms now s) e

  IsBeyond-Spends :
      (id step : ℕ) (s t : F.Store) → Spends s t → IsBeyond id step s → IsBeyond id step t
  IsBeyond-Spends id step s t (done _) h = h
  IsBeyond-Spends id step s t (spends factor code at_ms now _ _ later) h =
      IsBeyond-Spends id step _ t later
        (Outcome-IsBeyond id step factor.id now s _ (spend-Outcome factor code at_ms now s) h)

  -- A step is not spent, nor one before it, where no row lets the step be.
  swap_step-refused :
      (id step k now : ℕ) (s : F.Store)
      → k ≤ step
      → IsBeyond id step s
      → (swap_step F id k now s).0 ≡ none
  unfolding swap_step IsBeyond
  swap_step-refused id step k now s le h =
      rw
        (
          F.updated_count_lem (replay_spend_where id k) s,
          count_if-eq-zero (replay_spend_where id k) (F.rows s) (
              All-map (λ r e. before r.last_accepted_step (r.id == id) (is_some r.confirmed_at) e)
                (F.rows s) h),
        )
        refl
    where
      before :
          (last : Option ℕ) (a c : Bool)
          → a && (c && is_behind last step) ≡ false
          → a && (c && is_behind last k) ≡ false
      before none a c e = e
      before (some last) a c e = ground (arith, le)

  -- Once a code was accepted for a step of a factor, no code is accepted for that step of it or for
  -- an earlier one, after any sequence of attempts to spend codes, each with the factor as some
  -- request had read it at any time.
  pub spend-once :
      (factor again : FactorRow) (code other : List ℕ) (at_ms now at_ms' now' : ℕ) (s t : F.Store)
      (step k : ℕ)
      → (spend_totp_code F decrypt totp factor code at_ms now s).0 ≡ some step
      → Spends (spend_totp_code F decrypt totp factor code at_ms now s).1 t
      → again.id ≡ factor.id
      → (spend_totp_code F decrypt totp again other at_ms' now' t).0 ≡ some k
      → step < k
  spend-once factor again code other at_ms now at_ms' now' s t step k e later same f =
      elim (Bool-cases (leb k step)) [
        | inr after ↦ ground arith
        | inl before ↦
            let swap = spend-swap again other at_ms' now' t k f in
            let refused : (swap_step F again.id k now' t).0 ≡ none =
              subst (λ n. (swap_step F n k now' t).0 ≡ none) (sym same)
                (swap_step-refused factor.id step k now' t (ground arith) (
                  IsBeyond-Spends factor.id step _ t later (
                    subst (IsBeyond factor.id step)
                      (sym (
                        ap (λ x. x.1) (spend-swap factor code at_ms now s step e)
                        ∙ swap_step-state factor.id step now s))
                      (swapped-IsBeyond factor.id step now s)))) in
            absurd (cc (sym f ∙ ap (λ x. x.0) swap ∙ refused))
      ]
