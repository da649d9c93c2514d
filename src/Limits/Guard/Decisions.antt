-- ===== src/Limits/Guard/Decisions.antt =====
-- What the decisions of a request's windows make of the request.
use sstsaas_pv.Common.{
  ℕ, ◌≡◌, refl, sym, subst, inl, inr, ltb, leb, suc, ◌<◌, ◌⊎◌, Option-cases, none, Bool, true,
  false, not, ◌&&◌, ◌||◌, Option, some, List, [], ◌∷◌, All, All-map, Bool-cases, arith,
}
use sstsaas_pv.Limits.Window.{Window, WindowDecision, SortedSets, consume_sliding_window}
use sstsaas_pv.Limits.Classes.{
  RateLimitScope, RateLimitPhase, RateLimitClassConfig, window_for, closed,
}
use sstsaas_pv.Limits.Guard.{
  KeyableRequest, Naming, worse, tightest_from, tightest, admitted, apply_fail_mode, answer, charge,
  resolve_identifier, Charges, conclude, can_activate, scopes_in, no_decisions,
}

-- `t` refuses where `x` does, and leaves no more than `x` where both answer the same.
abbrev pub no_better : WindowDecision → WindowDecision → Bool
no_better t x =
    (not t.allowed || x.allowed)
    && (not (t.allowed && x.allowed || not t.allowed && not x.allowed)
        || leb t.remaining x.remaining)

no_better_trans :
    (a b c : WindowDecision) → no_better a b ≡ true → no_better b c ≡ true → no_better a c ≡ true
no_better_trans a b c h k = ground arith

no_better_refl : (a : WindowDecision) → no_better a a ≡ true
no_better_refl a = ground arith

worse-left : (w d : WindowDecision) → no_better (worse w d) w ≡ true
worse-left w d = ground arith

worse-right : (w d : WindowDecision) → no_better (worse w d) d ≡ true
worse-right w d = ground arith

tightest_from-no_better :
    (w : WindowDecision) (ds : List WindowDecision)
    → (no_better (tightest_from w ds) w ≡ true)
      × All (λ d. no_better (tightest_from w ds) d ≡ true) ds
tightest_from-no_better w [] = (no_better_refl w, tt)
tightest_from-no_better w (d ∷ ds) =
    let (first, rest) = tightest_from-no_better (worse w d) ds in
    (
      no_better_trans (tightest_from (worse w d) ds) (worse w d) w first (worse-left w d),
      (no_better_trans (tightest_from (worse w d) ds) (worse w d) d first (worse-right w d), rest),
    )

-- The tightest decision refuses where any does, and leaves no more than any that answers as it does.
pub tightest-no_better :
    (ds : List WindowDecision) (t : WindowDecision)
    → tightest ds ≡ some t
    → All (λ d. no_better t d ≡ true) ds
unfolding tightest
tightest-no_better [] t e = cc
tightest-no_better (d ∷ ds) t e =
    let same : tightest_from d ds ≡ t = cc in
    subst (λ x. All (λ y. no_better x y ≡ true) (d ∷ ds)) same (tightest_from-no_better d ds)

answer-All :
    (ds : List WindowDecision) (o : Option WindowDecision)
    → answer (tightest ds) ≡ admitted o
    → All (λ d. d.allowed ≡ true) ds
unfolding answer tightest
answer-All [] o e = tt
answer-All (d ∷ ds) o e = elim (Bool-cases (tightest_from d ds).allowed) [
  | inl fine ↦
      All-map (λ x worse_than. allowed_too (tightest_from d ds) x fine worse_than) (d ∷ ds)
        (tightest_from-no_better d ds)
  | inr full ↦ let absurd = rw full at e in cc
]
  where
    allowed_too :
        (t x : WindowDecision) → t.allowed ≡ true → no_better t x ≡ true → x.allowed ≡ true
    allowed_too t x h k = ground arith

module _ (Z : SortedSets) (naming : Naming) (throws : ℕ → Bool) (config : RateLimitClassConfig)
    (request : KeyableRequest) (now : ℕ) where
  -- The windows of the scopes, one after the other: each scope with a window and an identifier is
  -- charged, Redis answers, and the window has room; `n` scopes were charged.
  pub data HasRoom : List RateLimitScope → Z.Store → Z.Store → ℕ → Type 0 where
    no_scope : (s : Z.Store) → HasRoom [] s s 0
    unlimited :
        (scope : RateLimitScope) (scopes : List RateLimitScope) (s t : Z.Store) (n : ℕ)
        → window_for config scope ≡ none
        → HasRoom scopes s t n
        → HasRoom (scope ∷ scopes) s t n
    unnamed :
        (scope : RateLimitScope) (scopes : List RateLimitScope) (s t : Z.Store) (n : ℕ)
        → resolve_identifier naming scope request config ≡ none
        → HasRoom scopes s t n
        → HasRoom (scope ∷ scopes) s t n
    charged :
        (scope : RateLimitScope) (scopes : List RateLimitScope) (s t : Z.Store) (n : ℕ)
        (window : Window) (identifier : ℕ)
        → window_for config scope ≡ some window
        → resolve_identifier naming scope request config ≡ some identifier
        → throws (naming.key_of scope identifier) ≡ false
        → (consume_sliding_window Z (naming.key_of scope identifier) window now s).0.allowed ≡ true
        → HasRoom scopes
            (consume_sliding_window Z (naming.key_of scope identifier) window now s).1
            t
            n
        → HasRoom (scope ∷ scopes) s t (suc n)

  -- What the loop of a request that is admitted did.
  pub record Ran (scopes : List RateLimitScope) (s : Z.Store) (c : Charges Z) : Type 0 where
    pub n : ℕ
    pub room : HasRoom scopes s c.store n
    pub counted : (no_decisions c.decisions ≡ true) ⊎ (0 < n)
    pub windows : (All (λ scope. window_for config scope ≡ none) scopes) ⊎ (0 < c.declared)

  -- A scope that is not charged, after which the rest is.
  Ran-free :
      (scope : RateLimitScope) (scopes : List RateLimitScope) (s : Z.Store) (c : Charges Z)
      → window_for config scope ≡ none
      → Ran scopes s c
      → Ran (scope ∷ scopes) s c
  Ran-free scope scopes s c free r = record {
    n = r.n;
    room = unlimited scope scopes s c.store r.n free r.room;
    counted = r.counted;
    windows = elim r.windows [
      | inl none_yet ↦ inl (free, none_yet)
      | inr some_declared ↦ inr some_declared
    ];
  }

  Ran-unnamed :
      (scope : RateLimitScope) (scopes : List RateLimitScope) (s : Z.Store) (c : Charges Z)
      → resolve_identifier naming scope request config ≡ none
      → Ran scopes s c
      → Ran (scope ∷ scopes) s (record c { declared = suc c.declared })
  Ran-unnamed scope scopes s c nobody r = record {
    n = r.n;
    room = unnamed scope scopes s c.store r.n nobody r.room;
    counted = r.counted;
    windows = inr (omega arith);
  }

  Ran-charged :
      (scope : RateLimitScope) (scopes : List RateLimitScope) (s : Z.Store) (c : Charges Z)
      (window : Window) (identifier : ℕ)
      → window_for config scope ≡ some window
      → resolve_identifier naming scope request config ≡ some identifier
      → throws (naming.key_of scope identifier) ≡ false
      → (consume_sliding_window Z (naming.key_of scope identifier) window now s).0.allowed ≡ true
      → Ran scopes (consume_sliding_window Z (naming.key_of scope identifier) window now s).1 c
      → Ran (scope ∷ scopes) s (record c {
        declared = suc c.declared;
        decisions =
            (consume_sliding_window Z (naming.key_of scope identifier) window now s).0
            ∷ c.decisions;
      })
  Ran-charged scope scopes s c window identifier limited named answered fits r = record {
    n = suc r.n;
    room = charged scope scopes s c.store r.n window identifier limited named answered fits r.room;
    counted = inr (omega arith);
    windows = inr (omega arith);
  }

  -- A loop that ends without an error, with decisions that all admit, ran so.
  charge-Ran :
      (scopes : List RateLimitScope) (s : Z.Store)
      → (charge Z naming throws config request now scopes s).threw ≡ false
      → All (λ d. d.allowed ≡ true) (charge Z naming throws config request now scopes s).decisions
      → Ran scopes s (charge Z naming throws config request now scopes s)
  unfolding charge
  charge-Ran [] s =
      λ quiet fine. record { n = 0; room = no_scope s; counted = inl refl; windows = inl tt }
  charge-Ran (scope ∷ scopes) s = elim (Option-cases (window_for config scope)) [
    | inl free ↦
        rw (free, charge)
          (λ quiet fine. Ran-free scope scopes s _ free (charge-Ran scopes s quiet fine))
    | inr (window, limited) ↦ elim (Option-cases (resolve_identifier naming scope request config)) [
      | inl nobody ↦
          rw (limited, nobody, charge)
            (λ quiet fine. Ran-unnamed scope scopes s _ nobody (charge-Ran scopes s quiet fine))
      | inr (identifier, named) ↦ elim (Bool-cases (throws (naming.key_of scope identifier))) [
        | inl broken ↦ rw (limited, named, broken, charge) (λ quiet fine. absurd (cc))
        | inr answered ↦
            elim (Bool-cases
              (consume_sliding_window Z (naming.key_of scope identifier) window now s).0.allowed) [
                | inr full ↦
                    rw (limited, named, answered, full, charge)
                      (λ quiet fine. absurd (cc (sym full, fine.0)))
                | inl fits ↦
                    rw (limited, named, answered, fits, charge)
                      (λ quiet fine.
                        Ran-charged scope scopes s _ window identifier limited named answered fits
                          (charge-Ran scopes _ quiet fine.1))
              ]
      ]
    ]
  ]

  -- In a class that fails closed, a request that is not exempt and is admitted has been charged in
  -- every scope of the phase that has a window and an identifier for the request: Redis answered each
  -- time, and each window had room, after the charges before it; and where any scope of the phase has
  -- a window, one was charged.
  pub can_activate-HasRoom :
      (phase : RateLimitPhase) (s : Z.Store) (o : Option WindowDecision)
      → config.fail_mode ≡ closed
      → (can_activate Z naming throws false phase config request now s).0 ≡ admitted o
      → (n : ℕ) × HasRoom
          (scopes_in phase)
          s
          (can_activate Z naming throws false phase config request now s).1
          n
        × ((All (λ scope. window_for config scope ≡ none) (scopes_in phase)) ⊎ (0 < n))
  unfolding can_activate conclude apply_fail_mode
  can_activate-HasRoom phase s o strict e =
      let c = charge Z naming throws config request now (scopes_in phase) s in
      elim (Bool-cases c.threw) [
        | inl broken ↦ let never = rw (broken, strict) at e in absurd (cc)
        | inr answered ↦ elim (Bool-cases (ltb 0 c.declared && no_decisions c.decisions)) [
          | inl nothing ↦ let never = rw (answered, nothing, strict) at e in absurd (cc)
          | inr decided ↦
              let ran =
                charge-Ran (scopes_in phase) s answered
                  (answer-All c.decisions o (rw (answered, decided) at e)) in
              (ran.n, ran.room, one_charged ran.n c decided ran.counted ran.windows)
        ]
      ]
    where
      one_charged :
          (n : ℕ) (c : Charges Z)
          → (ltb 0 c.declared && no_decisions c.decisions) ≡ false
          → (no_decisions c.decisions ≡ true) ⊎ (0 < n)
          → (All (λ scope. window_for config scope ≡ none) (scopes_in phase)) ⊎ (0 < c.declared)
          → (All (λ scope. window_for config scope ≡ none) (scopes_in phase)) ⊎ (0 < n)
      one_charged n c h (inr some_charged) w = inr some_charged
      one_charged n c h (inl empty) (inl free) = inl free
      one_charged n c h (inl empty) (inr some_declared) =
          absurd (ground (arith, h, empty, some_declared))
