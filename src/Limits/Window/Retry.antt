-- ===== src/Limits/Window/Retry.antt =====
-- The `Retry-After` of a refused request.
use sstsaas_pv.Common.{
  ℕ, ◌+◌, ◌-◌, ◌*◌, ◌≡◌, ◌≤◌, ◌<◌, ◌⊎◌, subst, refl, sym, ◌∙◌, inl, inr, ltb, Bool, true, false,
  Option, none, some, List, [], ◌∷◌, filter, length, count_if, All, Bool-cases, arith,
}
use sstsaas_pv.Limits.Window.{
  SortedSets, Window, decision_of, lower, lowest, max, min, ceil_seconds, trim, consume_script,
  consume_sliding_window,
}
use sstsaas_pv.Limits.Window.Bound.{recent, consume-allowed, consume-scores, card-trim}

lowest-cons :
    (x : ℕ) (xs : List ℕ) (o : ℕ) → lowest (x ∷ xs) ≡ some o → (o ≡ x) ⊎ (lowest xs ≡ some o)
lowest-cons x xs o e = go (lowest xs) e
  where
    go : (l : Option ℕ) → some (lower x l) ≡ some o → (o ≡ x) ⊎ (l ≡ some o)
    go none h = inl (cc)
    go (some l) h = elim (Bool-cases (ltb l x)) [
      | inl less ↦ inr (cc (rw less at h))
      | inr more ↦ inl (cc (rw more at h))
    ]

count_if-le : (p : ℕ → Bool) (xs : List ℕ) → count_if p xs ≤ length xs
count_if-le p [] = omega arith
count_if-le p (x ∷ xs) = ground (arith, count_if-le p xs)

-- A test that fails at the lowest score does not hold throughout.
count_if-lt :
    (p : ℕ → Bool) (xs : List ℕ) (o : ℕ)
    → lowest xs ≡ some o
    → p o ≡ false
    → count_if p xs < length xs
count_if-lt p [] o e h = cc
count_if-lt p (x ∷ xs) o e h = elim (lowest-cons x xs o e) [
  | inl this ↦ rw (subst (λ a. p a ≡ false) this h) (omega (arith, count_if-le p xs))
  | inr later ↦ ground (arith, count_if-lt p xs o later h)
]

lowest-le : (xs : List ℕ) (o n : ℕ) → All (λ a. a ≤ n) xs → lowest xs ≡ some o → o ≤ n
lowest-le [] o n all e = cc
lowest-le (x ∷ xs) o n all e = elim (lowest-cons x xs o e) [
  | inl this ↦ rw this all.0
  | inr later ↦ lowest-le xs o n all.1 later
]

All-filter : (P : ℕ → Type 0) (p : ℕ → Bool) (xs : List ℕ) → All P xs → All P (filter p xs)
All-filter P p [] h = tt
All-filter P p (x ∷ xs) h = elim (Bool-cases (p x)) [
  | inl hit ↦ rw hit (h.0, All-filter P p xs h.1)
  | inr miss ↦ rw miss (All-filter P p xs h.1)
]

-- The seconds answered, in milliseconds, reach the instant at which the oldest score leaves.
reset_enough :
    (o now ws later : ℕ)
    → o ≤ now
    → now + min ws (max 1 (ceil_seconds ((o + ws * 1000) - now))) * 1000 ≤ later
    → o + ws * 1000 ≤ later
reset_enough o now ws later past waited = ground arith

module _ (Z : SortedSets) (key : ℕ) (window : Window) where
  abbrev w : ℕ
  w = window.window_seconds * 1000

  All-trim :
      (P : ℕ → Type 0) (now : ℕ) (s : Z.Store)
      → All P (Z.scores key s)
      → All P (Z.scores key (trim Z key now w s))
  unfolding trim
  All-trim P now s h = elim (Bool-cases (ltb now w)) [
    | inl early ↦ rw early h
    | inr due ↦ rw (due, Z.scores-rem_range key (now - w) s) (All-filter P _ (Z.scores key s) h)
  ]

  refused_seconds :
      (now : ℕ) (s : Z.Store) (o : ℕ)
      → (consume_sliding_window Z key window now s).0.allowed ≡ false
      → lowest (Z.scores key (trim Z key now w s)) ≡ some o
      → (consume_sliding_window Z key window now s).0.reset_seconds
        ≡ min window.window_seconds (max 1 (ceil_seconds ((o + w) - now)))
  unfolding consume_sliding_window consume_script decision_of
  refused_seconds now s o h oldest =
      rw
        (
          h,
          Z.first_lem key (Z.expire key w (trim Z key now w s)),
          Z.scores-expire key w (trim Z key now w s),
          oldest,
        )
        refl

  lowest-some : (xs : List ℕ) → 0 < length xs → (o : ℕ) × (lowest xs ≡ some o)
  lowest-some [] h = absurd (omega arith)
  lowest-some (x ∷ xs) h = (lower x (lowest xs), refl)

  -- Where nothing is stored with a later instant and the window that ends now holds no more than its
  -- limit, which is positive: a refused caller that waits the seconds answered is admitted, if no
  -- other call with the key comes between.
  pub consume-retry :
      (now later : ℕ) (s : Z.Store)
      → All (λ a. a ≤ now) (Z.scores key s)
      → count_if (recent w now) (Z.scores key s) ≤ window.limit
      → 0 < window.limit
      → (consume_sliding_window Z key window now s).0.allowed ≡ false
      → now + (consume_sliding_window Z key window now s).0.reset_seconds * 1000 ≤ later
      → (consume_sliding_window Z key window later
          (consume_sliding_window Z key window now s).1).0.allowed
        ≡ true
  consume-retry now later s past full positive refused waited =
      let trimmed = Z.scores key (trim Z key now w s) in
      let busy : ltb (count_if (recent w now) (Z.scores key s)) window.limit ≡ false =
        sym (consume-allowed Z key window now s) ∙ refused in
      let size : length trimmed ≡ count_if (recent w now) (Z.scores key s) =
        sym (Z.card_lem key (trim Z key now w s)) ∙ card-trim Z key window now s in
      let (o, oldest) = lowest-some trimmed (ground (arith, size, busy, positive)) in
      let gone : o + w ≤ later =
        reset_enough o now window.window_seconds later
          (lowest-le trimmed o now (All-trim (λ a. a ≤ now) now s past) oldest)
          (rw (refused_seconds now s o refused oldest) at waited) in
      let fewer : count_if (recent w later) trimmed < length trimmed =
        count_if-lt (recent w later) trimmed o oldest (ground (arith, gone)) in
      consume-allowed Z key window later (consume_sliding_window Z key window now s).1
      ∙ rw (consume-scores Z key window now s false refused) (ground (arith, fewer, size, full))
