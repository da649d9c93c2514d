-- ===== src/Limits/Window/Bound.antt =====
-- How many requests a window admits, over any sequence of calls with a clock that does not go back.
use sstsaas_pv.Common.{
  ℕ, ◌+◌, ◌-◌, ◌*◌, ◌≡◌, ◌≤◌, ◌<◌, refl, sym, ◌∙◌, inl, inr, ltb, leb, Bool, true, false, not, ◌&&◌,
  List, [], ◌∷◌, filter, length, count_if, if◌then◌else◌, Bool-cases, ltb→lt, arith,
}
use sstsaas_pv.Limits.Window.{
  SortedSets, Window, decision_of, trim, consume_script, consume_sliding_window,
}

-- An admission at `a` is inside the window that ends at `t`.
abbrev pub recent : ℕ → ℕ → ℕ → Bool
recent w t a = ltb t (a + w)

abbrev pub within : ℕ → ℕ → ℕ → Bool
within w t a = leb a t && ltb t (a + w)

-- The instants of the calls do not go back, from `from` on.
abbrev pub IsForward : ℕ → List ℕ → Type 0
IsForward from [] = Unit
IsForward from (t ∷ ts) = (from ≤ t) × IsForward t ts

count_if-filter :
    (p q : ℕ → Bool)
    → ((x : ℕ) → p x ≡ true → q x ≡ true)
    → (xs : List ℕ) → count_if p (filter q xs) ≡ count_if p xs
count_if-filter p q sub [] = refl
count_if-filter p q sub (x ∷ xs) = ground (arith, sub x, count_if-filter p q sub xs)

count_if-implies :
    (p q : ℕ → Bool)
    → ((x : ℕ) → p x ≡ true → q x ≡ true)
    → (xs : List ℕ) → count_if p xs ≤ count_if q xs
count_if-implies p q sub [] = omega arith
count_if-implies p q sub (x ∷ xs) = ground (arith, sub x, count_if-implies p q sub xs)

length-filter : (p : ℕ → Bool) (xs : List ℕ) → length (filter p xs) ≡ count_if p xs
length-filter p [] = refl
length-filter p (x ∷ xs) = ground (arith, length-filter p xs)

count_if-congr :
    (p q : ℕ → Bool) → ((x : ℕ) → p x ≡ q x) → (xs : List ℕ) → count_if p xs ≡ count_if q xs
count_if-congr p q same [] = refl
count_if-congr p q same (x ∷ xs) = rw (same x, count_if-congr p q same xs) refl

length-count_if :
    (p : ℕ → Bool) → ((x : ℕ) → p x ≡ true) → (xs : List ℕ) → length xs ≡ count_if p xs
length-count_if p h [] = refl
length-count_if p h (x ∷ xs) = rw (h x, length-count_if p h xs) refl

module _ (Z : SortedSets) (key : ℕ) (window : Window) where
  abbrev w : ℕ
  w = window.window_seconds * 1000

  -- The instants at which a sequence of calls is admitted, the latest first.
  pub admitted : List ℕ → List ℕ → Z.Store → List ℕ
  admitted [] before s = before
  admitted (t ∷ ts) before s =
      let (decision, s') = consume_sliding_window Z key window t s in
      admitted ts (if decision.allowed then t ∷ before else before) s'

  -- From `last` on, the set holds of the recent admissions exactly those made.
  Faithful : ℕ → List ℕ → Z.Store → Type 0
  Faithful last made s =
      (t : ℕ) → last ≤ t → count_if (recent w t) (Z.scores key s) ≡ count_if (recent w t) made

  pub scores-trim :
      (now : ℕ) (s : Z.Store)
      → (t : ℕ) → now ≤ t
      → count_if (recent w t) (Z.scores key (trim Z key now w s))
        ≡ count_if (recent w t) (Z.scores key s)
  unfolding trim
  scores-trim now s t later = elim (Bool-cases (ltb now w)) [
    | inl early ↦ rw early refl
    | inr due ↦
        rw (due, Z.scores-rem_range key (now - w) s)
          (count_if-filter (recent w t) (λ a. not (leb a (now - w))) (λ a h. ground arith)
            (Z.scores key s))
  ]

  pub card-trim :
      (now : ℕ) (s : Z.Store)
      → Z.card key (trim Z key now w s) ≡ count_if (recent w now) (Z.scores key s)
  unfolding trim
  card-trim now s = elim (Bool-cases (ltb now w)) [
    | inl early ↦
        rw (early, Z.card_lem key s)
          (length-count_if (recent w now) (λ a. ground (arith, early)) (Z.scores key s))
    | inr due ↦
        rw
          (
            due,
            Z.card_lem key (Z.rem_range key (now - w) s),
            Z.scores-rem_range key (now - w) s,
            length-filter (λ a. not (leb a (now - w))) (Z.scores key s),
          )
          (count_if-congr (λ a. not (leb a (now - w))) (recent w now) (λ a. ground (arith, due))
            (Z.scores key s))
  ]

  -- The reply admits while fewer than the limit were admitted in the window that ends now.
  pub consume-allowed :
      (now : ℕ) (s : Z.Store)
      → (consume_sliding_window Z key window now s).0.allowed
        ≡ ltb (count_if (recent w now) (Z.scores key s)) window.limit
  unfolding consume_sliding_window consume_script decision_of
  consume-allowed now s = rw (card-trim now s) refl

  pub consume-scores :
      (now : ℕ) (s : Z.Store) (b : Bool)
      → (consume_sliding_window Z key window now s).0.allowed ≡ b
      → Z.scores key (consume_sliding_window Z key window now s).1
        ≡ (if b then now ∷ Z.scores key (trim Z key now w s) else Z.scores key (trim Z key now w s))
  unfolding consume_sliding_window consume_script decision_of
  consume-scores now s true h = rw (Z.scores-expire, h, Z.scores-add) refl
  consume-scores now s false h = rw (Z.scores-expire, h) refl

  abbrev made_by : Bool → ℕ → List ℕ → List ℕ
  made_by b now made = if b then now ∷ made else made

  Faithful-consume :
      (last now : ℕ) (made : List ℕ) (s : Z.Store) (b : Bool)
      → last ≤ now
      → (consume_sliding_window Z key window now s).0.allowed ≡ b
      → Faithful last made s
      → Faithful now (made_by b now made) (consume_sliding_window Z key window now s).1
  unfolding Faithful
  Faithful-consume last now made s true forward h f t later =
      rw (consume-scores now s true h) (ground (arith, scores-trim now s t later, f t))
  Faithful-consume last now made s false forward h f t later =
      rw (consume-scores now s false h)
        (scores-trim now s t later ∙ f t (omega (arith, forward, later)))

  abbrev IsBounded : List ℕ → Type 0
  IsBounded made = (t : ℕ) → count_if (within w t) made ≤ window.limit

  IsBounded-admit :
      (now : ℕ) (made : List ℕ)
      → count_if (recent w now) made < window.limit
      → IsBounded made
      → IsBounded (now ∷ made)
  IsBounded-admit now made room bounded t = elim (Bool-cases (ltb t now)) [
    | inl before ↦ ground (arith, bounded t)
    | inr after ↦
        let fewer =
          count_if-implies (within w t) (recent w now) (λ a h. ground (arith, after, h)) made in
        ground (arith, fewer, room)
  ]

  IsBounded-consume :
      (last now : ℕ) (made : List ℕ) (s : Z.Store) (b : Bool)
      → last ≤ now
      → (consume_sliding_window Z key window now s).0.allowed ≡ b
      → Faithful last made s
      → IsBounded made
      → IsBounded (made_by b now made)
  unfolding Faithful
  IsBounded-consume last now made s false forward h f bounded = bounded
  IsBounded-consume last now made s true forward h f bounded =
      IsBounded-admit now made (room (f now forward) (sym (consume-allowed now s) ∙ h)) bounded
    where
      room :
          count_if (recent w now) (Z.scores key s) ≡ count_if (recent w now) made
          → ltb (count_if (recent w now) (Z.scores key s)) window.limit ≡ true
          → count_if (recent w now) made < window.limit
      room same below = rw (← same) (ltb→lt _ _ below)

  admitted-IsBounded :
      (ts : List ℕ) (last : ℕ) (made : List ℕ) (s : Z.Store)
      → IsForward last ts
      → Faithful last made s
      → IsBounded made
      → IsBounded (admitted ts made s)
  unfolding admitted
  admitted-IsBounded [] last made s forward f bounded = bounded
  admitted-IsBounded (now ∷ ts) last made s forward f bounded =
      admitted-IsBounded ts now _ _ forward.1 (Faithful-consume last now made s _ forward.0 refl f)
        (IsBounded-consume last now made s _ forward.0 refl f bounded)

  -- Where the key's set is empty at first and the clock does not go back, any sequence of calls is
  -- admitted at most `limit` times in every window of that length, wherever the window ends.
  pub admitted-le :
      (ts : List ℕ) (s : Z.Store)
      → Z.scores key s ≡ []
      → IsForward 0 ts
      → (t : ℕ) → count_if (within w t) (admitted ts [] s) ≤ window.limit
  unfolding Faithful
  admitted-le ts s empty forward t =
      admitted-IsBounded ts 0 [] s forward (λ u later. rw empty refl) (λ u. omega arith) t
