-- ===== src/Identity/Login/Pace.antt =====
-- How many guesses the lock lets through: the run of failures that an account counts.
use sstsaas_pv.Common.{
  ℕ, suc, ◌+◌, ◌*◌, ◌-◌, ◌≤◌, ◌<◌, ◌==◌, ◌≡◌, refl, inl, inr, ◌⊎◌, true, none, some, List, [], ◌∷◌,
  Bool-cases, ltb, leb, leb→le, if◌then◌else◌, arith, subst, sym, ap,
}
use sstsaas_pv.Tenancy.Rows.{RequestContext}
use sstsaas_pv.Identity.Lockout.{locked_until_for, rung_seconds, lockout_ladder_seconds}
use sstsaas_pv.Identity.Rows.{UserRow}
use sstsaas_pv.Identity.Store.{IdentityDatabase, Accounts, user_by_id}
use sstsaas_pv.Identity.Login.{lapsed, record_failure}
use sstsaas_pv.Identity.Login.Failures.{IsRow, fail_at, counted_row, record_failure-IsRow}

-- Attempts at instants that do not go back, and the last of them.
abbrev pub Rising : ℕ → List ℕ → Type 0
Rising last [] = Unit
Rising last (t ∷ ts) = (last ≤ t) × Rising t ts

abbrev pub last_of : ℕ → List ℕ → ℕ
last_of last [] = last
last_of last (t ∷ ts) = last_of t ts

-- A lock lasts a minute at least, and half an hour at most.
rung_seconds-bounds :
    (rung : ℕ)
    → (60 ≤ rung_seconds lockout_ladder_seconds rung)
      × (rung_seconds lockout_ladder_seconds rung ≤ 1800)
rung_seconds-bounds rung = elim (Bool-cases (rung == 0)) [
  | inl a ↦ rw a (omega arith, omega arith)
  | inr a ↦ elim (Bool-cases (rung - 1 == 0)) [
    | inl b ↦ rw (a, b) (omega arith, omega arith)
    | inr b ↦ elim (Bool-cases (rung - 1 - 1 == 0)) [
      | inl c ↦ rw (a, b, c) (omega arith, omega arith)
      | inr c ↦ rw (a, b, c) (omega arith, omega arith)
    ]
  ]
]

-- Below five failures there is no lock; from five on there is one, of a minute to half an hour.
pub locked_until_for-bounds :
    (failures now : ℕ)
    → ((failures < 5) × (locked_until_for failures now ≡ none))
      ⊎ ((5 ≤ failures)
          × ((l : ℕ) × (locked_until_for failures now ≡ some l)
              × (now + 60000 ≤ l)
              × (l ≤ now + 1800000)))
unfolding locked_until_for
locked_until_for-bounds failures now = elim (Bool-cases (ltb failures 5)) [
  | inl below ↦ inl (ground (arith, below), rw below refl)
  | inr above ↦
      let (low, high) = rung_seconds-bounds (failures - 5) in
      inr (
        ground (arith, above),
        (
          now + rung_seconds lockout_ladder_seconds (failures - 5) * 1000,
          rw above refl,
          omega (arith, low),
          omega (arith, high),
        ),
      )
]

-- The failures of the row since `start`, its lock counted in.
pub data IsPaced (start now : ℕ) (u : UserRow) : Type 0 where
  few : u.failed_login_count ≤ 4 → IsPaced start now u
  many :
      (l : ℕ)
      → u.locked_until ≡ some l
      → u.failed_login_count * 60000 + start ≤ 240000 + l
      → u.failed_login_count * 60000 + start ≤ 300000 + now
      → IsPaced start now u

IsPaced-later :
    (start last now : ℕ) (u : UserRow) → last ≤ now → IsPaced start last u → IsPaced start now u
IsPaced-later start last now u h (few below) = few below
IsPaced-later start last now u h (many l e a b) = many l e a (omega (arith, b, h))

-- What is known of the count when the lock has lapsed.
lapsed-count :
    (start last now : ℕ) (u : UserRow)
    → start ≤ last
    → last ≤ now
    → lapsed u.locked_until now ≡ true
    → IsPaced start last u
    → u.failed_login_count * 60000 + start ≤ 240000 + now
lapsed-count start last now u h k free (few below) = omega (arith, h, k, below)
lapsed-count start last now u h k free (many l e a b) =
    let free' : leb l now ≡ true = rw e at free in omega (arith, leb→le l now free', a)

IsPaced-counted :
    (start last now : ℕ) (u : UserRow)
    → u.failed_login_count * 60000 + start ≤ 240000 + now
    → IsPaced start now (counted_row now u)
IsPaced-counted start last now u h = elim (locked_until_for-bounds (suc u.failed_login_count) now) [
  | inl (below, none_yet) ↦ rw none_yet (few (omega (arith, below)))
  | inr (reached, (l, e, low, high)) ↦ rw e (many l refl (omega (arith, h, low)) (omega (arith, h)))
]

IsPaced-fail_at :
    (start last now : ℕ) (u : UserRow)
    → start ≤ last
    → last ≤ now
    → IsPaced start last u
    → IsPaced start now (fail_at now u)
IsPaced-fail_at start last now u h k p = elim (Bool-cases (lapsed u.locked_until now)) [
  | inr held ↦
      subst (IsPaced start now) (sym (ap (λ b. if b then counted_row now u else u) held))
        (IsPaced-later start last now u k p)
  | inl free ↦
      subst (IsPaced start now) (sym (ap (λ b. if b then counted_row now u else u) free))
        (IsPaced-counted start last now u (lapsed-count start last now u h k free p))
]

module _ (D : IdentityDatabase) (id : ℕ) (v : UserRow) (request : RequestContext) where
  -- The failures of requests that read the account as `v`, one after the other.
  abbrev pub fail_all : List ℕ → Accounts D → Accounts D
  fail_all [] s = s
  fail_all (t ∷ ts) s = fail_all ts (record_failure D (some v) t request s)

  paced :
      (start last : ℕ) (ts : List ℕ) (u : UserRow) (s : Accounts D)
      → v.id ≡ id
      → start ≤ last
      → Rising last ts
      → IsRow D id u s
      → IsPaced start last u
      → (u' : UserRow) × IsRow D id u' (fail_all ts s) × IsPaced start (last_of last ts) u'
  paced start last [] u s same h rising row p = (u, row, p)
  paced start last (t ∷ ts) u s same h rising row p =
      paced start t ts (fail_at t u) _ same (omega (arith, h, rising.0)) rising.1
        (record_failure-IsRow D id t v u request s same row)
        (IsPaced-fail_at start last t u h rising.0 p)

  at_most :
      (start now : ℕ) (u : UserRow)
      → start ≤ now
      → IsPaced start now u
      → u.failed_login_count * 60000 + start ≤ 300000 + now
  at_most start now u h (few below) = omega (arith, h, below)
  at_most start now u h (many l e a b) = b

  last_of-le :
      (start last : ℕ) (ts : List ℕ) → start ≤ last → Rising last ts → start ≤ last_of last ts
  last_of-le start last [] h rising = h
  last_of-le start last (t ∷ ts) h rising =
      last_of-le start t ts (omega (arith, h, rising.0)) rising.1

  -- Where identifiers are unique and the account has four failures at most: however many failed
  -- attempts are recorded, at instants that do not go back, the failures counted are at most five
  -- and one more for every minute since `start`.
  pub fail_all-le :
      (start : ℕ) (ts : List ℕ) (u : UserRow) (s : Accounts D)
      → v.id ≡ id
      → Rising start ts
      → IsRow D id u s
      → u.failed_login_count ≤ 4
      → (u' : UserRow) × (user_by_id D id (fail_all ts s) ≡ some u')
        × (u'.failed_login_count * 60000 + start ≤ 300000 + last_of start ts)
  fail_all-le start ts u s same rising row below =
      let (u', row', p) = paced start start ts u s same (omega arith) rising row (few below) in
      (
        u',
        row'.0,
        at_most start (last_of start ts) u' (last_of-le start start ts (omega arith) rising) p,
      )
