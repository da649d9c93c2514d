-- ===== src/Identity/Lockout.antt =====
-- apps/api/src/modules/auth/lockout.ts: when a run of failed logins locks an account, and how long.
use sstsaas_pv.Common.{
  ℕ, ◌+◌, ◌-◌, ◌*◌, ◌==◌, ltb, Bool, false, Option, none, some, List, [], ◌∷◌, if◌then◌else◌,
}

-- `LOCKOUT_THRESHOLD`
abbrev pub lockout_threshold : ℕ
lockout_threshold = 5

-- `LOCKOUT_LADDER_SECONDS`
abbrev pub lockout_ladder_seconds : List ℕ
lockout_ladder_seconds = 60 ∷ 300 ∷ 900 ∷ 1800 ∷ []

-- The entry of the rung, which `Math.min` keeps within the list.
abbrev pub rung_seconds : List ℕ → ℕ → ℕ
rung_seconds [] rung = 0
rung_seconds (s ∷ []) rung = s
rung_seconds (s ∷ t ∷ rest) rung = if rung == 0 then s else rung_seconds (t ∷ rest) (rung - 1)

-- `lockedUntilFor`
unfoldable pub locked_until_for : ℕ → ℕ → Option ℕ
locked_until_for consecutive_failures now =
    if ltb consecutive_failures lockout_threshold
    then none
    else some (
        now + rung_seconds lockout_ladder_seconds (consecutive_failures - lockout_threshold) * 1000)

-- `isLocked`
unfoldable pub is_locked : Option ℕ → ℕ → Bool
is_locked none now = false
is_locked (some locked_until) now = ltb now locked_until
