-- ===== src/Limits/Window.antt =====
-- apps/api/src/common/guards/sliding-window.ts: the script that Redis runs as one step, and what
-- `consumeSlidingWindow` makes of its reply. Redis is an interface: the sorted set of a key as the list
-- of its scores, a member for each. An instant is its milliseconds.
pub mod Bound
pub mod Retry
use sstsaas_pv.Common.{
  ℕ, zero, suc, ◌+◌, ◌-◌, ◌*◌, ◌/◌, ◌≡◌, ◌≢◌, refl, ltb, leb, ◌==◌, ==_refl, ==_iff, Bool, true,
  false, not, Option, none, some, List, [], ◌∷◌, filter, length, if◌then◌else◌, arith,
}

-- The lowest of the scores.
abbrev pub lower : ℕ → Option ℕ → ℕ
lower a none = a
lower a (some b) = if ltb b a then b else a

abbrev pub lowest : List ℕ → Option ℕ
lowest [] = none
lowest (a ∷ as') = some (lower a (lowest as'))

pub record SortedSets : Type 1 where
  pub Store : Type 0
  pub scores : ℕ → Store → List ℕ
  -- `ZREMRANGEBYSCORE key 0 max`
  pub rem_range : ℕ → ℕ → Store → Store
  -- `ZADD key score member`, of a member that is new
  pub add : ℕ → ℕ → Store → Store
  -- `ZCARD key`
  pub card : ℕ → Store → ℕ
  -- the score of `ZRANGE key 0 0 WITHSCORES`
  pub first : ℕ → Store → Option ℕ
  -- `PEXPIRE key ttl`
  pub expire : ℕ → ℕ → Store → Store
  pub scores-rem_range :
      (k max : ℕ) (s : Store)
      → scores k (rem_range k max s) ≡ filter (λ a. not (leb a max)) (scores k s)
  pub scores-add : (k a : ℕ) (s : Store) → scores k (add k a s) ≡ a ∷ scores k s
  pub scores-expire : (k ttl : ℕ) (s : Store) → scores k (expire k ttl s) ≡ scores k s
  pub card_lem : (k : ℕ) (s : Store) → card k s ≡ length (scores k s)
  pub first_lem : (k : ℕ) (s : Store) → first k s ≡ lowest (scores k s)

-- `Window`
pub record Window : Type 0 where
  pub limit : ℕ
  pub window_seconds : ℕ

-- `WindowDecision`
pub record WindowDecision : Type 0 where
  pub allowed : Bool
  pub limit : ℕ
  pub remaining : ℕ
  pub reset_seconds : ℕ

-- `ConsumeReply`: the oldest score is `none` where the script answers -1.
pub record ConsumeReply : Type 0 where
  pub allowed : Bool
  pub count : ℕ
  pub oldest : Option ℕ

abbrev pub max : ℕ → ℕ → ℕ
max a b = if ltb a b then b else a

abbrev pub min : ℕ → ℕ → ℕ
min a b = if ltb b a then b else a

-- `Math.ceil(a / 1000)`
abbrev pub ceil_seconds : ℕ → ℕ
ceil_seconds a = (a + 999) / 1000

-- `resetMs`, which `Math.max(resetMs, 0)` holds at zero.
abbrev pub reset_ms : Option ℕ → ℕ → ℕ → ℕ
reset_ms none window_ms now = 0
reset_ms (some oldest) window_ms now = (oldest + window_ms) - now

-- What `consumeSlidingWindow` makes of the reply.
unfoldable pub decision_of : Window → ℕ → ConsumeReply → WindowDecision
decision_of window now reply = record {
  allowed = reply.allowed;
  limit = window.limit;
  remaining = window.limit - reply.count;
  reset_seconds = min window.window_seconds (
      max (if reply.allowed then 0 else 1)
        (ceil_seconds (reset_ms reply.oldest (window.window_seconds * 1000) now)));
}

module _ (Z : SortedSets) where
  -- `ZREMRANGEBYSCORE`, whose range is empty while `now - windowMs` is negative.
  unfoldable pub trim : ℕ → ℕ → ℕ → Z.Store → Z.Store
  trim key now window_ms s = if ltb now window_ms then s else Z.rem_range key (now - window_ms) s

  -- `CONSUME_SCRIPT`
  unfoldable pub consume_script : ℕ → ℕ → ℕ → ℕ → Z.Store → ConsumeReply × Z.Store
  consume_script key now window_ms limit s =
      let trimmed = trim key now window_ms s in
      let count = Z.card key trimmed in
      let allowed = ltb count limit in
      let kept = if allowed then Z.add key now trimmed else trimmed in
      let expiring = Z.expire key window_ms kept in
      (
        record {
          allowed = allowed;
          count = if allowed then count + 1 else count;
          oldest = Z.first key expiring;
        },
        expiring,
      )

  -- `consumeSlidingWindow`
  unfoldable pub consume_sliding_window : ℕ → Window → ℕ → Z.Store → WindowDecision × Z.Store
  consume_sliding_window key window now s =
      let (reply, s') = consume_script key now (window.window_seconds * 1000) window.limit s in
      (decision_of window now reply, s')

-- One key's set, in memory.
abbrev pub one_key : SortedSets
one_key = record {
  Store = List ℕ;
  scores = λ k s. s;
  rem_range = λ k max s. filter (λ a. not (leb a max)) s;
  add = λ k a s. a ∷ s;
  card = λ k s. length s;
  first = λ k s. lowest s;
  expire = λ k ttl s. s;
  scores-rem_range = λ k max s. refl;
  scores-add = λ k a s. refl;
  scores-expire = λ k ttl s. refl;
  card_lem = λ k s. refl;
  first_lem = λ k s. refl;
}
