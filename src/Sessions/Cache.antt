-- ===== src/Sessions/Cache.antt =====
-- apps/api/src/modules/auth/session.cache.ts over Redis, which is an interface: a command is
-- answered, or it throws and changes nothing. The strings under a session key are told apart by what
-- `decodeCached` makes of them; the key of a token hash is the hash (`sessionCacheKey` prefixes it).
use sstsaas_pv.Common.{
  ℕ, ◌≡◌, ◌≢◌, Bool, true, false, Option, none, some, if◌then◌else◌, ◌==◌, ==_refl, ==_iff, refl,
  arith,
}
use sstsaas_pv.Sessions.Rows.{ResolvedSession}

pub data CacheValue : Type 0 where
  -- `SESSION_TOMBSTONE`
  tombstone : CacheValue
  -- the JSON of `encodeCached`
  encoded : ResolvedSession → CacheValue
  -- any string that `decodeCached` refuses
  unreadable : CacheValue

-- `decodeCached`
abbrev pub decode_cached : CacheValue → Option ResolvedSession
decode_cached tombstone = none
decode_cached (encoded s) = some s
decode_cached unreadable = none

-- `value === SESSION_TOMBSTONE`
abbrev pub is_tombstone : Option CacheValue → Bool
is_tombstone (some tombstone) = true
is_tombstone _ = false

pub record Redis : Type 1 where
  pub Store : Type 0
  -- whether the server answers
  pub answers : Store → Bool
  -- `GET`
  pub get : ℕ → Store → Option CacheValue
  -- `SET key value EX ttl`
  pub set_ex : ℕ → CacheValue → ℕ → Store → Store
  pub get-set_ex_self : (k ttl : ℕ) (v : CacheValue) (s : Store) → get k (set_ex k v ttl s) ≡ some v
  pub get-set_ex_ne :
      (j k ttl : ℕ) (v : CacheValue) (s : Store) → j ≢ k → get j (set_ex k v ttl s) ≡ get j s
  pub answers-set_ex :
      (k ttl : ℕ) (v : CacheValue) (s : Store) → answers (set_ex k v ttl s) ≡ answers s

module _ (R : Redis) where
  -- `read`: a failed command reads as a miss.
  unfoldable pub read : ℕ → R.Store → Option CacheValue
  read k s = if R.answers s then R.get k s else none

  -- `writeLive`: the script WRITE_LIVE_UNLESS_TOMBSTONED.
  unfoldable pub write_live : ℕ → ResolvedSession → ℕ → R.Store → Bool × R.Store
  write_live k session ttl s =
      if R.answers s
      then (if is_tombstone (R.get k s)
          then (false, s)
          else (true, R.set_ex k (encoded session) ttl s))
      else (false, s)

  -- `writeTombstone`
  unfoldable pub write_tombstone : ℕ → ℕ → R.Store → Bool × R.Store
  write_tombstone k ttl s = if R.answers s then (true, R.set_ex k tombstone ttl s) else (false, s)

pub other_key :
    (j k : ℕ) (v : CacheValue) (f : ℕ → Option CacheValue)
    → j ≢ k
    → (if j == k then some v else f j) ≡ f j
other_key j k v f apart = ground (arith, ==_iff j k, apart)

-- A server in memory that answers or does not; entries do not expire by themselves.
abbrev pub memory_redis : Redis
memory_redis = record {
  Store = Bool × (ℕ → Option CacheValue);
  answers = λ s. s.0;
  get = λ k s. s.1 k;
  set_ex = λ k v ttl s. (s.0, λ j. if j == k then some v else s.1 j);
  get-set_ex_self = λ k ttl v s. rw (==_refl k) refl;
  get-set_ex_ne = λ j k ttl v s apart. other_key j k v s.1 apart;
  answers-set_ex = λ k ttl v s. refl;
}
