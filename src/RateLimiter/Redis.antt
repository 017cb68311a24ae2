-- ===== src/RateLimiter/Redis.antt =====
-- RedisRateLimiter (infrastructure/redis/rate_limiter.py). Redis is an argument: its commands at an
-- instant, which may fail, and what they are documented to do to the entry of a key.
use udesa_x_posts_api.Common.{
  ℕ, suc, ◌+◌, ◌<◌, ◌≡◌, Option, none, some, Bool, true, false, if◌then◌else◌, ltb, ◌==◌,
}
use udesa_x_posts_api.Common.Action.{Result, ok, crash}
use udesa_x_posts_api.RateLimiter.{RateKey}

-- The answer of TTL: -2, -1, or the seconds that are left.
pub data Remaining : Type 0 where
  gone never_expires : Remaining
  seconds : ℕ → Remaining

-- INCR gives the new value, or the client raises; EXPIRE sets the expiry, or the client raises: `false`.
pub record RedisClient : Type 1 where
  pub State : Type 0
  pub incr : ℕ → RateKey → State → Option ℕ × State
  pub expire : ℕ → RateKey → ℕ → State → Bool × State
  pub ttl : ℕ → RateKey → State → Remaining

-- A value, and the instant at which it expires, if it does.
abbrev pub Entry : Type 0
Entry = Option (ℕ × Option ℕ)

-- The entry as a command at an instant finds it.
abbrev pub live_at : ℕ → Entry → Entry
live_at t none = none
live_at t (some (n, none)) = some (n, none)
live_at t (some (n, some at)) = if ltb t at then some (n, some at) else none

abbrev pub increased : Entry → ℕ × Option ℕ
increased none = (1, none)
increased (some (n, expiry)) = (suc n, expiry)

-- The documented behaviour of the commands on one key.
pub record IsRedis (R : RedisClient) (k : RateKey) : Type 0 where
  pub entry : R.State → Entry
  pub incr_counts :
      (t n : ℕ) (s : R.State) → (R.incr t k s).0 ≡ some n → n ≡ (increased (live_at t (entry s))).0
  pub incr_keeps :
      (t n : ℕ) (s : R.State)
      → (R.incr t k s).0 ≡ some n
      → entry (R.incr t k s).1 ≡ some (increased (live_at t (entry s)))
  pub expire_sets :
      (t w n : ℕ) (old : Option ℕ) (s : R.State)
      → 0 < w
      → entry s ≡ some (n, old)
      → (R.expire t k w s).0 ≡ true
      → entry (R.expire t k w s).1 ≡ some (n, some (t + w))
  pub expire_fails :
      (t w : ℕ) (s : R.State) → (R.expire t k w s).0 ≡ false → entry (R.expire t k w s).1 ≡ entry s

module _ (R : RedisClient) where
  abbrev pub expired : ℕ → Bool × R.State → Result ℕ × R.State
  expired marks (true, s) = (ok marks, s)
  expired marks (false, s) = (crash, s)

  -- The window opens with the first mark only.
  abbrev pub marked : ℕ → RateKey → ℕ → Option ℕ × R.State → Result ℕ × R.State
  marked t k window (none, s) = (crash, s)
  marked t k window (some marks, s) =
      if marks == 1 then expired marks (R.expire t k window s) else (ok marks, s)

  -- `hit`, at an instant.
  unfoldable pub hit : ℕ → RateKey → ℕ → R.State → Result ℕ × R.State
  hit t k window s = marked t k window (R.incr t k s)

  abbrev pub at_least_zero : Remaining → ℕ
  at_least_zero (Remaining.seconds n) = n
  at_least_zero _ = 0

  -- `seconds_left`
  unfoldable pub seconds_left : ℕ → RateKey → R.State → ℕ
  seconds_left t k s = at_least_zero (R.ttl t k s)
