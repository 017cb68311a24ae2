-- ===== src/RateLimiter/Endless.antt =====
-- infrastructure/redis/rate_limiter.py (RedisRateLimiter.hit): a window whose expiry is lost.
use udesa_x_posts_api.Common.{
  ℕ, suc, ◌≤◌, ◌<◌, ◌≡◌, refl, ◌∙◌, ap, Option, none, some, Bool, true, false, List, [], ◌∷◌, arith,
  ◌==◌,
}
use udesa_x_posts_api.Common.Action.{ok}
use udesa_x_posts_api.RateLimiter.{RateKey}
use udesa_x_posts_api.RateLimiter.Redis.{RedisClient, IsRedis, live_at, expired, marked, hit}
use udesa_x_posts_api.RateLimiter.Window.{hits, and_later-some, second_mark, never, ok_injective}

-- The numbers after a first one, one for each attempt.
abbrev pub count_up : ℕ → List ℕ → List ℕ
count_up n [] = []
count_up n (t ∷ ts) = suc n ∷ count_up (suc n) ts

module _ (R : RedisClient) (k : RateKey) (redis : IsRedis R k) (window : ℕ)
    (positive : 0 < window) where
  -- An entry that never expires only grows.
  endless_mark :
      (t n : ℕ) (s : R.State) (answer : Option ℕ × R.State)
      → redis.entry s ≡ some (n, none)
      → 1 ≤ n
      → R.incr t k s ≡ answer
      → (m : ℕ) → (marked R t k window answer).0 ≡ ok m
      → (m ≡ suc n) × (redis.entry (marked R t k window answer).1 ≡ some (suc n, none))
  endless_mark t n s (none, s1) there some_marks e m h = never h
  endless_mark t n s (some v, s1) there some_marks e m h =
      let value : v ≡ suc n = redis.incr_counts t v s (ap (λ a. a.0) e) ∙ rw there refl in
      let kept : redis.entry s1 ≡ some (suc n, none) =
        rw (ap (λ a. a.1) e) at (redis.incr_keeps t v s (ap (λ a. a.0) e)) ∙ rw there refl in
      let more : (v == 1) ≡ false = second_mark v n value some_marks in
      (ok_injective (rw more at h) ∙ value, rw more kept)

  endless_hits :
      (ts : List ℕ) (s : R.State) (n : ℕ) (counted : List ℕ)
      → redis.entry s ≡ some (n, none)
      → 1 ≤ n
      → hits R k window ts s ≡ some counted
      → counted ≡ count_up n ts
  unfolding hits hit
  endless_hits [] s n counted there some_marks h = cc
  endless_hits (t ∷ ts) s n counted there some_marks h =
      let (m, (rest, (first, (later, same)))) =
        and_later-some (hit R t k window s).0 (hits R k window ts (hit R t k window s).1) counted
          h in
      let (number, next) = endless_mark t n s (R.incr t k s) there some_marks refl m first in
      same
      ∙ rw number
          (rw (endless_hits ts (hit R t k window s).1 (suc n) rest next (omega arith) later) refl)

  unset :
      (answer : Bool × R.State)
      → answer.0 ≡ false
      → redis.entry answer.1 ≡ some (1, none)
      → redis.entry (expired R 1 answer).1 ≡ some (1, none)
  unset (true, s) h kept = cc
  unset (false, s) h kept = kept

  lost_expiry :
      (t : ℕ) (s : R.State) (answer : Option ℕ × R.State)
      → live_at t (redis.entry s) ≡ none
      → R.incr t k s ≡ answer
      → (m : ℕ) → answer.0 ≡ some m
      → (R.expire t k window answer.1).0 ≡ false
      → redis.entry (marked R t k window answer).1 ≡ some (1, none)
  lost_expiry t s (none, s1) empty e m h fails = cc
  lost_expiry t s (some v, s1) empty e m h fails =
      let value : v ≡ 1 = redis.incr_counts t v s (ap (λ a. a.0) e) ∙ rw empty refl in
      let kept : redis.entry s1 ≡ some (1, none) =
        rw (ap (λ a. a.1) e) at (redis.incr_keeps t v s (ap (λ a. a.0) e)) ∙ rw empty refl in
      rw value (unset (R.expire t k window s1) fails (redis.expire_fails t window s1 fails ∙ kept))

  -- Where the first mark of a window is counted and its expiry then fails, the window never closes:
  -- at whatever instants later attempts come, those that return are counted from that mark on.
  pub hits-never_close :
      (t m : ℕ) (s : R.State) (ts counted : List ℕ)
      → live_at t (redis.entry s) ≡ none
      → (R.incr t k s).0 ≡ some m
      → (R.expire t k window (R.incr t k s).1).0 ≡ false
      → hits R k window ts (hit R t k window s).1 ≡ some counted
      → counted ≡ count_up 1 ts
  unfolding hit
  hits-never_close t m s ts counted empty counts fails h =
      endless_hits ts (hit R t k window s).1 1 counted
        (lost_expiry t s (R.incr t k s) empty refl m counts fails) (omega arith) h
