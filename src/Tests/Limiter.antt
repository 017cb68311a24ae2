-- ===== src/Tests/Limiter.antt =====
-- A Redis with one key, whose EXPIRE works or fails.
use udesa_x_posts_api.Common.{ℕ, ◌+◌, ◌≡◌, refl, none, some, Bool, true, false, [], ◌∷◌, arith}
use udesa_x_posts_api.RateLimiter.{RateKey}
use udesa_x_posts_api.RateLimiter.Redis.{
  RedisClient, Remaining, Entry, IsRedis, live_at, increased, hit,
}
use udesa_x_posts_api.RateLimiter.Window.{window_marks, hits, hits-refines}
use udesa_x_posts_api.RateLimiter.Endless.{count_up, hits-never_close}

abbrev set_expiry : ℕ → Entry → Entry
set_expiry at none = none
set_expiry at (some (n, old)) = some (n, some at)

abbrev set_if : Bool → ℕ → Entry → Bool × Entry
set_if true at e = (true, set_expiry at e)
set_if false at e = (false, e)

abbrev redis : Bool → RedisClient
redis works = record {
  State = Entry;
  incr = λ t k e. (some (increased (live_at t e)).0, some (increased (live_at t e)));
  expire = λ t k w e. set_if works (t + w) e;
  ttl = λ t k e. Remaining.gone;
}

abbrev key : RateKey
key = RateKey.post_rate 1

some_inj : (m n : ℕ) → some m ≡ some n → n ≡ m
some_inj m n h = cc

abbrev working : IsRedis (redis true) key
working = record {
  entry = λ e. e;
  incr_counts = λ t n s h. some_inj _ n h;
  incr_keeps = λ t n s h. refl;
  expire_sets = λ t w n old s positive there done. rw there refl;
  expire_fails = λ t w s fails. cc;
}

abbrev failing : IsRedis (redis false) key
failing = record {
  entry = λ e. e;
  incr_counts = λ t n s h. some_inj _ n h;
  incr_keeps = λ t n s h. refl;
  expire_sets = λ t w n old s positive there done. cc;
  expire_fails = λ t w s fails. refl;
}

hits_of_three : hits (redis true) key 60 (10 ∷ 30 ∷ 70 ∷ []) none ≡ some (1 ∷ 2 ∷ 1 ∷ [])
unfolding hits hit
hits_of_three = refl

hits_after :
    hits (redis false) key 60 (100000 ∷ 200000 ∷ []) (hit (redis false) 10 key 60 none).1
    ≡ some (2 ∷ 3 ∷ [])
unfolding hits hit
hits_after = refl

-- Two attempts in a window of sixty seconds, and one after it closed.
hits-refines_example : 1 ∷ 2 ∷ 1 ∷ [] ≡ window_marks 60 none (10 ∷ 30 ∷ 70 ∷ [])
hits-refines_example =
    hits-refines (redis true) key working 60 (omega arith) (10 ∷ 30 ∷ 70 ∷ []) none none
      (1 ∷ 2 ∷ 1 ∷ []) refl hits_of_three

-- The first attempt fails halfway, and those of the next days go on counting.
hits-never_close_example : 2 ∷ 3 ∷ [] ≡ count_up 1 (100000 ∷ 200000 ∷ [])
hits-never_close_example =
    hits-never_close (redis false) key failing 60 (omega arith) 10 1 none (100000 ∷ 200000 ∷ [])
      (2 ∷ 3 ∷ []) refl refl refl hits_after
