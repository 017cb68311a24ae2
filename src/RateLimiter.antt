-- ===== src/RateLimiter.antt =====
-- RateLimiter (app/repositories/rate_limiter.py), the interface of the services that count
-- attempts, and the state of a request: the database, which a failure rolls back, and the marks,
-- which stay. Which Redis keys exist is the data type of the key templates.
pub mod Rules
pub mod Redis
pub mod Window
pub mod Endless
use udesa_x_posts_api.Common.{ℕ}
use udesa_x_posts_api.Common.Action.{Action, Result, ok, problem, crash}
use udesa_x_posts_api.Database.{Db}

-- `follow:rate:{user_id}`, `post:rate:{user_id}` and `report:rate:{reporter_id}:{target_id}`.
pub data RateKey : Type 0 where
  follow_rate post_rate : ℕ → RateKey
  report_rate : ℕ → ℕ → RateKey

pub record RateLimiter : Type 1 where
  pub State : Type 0
  pub hit : RateKey → ℕ → State → ℕ × State
  pub seconds_left : RateKey → State → ℕ

pub record Session (L : Type 0) : Type 0 where
  pub db : Db
  pub marks : L

module _ {L A : Type 0} where
  unfoldable pub on_db : Action Db A → Action (Session L) A
  on_db m s = ((m s.db).0, record s { db = (m s.db).1 })

  -- `session_scope` around a request: an error restores the database and keeps the marks.
  unfoldable pub end_request : Db → Result A → Session L → Result A × Session L
  end_request before (ok a) s = (ok a, s)
  end_request before (problem e) s = (problem e, record s { db = before })
  end_request before crash s = (crash, record s { db = before })

  unfoldable pub request : Action (Session L) A → Action (Session L) A
  unfolding end_request
  request m s = end_request s.db (m s).0 (m s).1

module _ (R : RateLimiter) where
  unfoldable pub hit : RateKey → ℕ → Action (Session R.State) ℕ
  hit key window s = let (n, marks) = R.hit key window s.marks in (ok n, record s { marks = marks })
