-- ===== src/RateLimiter/Rules.antt =====
-- What a request leaves in the database: its commit, or what was there before.
use udesa_x_posts_api.Common.{ℕ}
use udesa_x_posts_api.Common.Action.{Action, Result, ok, problem, crash}
use udesa_x_posts_api.Common.Action.Rules.{Post, Holds}
use udesa_x_posts_api.Database.{Db}
use udesa_x_posts_api.RateLimiter.{RateLimiter, RateKey, Session, on_db, request, end_request, hit}

module _ {L A : Type 0} (P : Db → Type 0) where
  lifted :
      (r : Result A) (e : Db) (s : Session L)
      → Holds (λ _ x. P x) r e
      → Holds (λ _ t. P t.db) r (record s { db = e })
  lifted (ok a) e s h = h
  lifted (problem p) e s h = tt
  lifted crash e s h = tt

  -- A call on the database, seen from the session.
  pub post_on_db :
      (m : Action Db A) (s : Session L)
      → Post (λ _ e. P e) (m s.db)
      → Post (λ _ t. P t.db) (on_db m s)
  unfolding on_db
  post_on_db m s h = record { holds = lifted (m s.db).0 (m s.db).1 s h.holds }

  ended :
      (before : Db) (r : Result A) (s : Session L)
      → P before
      → Holds (λ _ t. P t.db) r s
      → P (end_request before r s).1.db
  unfolding end_request
  ended before (ok a) s old new = new
  ended before (problem p) s old new = old
  ended before crash s old new = old

  pub request-keeps :
      (m : Action (Session L) A) (s : Session L)
      → P s.db
      → Post (λ _ t. P t.db) (m s)
      → P (request m s).1.db
  unfolding request
  request-keeps m s old new = ended s.db (m s).0 (m s).1 old new.holds

-- Counting an attempt does not touch the database.
pub post_hit :
    (R : RateLimiter) (P : Db → Type 0) (key : RateKey) (window : ℕ) (s : Session R.State)
    → P s.db
    → Post (λ _ t. P t.db) (hit R key window s)
unfolding hit
post_hit R P key window s h = record { holds = h }
