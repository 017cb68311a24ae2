-- ===== src/Follows/Service.antt =====
-- FollowService (app/services/follows.py).
use udesa_x_posts_api.Common.{ℕ, ◌<>◌, decimal, Option, none, some, not, ◌==◌, leb}
use udesa_x_posts_api.Common.Int.{pos, negsuc}
use udesa_x_posts_api.Common.Action.{
  when◌run◌otherwise◌, ProblemError, Action, pure, gets, require, raise_if, ◌>>=◌, ◌>>◌,
}
use udesa_x_posts_api.Models.{Account, UserProfile, FollowRequest}
use udesa_x_posts_api.Models.Equality.{needs_approval}
use udesa_x_posts_api.Database.{Db, Tick}
use udesa_x_posts_api.RateLimiter.{RateLimiter, RateKey, Session, on_db, hit}
use udesa_x_posts_api.Follows.{
  find_profile, ensure_profile, is_following, add_follow, remove_follow, move_counters,
}
use udesa_x_posts_api.FollowRequests.{find_pending, open_request, cancel_request}
use udesa_x_posts_api.Blocks.{has_blocked}
use udesa_x_posts_api.Mutes.{is_muted}
use udesa_x_posts_api.Outbox.{follow_created, add_event}

abbrev pub cannot_follow_yourself : ProblemError
cannot_follow_yourself = record {
  status = 409;
  code = "cannot-follow-yourself";
  title = "No se pudo seguir la cuenta";
  detail = "No podés seguirte a vos mismo";
  retry_after = none;
}

abbrev pub user_not_found : ProblemError
user_not_found = record {
  status = 404;
  code = "user-not-found";
  title = "No se pudo seguir la cuenta";
  detail = "La cuenta que querés seguir no existe";
  retry_after = none;
}

abbrev pub account_blocked : ProblemError
account_blocked = record {
  status = 409;
  code = "account-blocked";
  title = "No se pudo seguir la cuenta";
  detail = "Bloqueaste esta cuenta. Desbloqueala para poder seguirla";
  retry_after = none;
}

unfoldable pub too_many_follows : ℕ → ℕ → ProblemError
too_many_follows limit seconds = record {
  status = 429;
  code = "too-many-follows";
  title = "Demasiadas solicitudes de seguimiento";
  detail = "Alcanzaste el límite de " <> decimal limit <> " por hora. Probá más tarde.";
  retry_after = some seconds;
}

-- The last part of `follow`, for an account that needs no approval: the relationship, the
-- counters, and the event unless the followee muted the follower.
unfoldable pub establish : Tick → UserProfile → ℕ → ℕ → Action Db (Unit {0})
establish t follower_profile a b = do
  add_follow t a b
  move_counters a b (pos 1)
  muted ← is_muted b a
  when muted run (pure tt) otherwise add_event t (follow_created t a b follower_profile.handle)

-- The part for a protected account: the request that is already open, or a new one.
unfoldable pub or_open : Tick → ℕ → ℕ → Option FollowRequest → Action Db FollowRequest
or_open t a b none = open_request t a b
or_open t a b (some r) = pure r

unfoldable pub ask : Tick → ℕ → ℕ → Action Db FollowRequest
ask t a b = do open_already ← find_pending a b; or_open t a b open_already

-- `follow` from the lookup of the profile on: everything that the database does.
unfoldable pub follow_in_db : Tick → Account → ℕ → Action Db (Option FollowRequest)
follow_in_db t follower b = do
  follower_profile ← ensure_profile follower
  found ← find_profile b
  target ← require found user_not_found
  blocked_by_target ← has_blocked b follower.id
  raise_if blocked_by_target user_not_found
  blocked_by_follower ← has_blocked follower.id b
  raise_if blocked_by_follower account_blocked
  already ← is_following follower.id b
  when already
      run pure none
      otherwise (when needs_approval target
          run (do r ← ask t follower.id b; pure (some r))
          otherwise do establish t follower_profile follower.id b; pure none)

unfoldable pub unfollow : Account → ℕ → Action Db (Unit {0})
unfollow follower b = do
  removed ← remove_follow follower.id b
  when removed
      run move_counters follower.id b (negsuc 0)
      otherwise (do cancel_request follower.id b; pure tt)

module _ (R : RateLimiter) (follow_limit window_seconds : ℕ) where
  -- `FollowService._charge_the_rate_limit`
  unfoldable pub charge_follow : ℕ → Action (Session R.State) (Unit {0})
  charge_follow a = do
    attempts ← hit R (RateKey.follow_rate a) window_seconds
    seconds ← gets (λ s. R.seconds_left (RateKey.follow_rate a) s.marks)
    raise_if (not (leb attempts follow_limit)) (too_many_follows follow_limit seconds)

  unfoldable pub follow : Tick → Account → ℕ → Action (Session R.State) (Option FollowRequest)
  follow t follower b = do
    raise_if (follower.id == b) cannot_follow_yourself
    charge_follow follower.id
    on_db (follow_in_db t follower b)
