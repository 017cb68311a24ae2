-- ===== src/Follows/Limits.antt =====
-- The limits on follows and posts, and the event that a mute suppresses.
use udesa_x_posts_api.Common.{ℕ, ◌≡◌, refl, Option, none, some, true, false, arith, leb, List}
use udesa_x_posts_api.Common.Rows.{exists}
use udesa_x_posts_api.Common.Action.{problem, ◌>>=◌}
use udesa_x_posts_api.Common.Action.Rules.{
  Post, post_pure, post_if, post_call, post_read, post_need, post_refuse, post_check, post_write,
  post_modify,
}
use udesa_x_posts_api.Models.{Account, UserProfile, FollowRequest}
use udesa_x_posts_api.Database.{Db, PostLanguage, Tick}
use udesa_x_posts_api.RateLimiter.{RateLimiter, RateKey, Session, hit, request, end_request}
use udesa_x_posts_api.Follows.{find_profile, is_following, add_follow, move_counters}
use udesa_x_posts_api.Follows.Service.{follow_in_db, establish, ask, or_open}
use udesa_x_posts_api.Follows.Outcomes.{ensure_profile-others}
use udesa_x_posts_api.FollowRequests.{find_pending, open_request}
use udesa_x_posts_api.Blocks.{has_blocked}
use udesa_x_posts_api.Mutes.{mute_pair, is_muted}
use udesa_x_posts_api.Posts.Service.{too_many_posts, charge_post, create}

module _ (R : RateLimiter) (limit window_seconds : ℕ) where
  -- A post past the limit that was not charged before is refused with the seconds that are left, the
  -- database stays as it was, and the attempt stays counted.
  create-limited :
      (detect : List ℕ → PostLanguage) (t : Tick) (author : Account) (content : List ℕ)
      (parent : Option ℕ) (s : Session R.State)
      → leb (R.hit (RateKey.post_rate author.id) window_seconds s.marks).0 limit ≡ false
      → let marks = (R.hit (RateKey.post_rate author.id) window_seconds s.marks).1 in
        request (create R limit window_seconds detect t author content parent false) s ≡ (
          problem (too_many_posts limit (R.seconds_left (RateKey.post_rate author.id) marks)),
          record s { marks = marks },
        )
  unfolding request end_request create charge_post hit ◌>>=◌
  create-limited detect t author content parent s over = rw over refl

-- The outbox after the part that writes the relationship.
establish-quiet :
    (t : Tick) (p : UserProfile) (a b : ℕ) (d : Db)
    → exists (mute_pair b a) d.mutes ≡ true
    → Post (λ _ e. e.outbox ≡ d.outbox) (establish t p a b d)
unfolding establish add_follow move_counters is_muted
establish-quiet t p a b d muted =
    post_call (λ _ e. (e.outbox ≡ d.outbox) × (e.mutes ≡ d.mutes)) _ _ d
      (post_read _ _ d (post_check _ _ d λ accepted. post_modify _ d (refl, refl)))
      λ _ d1 same.
        post_call (λ _ e. (e.outbox ≡ d.outbox) × (e.mutes ≡ d.mutes)) _ _ d1
          (post_write _ _ d1 (post_modify _ _ same))
          λ _ d2 same2. post_read _ _ d2 (
            post_if _ _ _ d2 (λ there. post_pure tt d2 same2.0)
              λ heard. ground (arith, muted, same2.1))

or_open-quiet :
    (t : Tick) (a b : ℕ) (found : Option FollowRequest) (d : Db)
    → Post (λ _ e. e.outbox ≡ d.outbox) (or_open t a b found d)
unfolding or_open open_request
or_open-quiet t a b none d =
    post_read _ _ d (post_check _ _ d λ accepted. post_write _ _ d (post_pure _ _ refl))
or_open-quiet t a b (some r) d = post_pure r d refl

-- A follow of an account that muted the follower queues no event, whatever else it does.
follow_in_db-quiet :
    (t : Tick) (follower : Account) (b : ℕ) (d : Db)
    → exists (mute_pair b follower.id) d.mutes ≡ true
    → Post (λ _ e. e.outbox ≡ d.outbox) (follow_in_db t follower b d)
unfolding follow_in_db find_profile has_blocked is_following ask find_pending
follow_in_db-quiet t follower b d muted =
    post_call _ _ _ d (ensure_profile-others follower d) λ p d1 same.
      let kept : d1.outbox ≡ d.outbox = rw same refl in
      let still : exists (mute_pair b follower.id) d1.mutes ≡ true = rw same muted in
      post_read _ _ d1 (
        post_need _ _ _ d1 λ target found. post_read _ _ d1 (
          post_refuse _ _ _ d1 λ free. post_read _ _ d1 (
            post_refuse _ _ _ d1 λ free_back. post_read _ _ d1 (
              post_if _ _ _ d1 (λ there. post_pure none d1 kept)
                λ new.
                  post_if _ _ _ d1
                    (λ asks.
                      post_call _ _ _ d1 (post_read _ _ d1 (or_open-quiet t follower.id b _ d1))
                        λ r d2 h. post_pure (some r) d2 (cc))
                    λ open_to_all.
                      post_call _ _ _ d1 (establish-quiet t p follower.id b d1 still)
                        λ _ d2 h. post_pure none d2 (cc)))))
