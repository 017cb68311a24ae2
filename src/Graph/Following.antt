-- ===== src/Graph/Following.antt =====
-- FollowService and FollowRequestService keep the graph consistent.
use udesa_x_posts_api.Common.{ℕ, ◌≡◌, Option, none, some, arith}
use udesa_x_posts_api.Common.Rows.{count}
use udesa_x_posts_api.Common.Action.Rules.{
  Post, post_pure, post_if, post_call, post_read, post_need, post_refuse, post_check, post_write,
  post_modify,
}
use udesa_x_posts_api.Models.{Account, UserProfile, FollowRequest}
use udesa_x_posts_api.Database.{Db, Tick}
use udesa_x_posts_api.Follows.{find_profile, is_following}
use udesa_x_posts_api.Follows.Service.{establish, or_open, ask, follow_in_db}
use udesa_x_posts_api.FollowRequests.{find_pending, open_request, refuses_request}
use udesa_x_posts_api.Blocks.{block_pair, has_blocked}
use udesa_x_posts_api.Mutes.{is_muted}
use udesa_x_posts_api.Outbox.{Event, add_event}
use udesa_x_posts_api.Graph.{IsConsistent}
use udesa_x_posts_api.Graph.Apart.{BlocksSever-request, IsOpenOnce-request}
use udesa_x_posts_api.Graph.Statements.{
  ensure_profile-keeps, add_follow-IsShort, move_counters-keeps,
}

-- An event in the outbox touches nothing of the graph.
pub add_event-keeps :
    (t : Tick) (e : Event) (d : Db)
    → IsConsistent d
    → Post (λ _ x. IsConsistent x) (add_event t e d)
unfolding add_event
add_event-keeps t e d v =
    post_modify _ d (record {
      keyed = v.keyed;
      counted = v.counted;
      open_once = v.open_once;
      severed = v.severed;
    })

establish-keeps :
    (t : Tick) (p : UserProfile) (a b : ℕ) (d : Db)
    → IsConsistent d
    → count (block_pair a b) d.blocks ≡ 0
    → count (block_pair b a) d.blocks ≡ 0
    → Post (λ _ e. IsConsistent e) (establish t p a b d)
unfolding establish is_muted
establish-keeps t p a b d v free free_back =
    post_call _ _ _ d (add_follow-IsShort t a b d v free free_back) λ _ d1 short.
      post_call _ _ _ d1 (move_counters-keeps a b d1 short) λ _ d2 v2.
        post_read _ _ d2
          (post_if _ _ _ d2 (λ muted. post_pure tt d2 v2) (λ heard. add_event-keeps t _ d2 v2))

open_request-keeps :
    (t : Tick) (a b : ℕ) (d : Db)
    → IsConsistent d
    → count (block_pair a b) d.blocks ≡ 0
    → count (block_pair b a) d.blocks ≡ 0
    → Post (λ _ e. IsConsistent e) (open_request t a b d)
unfolding open_request refuses_request
open_request-keeps t a b d v free free_back = post_read _ _ d (
    post_check _ _ d λ accepted. post_write _ _ d (
      post_pure _ _ (record {
        keyed = v.keyed;
        counted = v.counted;
        open_once =
            IsOpenOnce-request a b d.blocks d.follows d.follow_requests t (ground arith)
              v.open_once;
        severed =
            BlocksSever-request a b d.blocks d.follows d.follow_requests t free free_back v.severed;
      })))

or_open-keeps :
    (t : Tick) (a b : ℕ) (open_already : Option FollowRequest) (d : Db)
    → IsConsistent d
    → count (block_pair a b) d.blocks ≡ 0
    → count (block_pair b a) d.blocks ≡ 0
    → Post (λ _ e. IsConsistent e) (or_open t a b open_already d)
unfolding or_open
or_open-keeps t a b none d v free free_back = open_request-keeps t a b d v free free_back
or_open-keeps t a b (some r) d v free free_back = post_pure r d v

ask-keeps :
    (t : Tick) (a b : ℕ) (d : Db)
    → IsConsistent d
    → count (block_pair a b) d.blocks ≡ 0
    → count (block_pair b a) d.blocks ≡ 0
    → Post (λ _ e. IsConsistent e) (ask t a b d)
unfolding ask find_pending
ask-keeps t a b d v free free_back = post_read _ _ d (or_open-keeps t a b _ d v free free_back)

-- Following an account keeps the graph consistent, whichever way the call returns.
pub follow_in_db-keeps :
    (t : Tick) (follower : Account) (b : ℕ) (d : Db)
    → IsConsistent d
    → Post (λ _ e. IsConsistent e) (follow_in_db t follower b d)
unfolding follow_in_db find_profile has_blocked is_following
follow_in_db-keeps t follower b d v =
    post_call _ _ _ d (ensure_profile-keeps follower d v) λ p d1 h.
      let v1 = h.consistent in
      post_read _ _ d1 (
        post_need _ _ _ d1 λ target found. post_read _ _ d1 (
          post_refuse _ _ _ d1 λ free_back. post_read _ _ d1 (
            post_refuse _ _ _ d1 λ free. post_read _ _ d1 (
              post_if _ _ _ d1 (λ already. post_pure _ d1 v1)
                λ new.
                  post_if _ _ _ d1
                    (λ guarded.
                      post_call _ _ _ d1
                        (ask-keeps t follower.id b d1 v1 (ground arith) (ground arith))
                        (λ r d2 v2. post_pure _ d2 v2))
                    (λ open_to_all.
                      post_call _ _ _ d1
                        (establish-keeps t p follower.id b d1 v1 (ground arith) (ground arith))
                        (λ _ d2 v2. post_pure _ d2 v2))))))
