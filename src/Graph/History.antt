-- ===== src/Graph/History.antt =====
-- Any history of requests: each runs in its own transaction, and one that raises rolls back.
use udesa_x_posts_api.Common.{ℕ, List, [], ◌∷◌}
use udesa_x_posts_api.Common.Action.{Action}
use udesa_x_posts_api.Common.Action.Rules.{
  Post, post_call, post_read, post_refuse, post_raise_if, post_weaken,
}
use udesa_x_posts_api.RateLimiter.{RateLimiter, Session, RateKey, on_db, request}
use udesa_x_posts_api.RateLimiter.Rules.{post_on_db, request-keeps, post_hit}
use udesa_x_posts_api.Models.{Account}
use udesa_x_posts_api.Database.{Db, Tick}
use udesa_x_posts_api.Follows.{ensure_profile}
use udesa_x_posts_api.Follows.Service.{charge_follow, follow, unfollow}
use udesa_x_posts_api.FollowRequests.Service.{approve, reject}
use udesa_x_posts_api.Blocks.Service.{block, unblock}
use udesa_x_posts_api.Mutes.Service.{mute, unmute}
use udesa_x_posts_api.UserDeletion.{apply}
use udesa_x_posts_api.Graph.{IsConsistent}
use udesa_x_posts_api.Graph.Statements.{HasProfile, ensure_profile-keeps}
use udesa_x_posts_api.Graph.Following.{follow_in_db-keeps}
use udesa_x_posts_api.Graph.Answering.{unfollow-keeps, approve-keeps, reject-keeps}
use udesa_x_posts_api.Graph.Blocking.{
  HasBlock, block-HasBlock, unblock-keeps, mute-keeps, unmute-keeps,
}
use udesa_x_posts_api.Graph.Closing.{apply-keeps}

-- The calls that write the graph: the endpoints', the bootstrap of a profile, and the event that
-- closes an account.
pub data Call : Type 0 where
  follows approves blocks mutes : Tick → Account → ℕ → Call
  unfollows rejects unblocks unmutes : Account → ℕ → Call
  appears : Account → Call
  closes : ℕ → ℕ → Call

module _ (R : RateLimiter) (follow_limit window_seconds : ℕ) where
  pub serve : Call → Session R.State → Session R.State
  serve (follows t a b) s = (request (follow R follow_limit window_seconds t a b) s).1
  serve (approves t a i) s = (request (on_db (approve t a i)) s).1
  serve (blocks t a b) s = (request (on_db (block t a b)) s).1
  serve (mutes t a b) s = (request (on_db (mute t a b)) s).1
  serve (unfollows a b) s = (request (on_db (unfollow a b)) s).1
  serve (rejects a i) s = (request (on_db (reject a i)) s).1
  serve (unblocks a b) s = (request (on_db (unblock a b)) s).1
  serve (unmutes a b) s = (request (on_db (unmute a b)) s).1
  serve (appears a) s = (request (on_db (ensure_profile a)) s).1
  serve (closes u at) s = (request (on_db (apply u at)) s).1

  pub serve_all : List Call → Session R.State → Session R.State
  serve_all [] s = s
  serve_all (c ∷ cs) s = serve_all cs (serve c s)

  charge_follow-keeps :
      (a : ℕ) (s : Session R.State)
      → IsConsistent s.db
      → Post (λ _ t. IsConsistent t.db) (charge_follow R follow_limit window_seconds a s)
  unfolding charge_follow
  charge_follow-keeps a s v =
      post_call _ _ _ s (post_hit R IsConsistent (RateKey.follow_rate a) window_seconds s v)
        λ attempts s1 v1. post_read _ _ s1 (post_raise_if _ _ s1 λ allowed. v1)

  follow-keeps :
      (t : Tick) (a : Account) (b : ℕ) (s : Session R.State)
      → IsConsistent s.db
      → Post (λ _ x. IsConsistent x.db) (follow R follow_limit window_seconds t a b s)
  unfolding follow
  follow-keeps t a b s v = post_refuse _ _ _ s λ not_self.
      post_call _ _ _ s (charge_follow-keeps a.id s v)
        λ _ s1 v1. post_on_db IsConsistent _ s1 (follow_in_db-keeps t a b s1.db v1)

  on_db-keeps :
      {A : Type 0} (m : Action Db A) (s : Session R.State)
      → IsConsistent s.db
      → Post (λ _ e. IsConsistent e) (m s.db)
      → IsConsistent (request (on_db m) s).1.db
  on_db-keeps m s v h = request-keeps IsConsistent (on_db m) s v (post_on_db IsConsistent m s h)

  pub serve-keeps :
      (c : Call) (s : Session R.State) → IsConsistent s.db → IsConsistent (serve c s).db
  unfolding serve
  serve-keeps (follows t a b) s v =
      request-keeps IsConsistent (follow R follow_limit window_seconds t a b) s v
        (follow-keeps t a b s v)
  serve-keeps (approves t a i) s v = on_db-keeps _ s v (approve-keeps t a i s.db v)
  serve-keeps (blocks t a b) s v = on_db-keeps _ s v (
      post_weaken (λ _ e. HasBlock a.id b e) _ _ (block-HasBlock t a b s.db v)
        (λ _ e h. h.consistent))
  serve-keeps (mutes t a b) s v = on_db-keeps _ s v (mute-keeps t a b s.db v)
  serve-keeps (unfollows a b) s v = on_db-keeps _ s v (unfollow-keeps a b s.db v)
  serve-keeps (rejects a i) s v = on_db-keeps _ s v (reject-keeps a i s.db v)
  serve-keeps (unblocks a b) s v = on_db-keeps _ s v (unblock-keeps a b s.db v)
  serve-keeps (unmutes a b) s v = on_db-keeps _ s v (unmute-keeps a b s.db v)
  serve-keeps (appears a) s v = on_db-keeps _ s v (
      post_weaken (λ _ e. HasProfile a.id e) _ _ (ensure_profile-keeps a s.db v)
        (λ _ e h. h.consistent))
  serve-keeps (closes u at) s v = on_db-keeps _ s v (apply-keeps u at s.db v)

  -- After any history of requests that began with a consistent graph, every profile shows how
  -- many accounts follow it and how many it follows, the keys hold, a pair has at most one open
  -- request, and no follow and no open request joins two accounts of which one blocked the other.
  pub serve_all-IsConsistent :
      (cs : List Call) (s : Session R.State) → IsConsistent s.db → IsConsistent (serve_all cs s).db
  unfolding serve_all
  serve_all-IsConsistent [] s v = v
  serve_all-IsConsistent (c ∷ cs) s v = serve_all-IsConsistent cs (serve c s) (serve-keeps c s v)
