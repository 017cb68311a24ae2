-- ===== src/Posts/History.antt =====
-- Any history of requests over the posts: each runs in its own transaction, and one that raises
-- rolls back.
use udesa_x_posts_api.Common.{ℕ, Option, Bool, List, [], ◌∷◌}
use udesa_x_posts_api.Common.Action.{Action}
use udesa_x_posts_api.Common.Action.Rules.{
  Post, post_if, post_pure, post_call, post_read, post_raise_if,
}
use udesa_x_posts_api.RateLimiter.{RateLimiter, Session, RateKey, on_db, request}
use udesa_x_posts_api.RateLimiter.Rules.{post_on_db, request-keeps, post_hit}
use udesa_x_posts_api.Models.{Account}
use udesa_x_posts_api.Database.{Db, PostLanguage, Tick}
use udesa_x_posts_api.Follows.{ensure_profile}
use udesa_x_posts_api.Posts.Tallies.{IsTallied}
use udesa_x_posts_api.Posts.Service.{charge_post, create, delete_post}
use udesa_x_posts_api.Posts.Keeping.{ensure_profile-IsTallied}
use udesa_x_posts_api.Posts.Marking.{like-IsTallied, unlike-IsTallied}
use udesa_x_posts_api.Posts.Sharing.{retweet-IsTallied, unretweet-IsTallied}
use udesa_x_posts_api.Posts.Writing.{create-IsTallied, delete_post-IsTallied}
use udesa_x_posts_api.Posts.Closing.{apply-IsTallied}
use udesa_x_posts_api.Likes.{like, unlike}
use udesa_x_posts_api.Retweets.{retweet, unretweet}
use udesa_x_posts_api.UserDeletion.{apply}

-- The calls that write posts, likes and retweets.
pub data Call : Type 0 where
  posts : Tick → Account → List ℕ → Option ℕ → Bool → Call
  deletes : Tick → ℕ → Account → Call
  likes retweets : Tick → Account → ℕ → Call
  unlikes unretweets : Account → ℕ → Call
  appears : Account → Call
  closes : ℕ → ℕ → Call

module _ (R : RateLimiter) (post_limit window_seconds : ℕ) (detect : List ℕ → PostLanguage) where
  pub serve : Call → Session R.State → Session R.State
  serve (posts t a text parent charged) s =
      (request (create R post_limit window_seconds detect t a text parent charged) s).1
  serve (deletes t p a) s = (request (on_db (delete_post t p a)) s).1
  serve (likes t a p) s = (request (on_db (like t a p)) s).1
  serve (retweets t a p) s = (request (on_db (retweet t a p)) s).1
  serve (unlikes a p) s = (request (on_db (unlike a p)) s).1
  serve (unretweets a p) s = (request (on_db (unretweet a p)) s).1
  serve (appears a) s = (request (on_db (ensure_profile a)) s).1
  serve (closes u at) s = (request (on_db (apply u at)) s).1

  pub serve_all : List Call → Session R.State → Session R.State
  serve_all [] s = s
  serve_all (c ∷ cs) s = serve_all cs (serve c s)

  charge_post-IsTallied :
      (a : ℕ) (s : Session R.State)
      → IsTallied s.db
      → Post (λ _ t. IsTallied t.db) (charge_post R post_limit window_seconds a s)
  unfolding charge_post
  charge_post-IsTallied a s v =
      post_call _ _ _ s (post_hit R IsTallied (RateKey.post_rate a) window_seconds s v)
        λ attempts s1 v1. post_read _ _ s1 (post_raise_if _ _ s1 λ allowed. v1)

  posting-IsTallied :
      (t : Tick) (a : Account) (text : List ℕ) (parent : Option ℕ) (charged : Bool)
      (s : Session R.State)
      → IsTallied s.db
      → Post
          (λ _ x. IsTallied x.db)
          (create R post_limit window_seconds detect t a text parent charged s)
  unfolding create
  posting-IsTallied t a text parent charged s v =
      post_call (λ _ x. IsTallied x.db) _ _ s
        (post_if _ _ _ s (λ done. post_pure tt s v) λ due. charge_post-IsTallied a.id s v)
        λ _ s1 v1. post_on_db IsTallied _ s1 (create-IsTallied detect t a text parent s1.db v1)

  on_db-IsTallied :
      {A : Type 0} (m : Action Db A) (s : Session R.State)
      → IsTallied s.db
      → Post (λ _ e. IsTallied e) (m s.db)
      → IsTallied (request (on_db m) s).1.db
  on_db-IsTallied m s v h = request-keeps IsTallied (on_db m) s v (post_on_db IsTallied m s h)

  serve-IsTallied : (c : Call) (s : Session R.State) → IsTallied s.db → IsTallied (serve c s).db
  unfolding serve
  serve-IsTallied (posts t a text parent charged) s v =
      request-keeps IsTallied (create R post_limit window_seconds detect t a text parent charged) s
        v (posting-IsTallied t a text parent charged s v)
  serve-IsTallied (deletes t p a) s v = on_db-IsTallied _ s v (delete_post-IsTallied t p a s.db v)
  serve-IsTallied (likes t a p) s v = on_db-IsTallied _ s v (like-IsTallied t a p s.db v)
  serve-IsTallied (retweets t a p) s v = on_db-IsTallied _ s v (retweet-IsTallied t a p s.db v)
  serve-IsTallied (unlikes a p) s v = on_db-IsTallied _ s v (unlike-IsTallied a p s.db v)
  serve-IsTallied (unretweets a p) s v = on_db-IsTallied _ s v (unretweet-IsTallied a p s.db v)
  serve-IsTallied (appears a) s v = on_db-IsTallied _ s v (ensure_profile-IsTallied a s.db v)
  serve-IsTallied (closes u at) s v = on_db-IsTallied _ s v (apply-IsTallied u at s.db v)

  -- After any history of requests that began with matching tallies, identifiers of posts are
  -- distinct, every post shows how many likes, retweets and replies it has, an account has at most
  -- one like and one retweet on a post, and a deleted post has none.
  pub serve_all-IsTallied :
      (cs : List Call) (s : Session R.State) → IsTallied s.db → IsTallied (serve_all cs s).db
  unfolding serve_all
  serve_all-IsTallied [] s v = v
  serve_all-IsTallied (c ∷ cs) s v = serve_all-IsTallied cs (serve c s) (serve-IsTallied c s v)
