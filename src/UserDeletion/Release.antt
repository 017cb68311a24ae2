-- ===== src/UserDeletion/Release.antt =====
-- What closing an account leaves of what it did with others.
use udesa_x_posts_api.Common.{ℕ, ◌≡◌, true, inl, inr, Bool-cases}
use udesa_x_posts_api.Common.Rows.{count, exists, count-delete_all}
use udesa_x_posts_api.Common.Action.{ok, ◌>>=◌}
use udesa_x_posts_api.Database.{Db}
use udesa_x_posts_api.UserDeletion.{
  live_id, with_profile, close, follow_of, request_of, block_of, mute_of, like_by, retweet_by,
  release_follows, release_blocks, release_mutes, release_likes, release_retweets, apply,
}

-- Nothing joins the account to anybody.
pub record IsReleased (u : ℕ) (d : Db) : Type 0 where
  pub follows : count (follow_of u) d.follows ≡ 0
  pub follow_requests : count (request_of u) d.follow_requests ≡ 0
  pub blocks : count (block_of u) d.blocks ≡ 0
  pub mutes : count (mute_of u) d.mutes ≡ 0
  pub likes : count (like_by u) d.likes ≡ 0
  pub retweets : count (retweet_by u) d.retweets ≡ 0

-- A call that reports that it closed the account has removed its follows, requests, blocks and
-- mutes in both directions, its likes and its retweets.
pub apply-IsReleased :
    (u at : ℕ) (d : Db) → (apply u at d).0 ≡ ok true → IsReleased u (apply u at d).1
unfolding apply close release_follows release_blocks release_mutes release_likes release_retweets
    ◌>>=◌
apply-IsReleased u at d = elim (Bool-cases (exists (live_id u) (with_profile u d.profiles))) [
  | inl reached ↦ rw reached (λ returned. record {
    follows = count-delete_all (follow_of u) (follow_of u) (λ r h. h) d.follows;
    follow_requests = count-delete_all (request_of u) (request_of u) (λ r h. h) d.follow_requests;
    blocks = count-delete_all (block_of u) (block_of u) (λ r h. h) d.blocks;
    mutes = count-delete_all (mute_of u) (mute_of u) (λ r h. h) d.mutes;
    likes = count-delete_all (like_by u) (like_by u) (λ r h. h) d.likes;
    retweets = count-delete_all (retweet_by u) (retweet_by u) (λ r h. h) d.retweets;
  })
  | inr unreached ↦ rw unreached (λ returned. cc)
]
