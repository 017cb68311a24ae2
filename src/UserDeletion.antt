-- ===== src/UserDeletion.antt =====
-- UserDeletionRepository and UserDeletionService (app/repositories/user_deletion.py and
-- app/services/user_deletion.py): what closing an account changes.
pub mod Repeat
pub mod Release
use udesa_x_posts_api.Common.{
  ℕ, Option, none, some, is_some, Bool, true, false, ◌&&◌, ◌||◌, not, List, ◌∷◌, ◌==◌,
  if◌then◌else◌,
}
use udesa_x_posts_api.Common.Int.{ℤ, pos, negsuc, ◌+ℤ◌, greatest}
use udesa_x_posts_api.Common.Rows.{count, exists, update, delete}
use udesa_x_posts_api.Common.Action.{
  Action, Result, ok, pure, gets, modify, when◌run◌otherwise◌, ◌>>=◌, ◌>>◌,
}
use udesa_x_posts_api.Models.{ProfileVisibility}
use udesa_x_posts_api.Database.{
  Db, UserProfileRow, FollowRow, FollowRequestRow, BlockRow, MuteRow, PostRow, LikeRow, RetweetRow,
}
use udesa_x_posts_api.Follows.{profile_id, profile_exists, pair_of, new_profile}

abbrev pub live_id : ℕ → UserProfileRow → Bool
live_id u r = r.id == u && not (is_some r.deleted_at)

abbrev pub closed_at : ℕ → UserProfileRow → UserProfileRow
closed_at at r = record r {
  deleted_at = some at;
  visibility = ProfileVisibility.public;
  followers_count = pos 0;
  following_count = pos 0;
}

-- `INSERT … ON CONFLICT (id) DO NOTHING` with the id alone.
abbrev pub with_profile : ℕ → List UserProfileRow → List UserProfileRow
with_profile u ps =
    if exists (profile_id u) ps then ps else new_profile u none ProfileVisibility.public ∷ ps

-- The insert and the update, and whether the update reached a row.
unfoldable pub close : ℕ → ℕ → Action Db Bool
close u at d =
    let ps = with_profile u d.profiles in
    (ok (exists (live_id u) ps), record d { profiles = update (live_id u) (closed_at at) ps })

abbrev pub lower_followers : UserProfileRow → UserProfileRow
lower_followers r = record r { followers_count = greatest (r.followers_count +ℤ negsuc 0) (pos 0) }

abbrev pub lower_following : UserProfileRow → UserProfileRow
lower_following r = record r { following_count = greatest (r.following_count +ℤ negsuc 0) (pos 0) }

-- `id IN (SELECT followee_id FROM follows WHERE follower_id = u)`, and the other way round.
abbrev pub followed_by : ℕ → List FollowRow → UserProfileRow → Bool
followed_by u fs r = exists (pair_of u r.id) fs

abbrev pub follower_of : ℕ → List FollowRow → UserProfileRow → Bool
follower_of u fs r = exists (pair_of r.id u) fs

abbrev pub follow_of : ℕ → FollowRow → Bool
follow_of u r = r.follower_id == u || r.followee_id == u

abbrev pub request_of : ℕ → FollowRequestRow → Bool
request_of u r = r.requester_id == u || r.target_id == u

unfoldable pub release_follows : ℕ → Action Db (Unit {0})
release_follows u =
    modify
      (λ d. record d { profiles = update (followed_by u d.follows) lower_followers d.profiles })
    >> modify
        (λ d. record d { profiles = update (follower_of u d.follows) lower_following d.profiles })
    >> modify (λ d. record d { follows = delete (follow_of u) d.follows })
    >> modify (λ d. record d { follow_requests = delete (request_of u) d.follow_requests })

abbrev pub block_of : ℕ → BlockRow → Bool
block_of u r = r.blocker_id == u || r.blocked_id == u

unfoldable pub release_blocks : ℕ → Action Db (Unit {0})
release_blocks u = modify (λ d. record d { blocks = delete (block_of u) d.blocks })

abbrev pub mute_of : ℕ → MuteRow → Bool
mute_of u r = r.muter_id == u || r.muted_id == u

unfoldable pub release_mutes : ℕ → Action Db (Unit {0})
release_mutes u = modify (λ d. record d { mutes = delete (mute_of u) d.mutes })

abbrev pub like_by : ℕ → LikeRow → Bool
like_by u r = r.user_id == u

abbrev pub like_pair : ℕ → ℕ → LikeRow → Bool
like_pair u p r = r.user_id == u && r.post_id == p

-- `id IN (SELECT post_id FROM likes WHERE user_id = u) AND deleted_at IS NULL`
abbrev pub liked_live : ℕ → List LikeRow → PostRow → Bool
liked_live u ls r = exists (like_pair u r.id) ls && not (is_some r.deleted_at)

abbrev pub lower_likes : PostRow → PostRow
lower_likes r = record r { likes_count = greatest (r.likes_count +ℤ negsuc 0) (pos 0) }

unfoldable pub release_likes : ℕ → Action Db (Unit {0})
release_likes u =
    modify (λ d. record d { posts = update (liked_live u d.likes) lower_likes d.posts })
    >> modify (λ d. record d { likes = delete (like_by u) d.likes })

abbrev pub retweet_by : ℕ → RetweetRow → Bool
retweet_by u r = r.user_id == u

abbrev pub retweet_pair : ℕ → ℕ → RetweetRow → Bool
retweet_pair u p r = r.user_id == u && r.post_id == p

abbrev pub retweeted_live : ℕ → List RetweetRow → PostRow → Bool
retweeted_live u rs r = exists (retweet_pair u r.id) rs && not (is_some r.deleted_at)

abbrev pub lower_retweets : PostRow → PostRow
lower_retweets r = record r { retweets_count = greatest (r.retweets_count +ℤ negsuc 0) (pos 0) }

unfoldable pub release_retweets : ℕ → Action Db (Unit {0})
release_retweets u =
    modify (λ d. record d { posts = update (retweeted_live u d.retweets) lower_retweets d.posts })
    >> modify (λ d. record d { retweets = delete (retweet_by u) d.retweets })

-- `UserDeletionService.apply`
unfoldable pub apply : ℕ → ℕ → Action Db Bool
apply u at = do
  closed ← close u at
  when closed
      run (do
        release_follows u
        release_blocks u
        release_mutes u
        release_likes u
        release_retweets u
        pure true)
      otherwise pure false
