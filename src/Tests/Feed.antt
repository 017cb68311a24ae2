-- ===== src/Tests/Feed.antt =====
-- The feed of Ana, who follows Bruno; Bruno wrote a post and retweeted one of Carla, whom nobody
-- follows, and Dora, whom Ana muted, retweeted it too.
use udesa_x_posts_api.Common.{
  ℕ, suc, ◌≡◌, refl, none, some, Bool, List, [], ◌∷◌, map, length, arith,
}
use udesa_x_posts_api.Common.Lists.{All}
use udesa_x_posts_api.Common.Rows.{count}
use udesa_x_posts_api.Models.{ProfileVisibility}
use udesa_x_posts_api.Database.{Db, PostLanguage}
use udesa_x_posts_api.Follows.{new_profile}
use udesa_x_posts_api.Posts.{new_post, visible_to}
use udesa_x_posts_api.FeedLanguage.{in_feed_language_of}
use udesa_x_posts_api.Pagination.Sorted.{IsOrdered}
use udesa_x_posts_api.Activity.{
  ActivityRow, activity_item, feed_rows, feed_originals, feed_shares, newest_activity, for_viewer,
}
use udesa_x_posts_api.Activity.Shown.{IsAllowed, for_viewer-IsAllowed}
use udesa_x_posts_api.Activity.Positions.{AreKeyed}
use udesa_x_posts_api.Activity.Scrolling.{scroll, scroll-shows_all}
use udesa_x_posts_api.Tests.{at, empty, ana_row, bruno_row}

abbrev busy : Db
busy = record empty {
  profiles =
      ana_row
      ∷ bruno_row
      ∷ new_profile 3 (some "carla") ProfileVisibility.public
      ∷ new_profile 4 (some "dora") ProfileVisibility.public
      ∷ [];
  follows =
      (record { follower_id = 1; followee_id = 2; created_at = 1 })
      ∷ (record { follower_id = 1; followee_id = 4; created_at = 2 })
      ∷ [];
  mutes = (record { muter_id = 1; muted_id = 4; created_at = 3 }) ∷ [];
  posts =
      new_post (at 7) 2 (0x68 ∷ []) PostLanguage.en none
      ∷ new_post (at 8) 3 (0x69 ∷ []) PostLanguage.es none
      ∷ [];
  retweets =
      (record { user_id = 2; post_id = 8; created_at = 9 })
      ∷ (record { user_id = 4; post_id = 8; created_at = 10 })
      ∷ [];
}

abbrev positions : List ActivityRow → List (ℕ × ℕ)
positions = map (λ r. (r.activity.kind, r.post.id))

-- The retweet of Bruno and his post; the retweet of Dora is left out.
rows_of_ana : positions (feed_rows 1 busy) ≡ (0, 7) ∷ (1, 8) ∷ []
unfolding feed_rows feed_originals feed_shares visible_to in_feed_language_of
rows_of_ana = refl

busy-AreKeyed : AreKeyed busy
busy-AreKeyed = record {
  profile_once = λ u. ground arith;
  post_once = λ p. ground arith;
  follow_once = λ a b. ground arith;
  retweet_once = λ u p. ground arith;
}

for_viewer-IsAllowed_example :
    All
      (λ i. (r : ActivityRow) × ((i ≡ activity_item 1 busy r) × IsAllowed 1 busy r))
      (for_viewer 1 none 20 busy).0
for_viewer-IsAllowed_example = for_viewer-IsAllowed 1 busy none 20

scroll-shows_all_example :
    (seen : List ActivityRow) × ((scroll (suc (length (feed_rows 1 busy))) 1 1 none busy
        ≡ map (activity_item 1 busy) seen)
      × ((IsOrdered newest_activity seen)
          × ((p : ActivityRow → Bool) → count p seen ≡ count p (feed_rows 1 busy))))
scroll-shows_all_example = scroll-shows_all 1 0 busy busy-AreKeyed
