-- ===== src/Tests/Lists.antt =====
-- Ana reads the followers and the posts of Bruno, whose account is protected, and who follows nobody.
use udesa_x_posts_api.Common.{
  ℕ, suc, ◌≡◌, refl, none, some, true, false, [], ◌∷◌, length, ◌==◌, arith,
}
use udesa_x_posts_api.Common.Int.{pos}
use udesa_x_posts_api.Common.Rows.{count, find}
use udesa_x_posts_api.Common.Action.Rules.{Post}
use udesa_x_posts_api.Database.{Db, UserProfileRow}
use udesa_x_posts_api.Follows.{profile_id, pair_of}
use udesa_x_posts_api.Posts.{visible_to}
use udesa_x_posts_api.Graph.{IsConsistent}
use udesa_x_posts_api.Listings.{follower_rows}
use udesa_x_posts_api.Listings.Scrolling.{scroll_followers, scroll_followers-counts}
use udesa_x_posts_api.Profiles.{UserDirectory, Lookup, posts_of}
use udesa_x_posts_api.Profiles.Reading.{posts_of-visible_to}
use udesa_x_posts_api.Tests.{ana, acquainted, ana_row, bruno_row}

-- Ana follows Bruno.
abbrev joined_row : UserProfileRow
joined_row = record bruno_row { followers_count = pos 1 }

abbrev following : Db
following = record acquainted {
  profiles = (record ana_row { following_count = pos 1 }) ∷ joined_row ∷ [];
  follows = (record { follower_id = 1; followee_id = 2; created_at = 3 }) ∷ [];
}

following-IsConsistent : IsConsistent following
following-IsConsistent = record {
  keyed = record {
    profile_once = λ u. ground arith;
    follow_once = λ a b. ground arith;
    not_self = λ a. ground arith;
    follower_known = λ a e. ground (arith, e);
    followee_known = λ a e. ground (arith, e);
  };
  counted = record { followers = (refl, (refl, tt)); following = (refl, (refl, tt)) };
  open_once = λ a b. ground arith;
  severed = λ a b h. ground (arith, h);
}

scroll_followers-counts_example :
    (pos 1
      ≡ pos (
          length
            (scroll_followers (suc (length (follower_rows 2 following))) 2 1 1 none following)))
    × ((a : ℕ)
        → count
            (λ b. b == a)
            (scroll_followers (suc (length (follower_rows 2 following))) 2 1 1 none following)
          ≡ count (pair_of a 2) following.follows)
scroll_followers-counts_example =
    scroll_followers-counts 2 1 0 following joined_row following-IsConsistent refl

abbrev quiet : UserDirectory
quiet = record { details_of = λ u. Lookup.unavailable }

posts_of-visible_to_example :
    Post
      (λ _ e.
        (r : UserProfileRow) × ((find (profile_id 2) e.profiles ≡ some r)
          × (visible_to 1 r false e ≡ true)))
      (posts_of quiet 2 ana none following)
posts_of-visible_to_example = posts_of-visible_to quiet 2 ana none following
