-- ===== src/AccountCounts/Faithful.antt =====
-- The numbers of an account are those of the tables.
use udesa_x_posts_api.Common.{ℕ, ◌≡◌, refl, some, is_some, false, ==→eq}
use udesa_x_posts_api.Common.Int.{pos}
use udesa_x_posts_api.Common.Rows.{count, find, find-holds, All-find}
use udesa_x_posts_api.Common.Action.{ok, ◌>>=◌}
use udesa_x_posts_api.Database.{Db, UserProfileRow}
use udesa_x_posts_api.Follows.{profile_id, find_profile, live_profile, to_profile}
use udesa_x_posts_api.Posts.{count_by_author, live_by}
use udesa_x_posts_api.Graph.{IsConsistent, follows_to, FollowersMatch}
use udesa_x_posts_api.AccountCounts.{counts_of, counts_from}

module _ (u : ℕ) (d : Db) (r : UserProfileRow) where
  -- On a consistent graph, the numbers of an account with an open profile are the number of its
  -- followers and of its posts that are not deleted.
  counts_of-count :
      IsConsistent d
      → find (profile_id u) d.profiles ≡ some r
      → is_some r.deleted_at ≡ false
      → counts_of u d ≡ (
        ok (record {
          followers = pos (count (follows_to u) d.follows);
          posts = count (live_by u) d.posts;
        }),
        d,
      )
  unfolding counts_of counts_from find_profile live_profile to_profile count_by_author ◌>>=◌
  counts_of-count v found open_profile =
      let same = find-holds (profile_id u) d.profiles r found in
      let shown =
        All-find (FollowersMatch d.follows) (profile_id u) d.profiles r v.counted.followers found in
      rw found (rw open_profile (rw shown (rw (==→eq r.id u same) refl)))
