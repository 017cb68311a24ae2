-- ===== src/Activity.antt =====
-- The listings of activity: the feed (app/repositories/feed.py) and the activity of a profile
-- (app/repositories/profile_posts.py). Both join posts and retweets to the posts that they show, and
-- page by the position of an activity.
pub mod Shown
pub mod Positions
pub mod Scrolling
use udesa_x_posts_api.Common.{
  ℕ, String, Option, none, some, is_some, Bool, true, false, ◌&&◌, not, List, [], ◌∷◌, ◌++◌, map,
  ◌==◌,
}
use udesa_x_posts_api.Common.Rows.{select, exists, gather}
use udesa_x_posts_api.Models.{PostWithAuthor}
use udesa_x_posts_api.Database.{Db, UserProfileRow, PostRow, RetweetRow, FollowRow}
use udesa_x_posts_api.Follows.{profile_id, pair_of}
use udesa_x_posts_api.Mutes.{mute_pair}
use udesa_x_posts_api.FeedLanguage.{in_feed_language_of}
use udesa_x_posts_api.Posts.{post_id, visible_to, liked_by, retweeted_by, to_post_with_author}
use udesa_x_posts_api.Pagination.{Listing, apply_cursor, page_of}
use udesa_x_posts_api.Pagination.Orders.{FeedCursor, by_activity}

-- A row of the subquery `activity`.
pub record Activity : Type 0 where
  pub post : ℕ
  pub activity_at : ℕ
  pub kind : ℕ
  pub actor_id : ℕ
  pub shared_by : Option String

abbrev pub original : PostRow → Activity
original p = record {
  post = p.id;
  activity_at = p.created_at;
  kind = 0;
  actor_id = p.author_id;
  shared_by = none;
}

abbrev pub share : RetweetRow → UserProfileRow → Activity
share t sharer = record {
  post = t.post_id;
  activity_at = t.created_at;
  kind = 1;
  actor_id = t.user_id;
  shared_by = sharer.handle;
}

-- A row of the whole statement: the post, its author, and the activity that shows it.
pub record ActivityRow : Type 0 where
  pub post : PostRow
  pub author : UserProfileRow
  pub activity : Activity

-- `PostWithAuthor` with the fields that only a listing of activity fills.
pub record ActivityItem : Type 0 where
  pub post : PostWithAuthor
  pub activity_at : ℕ
  pub retweeted_by : Option String
  pub retweeter_id : Option ℕ

abbrev pub is_reply : PostRow → Bool
is_reply p = is_some p.parent_id

-- `originals` of the feed: the posts, not replies, of the accounts that the viewer follows.
abbrev pub feed_original : ℕ → Db → PostRow → List Activity
feed_original viewer d p = map (λ f. original p) (select (pair_of viewer p.author_id) d.follows)

unfoldable pub feed_originals : ℕ → Db → List Activity
feed_originals viewer d = gather (feed_original viewer d) (select (λ p. not (is_reply p)) d.posts)

-- `shares` of the feed: the retweets of accounts that the viewer follows, may read and did not mute.
abbrev pub shares_with : ℕ → Db → UserProfileRow → Bool
shares_with viewer d sharer =
    visible_to viewer sharer false d && not (exists (mute_pair viewer sharer.id) d.mutes)

abbrev pub feed_share : ℕ → Db → RetweetRow → UserProfileRow → List Activity
feed_share viewer d t sharer =
    map (λ f. share t sharer) (select (pair_of viewer t.user_id) d.follows)

abbrev pub feed_share_of : ℕ → Db → RetweetRow → List Activity
feed_share_of viewer d t =
    gather (feed_share viewer d t)
      (select (λ s. s.id == t.user_id && shares_with viewer d s) d.profiles)

unfoldable pub feed_shares : ℕ → Db → List Activity
feed_shares viewer d = gather (feed_share_of viewer d) d.retweets

-- `originals` and `shares` of a profile.
unfoldable pub profile_originals : ℕ → Db → List Activity
profile_originals author d =
    map original (select (λ p. p.author_id == author && not (is_reply p)) d.posts)

abbrev pub profile_share_of : Db → RetweetRow → List Activity
profile_share_of d t = map (share t) (select (profile_id t.user_id) d.profiles)

unfoldable pub profile_shares : ℕ → Db → List Activity
profile_shares author d = gather (profile_share_of d) (select (λ t. t.user_id == author) d.retweets)

-- What both statements ask of a post and its author.
abbrev pub is_readable : ℕ → Db → PostRow → UserProfileRow → Bool
is_readable viewer d p author =
    not (is_some p.deleted_at) && visible_to viewer author (is_reply p) d

-- What the feed asks: not by a muted account, and in the language of the viewer.
abbrev pub is_in_feed : ℕ → Db → PostRow → UserProfileRow → Bool
is_in_feed viewer d p author =
    is_readable viewer d p author
    && (not (exists (mute_pair viewer p.author_id) d.mutes) && in_feed_language_of viewer p d)

-- The joins of the statements: the post of the activity, and its author, under a condition.
abbrev pub with_author :
    (PostRow → UserProfileRow → Bool) → Db → Activity → PostRow → List ActivityRow
with_author shows d a p =
    map (λ author. record { post = p; author = author; activity = a })
      (select (λ author. author.id == p.author_id && shows p author) d.profiles)

abbrev pub with_post : (PostRow → UserProfileRow → Bool) → Db → Activity → List ActivityRow
with_post shows d a = gather (with_author shows d a) (select (post_id a.post) d.posts)

unfoldable pub feed_rows : ℕ → Db → List ActivityRow
unfolding feed_originals feed_shares
feed_rows viewer d =
    gather (with_post (is_in_feed viewer d) d) (feed_originals viewer d ++ feed_shares viewer d)

unfoldable pub profile_rows : ℕ → ℕ → Db → List ActivityRow
unfolding profile_originals profile_shares
profile_rows author viewer d =
    gather (with_post (is_readable viewer d) d)
      (profile_originals author d ++ profile_shares author d)

-- `position`, newest first.
abbrev pub newest_activity : Listing
newest_activity = record {
  Row = ActivityRow;
  order = by_activity;
  key = λ r. record {
    at = r.activity.activity_at;
    post_id = r.activity.post;
    kind = r.activity.kind;
    actor_id = r.activity.actor_id;
  };
  ascending = false;
}

unfoldable pub activity_item : ℕ → Db → ActivityRow → ActivityItem
activity_item viewer d r = record {
  post =
      to_post_with_author r.post r.author (liked_by viewer r.post.id d)
        (retweeted_by viewer r.post.id d);
  activity_at = r.activity.activity_at;
  retweeted_by = r.activity.shared_by;
  retweeter_id = elim (r.activity.kind == 0) [ true ↦ none | false ↦ some r.activity.actor_id ];
}

abbrev pub page_after :
    Option FeedCursor → ℕ → List ActivityRow → List ActivityRow × Option FeedCursor
page_after cursor limit rows =
    page_of newest_activity limit (apply_cursor newest_activity cursor limit rows)

-- `FeedRepository.for_viewer`
unfoldable pub for_viewer : ℕ → Option FeedCursor → ℕ → Db → List ActivityItem × Option FeedCursor
unfolding feed_rows activity_item page_of apply_cursor
for_viewer viewer cursor limit d =
    let (rows, next) = page_after cursor limit (feed_rows viewer d) in
    (map (activity_item viewer d) rows, next)

-- `ProfilePostRepository.by_author`
unfoldable pub by_author :
    ℕ → ℕ → Option FeedCursor → ℕ → Db → List ActivityItem × Option FeedCursor
unfolding profile_rows activity_item page_of apply_cursor
by_author author viewer cursor limit d =
    let (rows, next) = page_after cursor limit (profile_rows author viewer d) in
    (map (activity_item viewer d) rows, next)
