-- ===== src/Activity/Positions.antt =====
-- The position of an activity tells the rows of the feed apart, by the keys of the tables.
use udesa_x_posts_api.Common.{
  ℕ, ◌≤◌, ◌≡◌, refl, Bool, ◌&&◌, not, List, [], ◌∷◌, ◌++◌, ◌==◌, arith, if◌then◌else◌,
}
use udesa_x_posts_api.Common.Lists.{All}
use udesa_x_posts_api.Common.Rows.{select, count}
use udesa_x_posts_api.Common.Joins.{
  count-append, length-select, count-select, count_guarded, count-gather, count_map, count_gather,
}
use udesa_x_posts_api.Database.{Db, UserProfileRow, PostRow, RetweetRow, FollowRow}
use udesa_x_posts_api.Follows.{profile_id, pair_of}
use udesa_x_posts_api.Posts.{post_id, retweet_pair}
use udesa_x_posts_api.Pagination.Orders.{FeedCursor, same_activity}
use udesa_x_posts_api.Pagination.Sorted.{AreApart, AreDistinct}
use udesa_x_posts_api.Activity.{
  Activity, ActivityRow, original, is_reply, feed_original, feed_originals, shares_with, feed_share,
  feed_share_of, feed_shares, is_in_feed, with_author, with_post, feed_rows, newest_activity,
}

-- The primary keys of the tables that the feed joins.
pub record AreKeyed (d : Db) : Type 0 where
  pub profile_once : (u : ℕ) → count (profile_id u) d.profiles ≤ 1
  pub post_once : (p : ℕ) → count (post_id p) d.posts ≤ 1
  pub follow_once : (a b : ℕ) → count (pair_of a b) d.follows ≤ 1
  pub retweet_once : (u p : ℕ) → count (retweet_pair u p) d.retweets ≤ 1

-- The activity, or the row, is at this position.
abbrev is_at : FeedCursor → Activity → Bool
is_at k a =
    same_activity
      (record { at = a.activity_at; post_id = a.post; kind = a.kind; actor_id = a.actor_id }) k

abbrev row_is_at : FeedCursor → ActivityRow → Bool
row_is_at k r = is_at k r.activity

module _ (viewer : ℕ) (d : Db) (keyed : AreKeyed d) (k : FeedCursor) where
  count-with_post :
      (a : Activity)
      → count (row_is_at k) (with_post (is_in_feed viewer d) d a) ≤ (if is_at k a then 1 else 0)
  count-with_post a =
      count_gather (row_is_at k) (is_at k a) (with_author (is_in_feed viewer d) d a)
        (λ p.
          count_map (row_is_at k) _ (is_at k a) (λ author. refl)
            (select (λ author. author.id == p.author_id && is_in_feed viewer d p author) d.profiles)
            (omega (
              arith,
              keyed.profile_once p.author_id,
              length-select (λ author. author.id == p.author_id && is_in_feed viewer d p author)
                  (profile_id p.author_id) (λ author h. ground (arith, h)) d.profiles,
            )))
        (select (post_id a.post) d.posts)
        (omega (
          arith,
          keyed.post_once a.post,
          length-select (post_id a.post) (post_id a.post) (λ p h. h) d.posts,
        ))

  count-feed_original :
      (p : PostRow)
      → count (is_at k) (feed_original viewer d p)
        ≤ (if (k.kind == 0) && post_id k.post_id p then 1 else 0)
  count-feed_original p =
      let one = select (pair_of viewer p.author_id) d.follows in
      let counted =
        count_map (is_at k) (λ (f : FollowRow). original p) (is_at k (original p)) (λ f. refl) one
          (omega (
            arith,
            keyed.follow_once viewer p.author_id,
            length-select (pair_of viewer p.author_id) (pair_of viewer p.author_id) (λ f h. h)
                d.follows,
          )) in
      ground (arith, counted)

  -- Only the post of the position gives an original there.
  count-feed_originals : count (is_at k) (feed_originals viewer d) ≤ (if k.kind == 0 then 1 else 0)
  unfolding feed_originals
  count-feed_originals =
      let here : PostRow → Bool = λ p. (k.kind == 0) && post_id k.post_id p in
      omega (
        arith,
        count-gather (is_at k) here (feed_original viewer d) count-feed_original
            (select (λ p. not (is_reply p)) d.posts),
        count-select (λ p. not (is_reply p)) here d.posts,
        count_guarded (k.kind == 0) (post_id k.post_id) d.posts (keyed.post_once k.post_id),
      )

  count-feed_share_of :
      (t : RetweetRow)
      → count (is_at k) (feed_share_of viewer d t)
        ≤ (if (k.kind == 1) && retweet_pair k.actor_id k.post_id t then 1 else 0)
  count-feed_share_of t =
      let follows = select (pair_of viewer t.user_id) d.follows in
      let shows : UserProfileRow → Bool = λ s. s.id == t.user_id && shares_with viewer d s in
      let at_t =
        same_activity
          (record { at = t.created_at; post_id = t.post_id; kind = 1; actor_id = t.user_id }) k in
      let counted : count (is_at k) (feed_share_of viewer d t) ≤ (if at_t then 1 else 0) =
        count_gather (is_at k) at_t (feed_share viewer d t)
          (λ sharer.
            count_map (is_at k) _ at_t (λ f. refl) follows
              (omega (
                arith,
                keyed.follow_once viewer t.user_id,
                length-select (pair_of viewer t.user_id) (pair_of viewer t.user_id) (λ f h. h)
                    d.follows,
              )))
          (select shows d.profiles)
          (omega (
            arith,
            keyed.profile_once t.user_id,
            length-select shows (profile_id t.user_id) (λ s h. ground (arith, h)) d.profiles,
          )) in
      ground (arith, counted)

  -- Only the retweet of the position gives a share there.
  count-feed_shares : count (is_at k) (feed_shares viewer d) ≤ (if k.kind == 1 then 1 else 0)
  unfolding feed_shares
  count-feed_shares = omega (
    arith,
    count-gather (is_at k) (λ t. (k.kind == 1) && retweet_pair k.actor_id k.post_id t)
        (feed_share_of viewer d) count-feed_share_of d.retweets,
    count_guarded (k.kind == 1) (retweet_pair k.actor_id k.post_id) d.retweets
        (keyed.retweet_once k.actor_id k.post_id),
  )

  -- At most one row of the feed is at a position.
  pub count-feed_rows : count (row_is_at k) (feed_rows viewer d) ≤ 1
  unfolding feed_rows
  count-feed_rows = ground (
    arith,
    count-gather (row_is_at k) (is_at k) (with_post (is_in_feed viewer d) d) count-with_post
        (feed_originals viewer d ++ feed_shares viewer d),
    count-append (is_at k) (feed_originals viewer d) (feed_shares viewer d),
    count-feed_originals,
    count-feed_shares,
  )

-- Rows of which no two are at one position differ in their columns.
apart_of :
    (x : ActivityRow) (xs : List ActivityRow)
    → count (row_is_at (newest_activity.key x)) xs ≡ 0
    → All (AreApart newest_activity x) xs
apart_of x [] h = tt
apart_of x (y ∷ ys) h = ((ground (arith, h), ground (arith, h)), apart_of x ys (ground (arith, h)))

distinct_of :
    (rows : List ActivityRow)
    → ((k : FeedCursor) → count (row_is_at k) rows ≤ 1)
    → AreDistinct newest_activity rows
distinct_of [] h = tt
distinct_of (x ∷ xs) h = (
  apart_of x xs (ground (arith, h (newest_activity.key x))),
  distinct_of xs (λ k. ground (arith, h k)),
)

pub feed_rows-AreDistinct :
    (viewer : ℕ) (d : Db) → AreKeyed d → AreDistinct newest_activity (feed_rows viewer d)
feed_rows-AreDistinct viewer d keyed =
    distinct_of (feed_rows viewer d) (λ k. count-feed_rows viewer d keyed k)
