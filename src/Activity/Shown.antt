-- ===== src/Activity/Shown.antt =====
-- What the listings of activity show, and to whom.
use udesa_x_posts_api.Common.{
  ℕ, suc, ◌≡◌, refl, Option, is_some, Bool, true, false, ◌&&◌, not, List, [], ◌∷◌, ◌++◌, ◌==◌,
  arith, Bool-cases, ◌⊎◌, inl, inr, ==→eq,
}
use mathlib.Core.List.{Memᴰ}
use udesa_x_posts_api.Common.Lists.{All, All-weaken, All-map, All-take, All-append}
use udesa_x_posts_api.Common.Rows.{select, exists, All-gather}
use udesa_x_posts_api.Database.{Db, UserProfileRow, PostRow, RetweetRow}
use udesa_x_posts_api.Follows.{pair_of}
use udesa_x_posts_api.Mutes.{mute_pair}
use udesa_x_posts_api.FeedLanguage.{in_feed_language_of}
use udesa_x_posts_api.Posts.{post_id, visible_to, blocked_either_way}
use udesa_x_posts_api.Pagination.{apply_cursor, page_of, is_past}
use udesa_x_posts_api.Pagination.Orders.{FeedCursor}
use udesa_x_posts_api.Pagination.Sorted.{All-order_by}
use udesa_x_posts_api.Pagination.Lists.{All-self, All-select_of, select-members}
use udesa_x_posts_api.Activity.{
  Activity, ActivityRow, original, share, is_reply, feed_original, feed_originals, shares_with,
  feed_share, feed_share_of, feed_shares, is_readable, is_in_feed, with_author, with_post,
  feed_rows, newest_activity, activity_item, page_after, for_viewer,
}

-- The row satisfies a condition, and so it does in every page of the listing.
page_after-All :
    (P : ActivityRow → Type 0) (cursor : Option FeedCursor) (limit : ℕ) (rows : List ActivityRow)
    → All P rows
    → All P (page_after cursor limit rows).0
unfolding page_of apply_cursor
page_after-All P cursor limit rows h = All-take P limit _ (
    All-take P (suc limit) _ (
      All-order_by newest_activity P (select (is_past newest_activity cursor) rows)
        (All-select_of P (is_past newest_activity cursor) rows h)))

-- An activity of the tables: a post that is no reply, or a retweet by an account that the viewer may
-- read and did not mute, and that no block separates from the viewer.
pub record IsPosted (d : Db) (a : Activity) : Type 0 where
  pub post : PostRow
  pub post_in : Memᴰ post d.posts
  pub no_reply : is_reply post ≡ false
  pub is_original : a ≡ original post

pub record IsShared (viewer : ℕ) (d : Db) (a : Activity) : Type 0 where
  pub retweet : RetweetRow
  pub retweet_in : Memᴰ retweet d.retweets
  pub sharer : UserProfileRow
  pub sharer_in : Memᴰ sharer d.profiles
  pub is_share : a ≡ share retweet sharer
  pub same_sharer : sharer.id ≡ retweet.user_id
  pub readable_sharer : visible_to viewer sharer false d ≡ true
  pub unmuted_sharer : exists (mute_pair viewer sharer.id) d.mutes ≡ false
  pub unblocked_sharer : blocked_either_way viewer sharer.id d ≡ false

-- What an activity that a viewer reads comes from, by an account that the viewer follows.
pub record IsFollowed (viewer : ℕ) (d : Db) (a : Activity) : Type 0 where
  pub comes_from : IsPosted d a ⊎ IsShared viewer d a
  pub followed : exists (pair_of viewer a.actor_id) d.follows ≡ true

-- A row that the feed may show, of the tables: the post is the one of the activity and of its author,
-- is not deleted, is by nobody that the viewer muted or that a block separates from the viewer, and is in
-- the language that the viewer reads.
pub record IsAllowed (viewer : ℕ) (d : Db) (r : ActivityRow) : Type 0 where
  pub activity_of : IsFollowed viewer d r.activity
  pub post_in : Memᴰ r.post d.posts
  pub author_in : Memᴰ r.author d.profiles
  pub same_post : (r.post.id == r.activity.post) ≡ true
  pub same_author : (r.author.id == r.post.author_id) ≡ true
  pub live : is_some r.post.deleted_at ≡ false
  pub readable : visible_to viewer r.author (is_reply r.post) d ≡ true
  pub unblocked : blocked_either_way viewer r.author.id d ≡ false
  pub unmuted : exists (mute_pair viewer r.post.author_id) d.mutes ≡ false
  pub in_language : in_feed_language_of viewer r.post d ≡ true

and_left : (a b : Bool) → (a && b) ≡ true → a ≡ true
and_left a b h = ground (arith, h)

and_right : (a b : Bool) → (a && b) ≡ true → b ≡ true
and_right a b h = ground (arith, h)

not-true : (a : Bool) → not a ≡ true → a ≡ false
not-true a h = ground (arith, h)

pub visible_to-unblocked :
    (viewer : ℕ) (author : UserProfileRow) (reply : Bool) (d : Db)
    → visible_to viewer author reply d ≡ true
    → blocked_either_way viewer author.id d ≡ false
unfolding visible_to
visible_to-unblocked viewer author reply d h =
    not-true (blocked_either_way viewer author.id d) (and_left _ _ (and_right _ _ h))

exists-select :
    {A : Type 0} (p : A → Bool) (xs : List A) → All (λ x. exists p xs ≡ true) (select p xs)
exists-select p [] = tt
exists-select p (x ∷ xs) = elim (Bool-cases (p x)) [
  | inl keeps ↦ rw keeps (
    ground (arith, keeps),
    All-weaken _ _ (λ y h. ground (arith, keeps)) (select p xs) (exists-select p xs),
  )
  | inr drops ↦
      rw drops (All-weaken _ _ (λ y h. ground (arith, h)) (select p xs) (exists-select p xs))
]

module _ (viewer : ℕ) (d : Db) where
  original-IsFollowed :
      (p : PostRow)
      → Memᴰ p d.posts
      → is_reply p ≡ false
      → exists (pair_of viewer p.author_id) d.follows ≡ true
      → IsFollowed viewer d (original p)
  original-IsFollowed p there top h = record {
    comes_from = inl (record { post = p; post_in = there; no_reply = top; is_original = refl });
    followed = h;
  }

  feed_originals-All : All (IsFollowed viewer d) (feed_originals viewer d)
  unfolding feed_originals
  feed_originals-All =
      All-gather (IsFollowed viewer d) (λ p. Memᴰ p d.posts × (not (is_reply p) ≡ true))
        (feed_original viewer d)
        (λ p (there, top).
          All-map _ _ (λ f. original p)
            (λ f k. original-IsFollowed p there (not-true (is_reply p) top) k)
            (select (pair_of viewer p.author_id) d.follows)
            (exists-select (pair_of viewer p.author_id) d.follows))
        (select (λ p. not (is_reply p)) d.posts) (select-members (λ p. not (is_reply p)) d.posts)

  share-IsFollowed :
      (t : RetweetRow) (sharer : UserProfileRow)
      → Memᴰ t d.retweets
      → Memᴰ sharer d.profiles
      → (sharer.id == t.user_id && shares_with viewer d sharer) ≡ true
      → exists (pair_of viewer t.user_id) d.follows ≡ true
      → IsFollowed viewer d (share t sharer)
  share-IsFollowed t sharer there known h k =
      let shares : shares_with viewer d sharer ≡ true =
        and_right (sharer.id == t.user_id) (shares_with viewer d sharer) h in
      let muted = exists (mute_pair viewer sharer.id) d.mutes in
      let readable : visible_to viewer sharer false d ≡ true = and_left _ (not muted) shares in
      record {
        comes_from = inr (record {
          retweet = t;
          retweet_in = there;
          sharer = sharer;
          sharer_in = known;
          is_share = refl;
          same_sharer =
              ==→eq sharer.id t.user_id
                (and_left (sharer.id == t.user_id) (shares_with viewer d sharer) h);
          readable_sharer = readable;
          unmuted_sharer =
              not-true muted (and_right (visible_to viewer sharer false d) (not muted) shares);
          unblocked_sharer = visible_to-unblocked viewer sharer false d readable;
        });
        followed = k;
      }

  feed_shares-All : All (IsFollowed viewer d) (feed_shares viewer d)
  unfolding feed_shares
  feed_shares-All =
      All-gather (IsFollowed viewer d) (λ t. Memᴰ t d.retweets) (feed_share_of viewer d)
        (λ t there.
          All-gather (IsFollowed viewer d) _ (feed_share viewer d t)
            (λ sharer (known, k).
              All-map _ _ (λ f. share t sharer) (λ f m. share-IsFollowed t sharer there known k m)
                (select (pair_of viewer t.user_id) d.follows)
                (exists-select (pair_of viewer t.user_id) d.follows))
            (select (λ s. s.id == t.user_id && shares_with viewer d s) d.profiles)
            (select-members (λ s. s.id == t.user_id && shares_with viewer d s) d.profiles))
        d.retweets (All-self d.retweets)

  row-IsAllowed :
      (a : Activity) (p : PostRow) (author : UserProfileRow)
      → IsFollowed viewer d a
      → Memᴰ p d.posts
      → Memᴰ author d.profiles
      → (p.id == a.post) ≡ true
      → (author.id == p.author_id && is_in_feed viewer d p author) ≡ true
      → IsAllowed viewer d (record { post = p; author = author; activity = a })
  row-IsAllowed a p author follows there known same h =
      let readable = visible_to viewer author (is_reply p) d in
      let unmuted = not (exists (mute_pair viewer p.author_id) d.mutes) in
      let language = in_feed_language_of viewer p d in
      let shows : is_in_feed viewer d p author ≡ true = and_right (author.id == p.author_id) _ h in
      let first : is_readable viewer d p author ≡ true = and_left _ (unmuted && language) shows in
      let second : (unmuted && language) ≡ true =
        and_right (is_readable viewer d p author) (unmuted && language) shows in
      let visible : readable ≡ true = and_right (not (is_some p.deleted_at)) readable first in
      record {
        activity_of = follows;
        post_in = there;
        author_in = known;
        same_post = same;
        same_author = and_left _ (is_in_feed viewer d p author) h;
        live = not-true (is_some p.deleted_at) (and_left _ readable first);
        readable = visible;
        unblocked = visible_to-unblocked viewer author (is_reply p) d visible;
        unmuted = not-true _ (and_left unmuted language second);
        in_language = and_right unmuted language second;
      }

  feed_rows-All : All (IsAllowed viewer d) (feed_rows viewer d)
  unfolding feed_rows
  feed_rows-All =
      All-gather (IsAllowed viewer d) (IsFollowed viewer d) (with_post (is_in_feed viewer d) d)
        (λ a follows.
          All-gather (IsAllowed viewer d) _ (with_author (is_in_feed viewer d) d a)
            (λ p (there, same).
              All-map _ _ _
                (λ author (known, h). row-IsAllowed a p author follows there known same h)
                (select (λ author. author.id == p.author_id && is_in_feed viewer d p author)
                  d.profiles)
                (select-members (λ author. author.id == p.author_id && is_in_feed viewer d p author)
                  d.profiles))
            (select (post_id a.post) d.posts) (select-members (post_id a.post) d.posts))
        (feed_originals viewer d ++ feed_shares viewer d)
        (All-append (IsFollowed viewer d) (feed_originals viewer d) (feed_shares viewer d)
          feed_originals-All feed_shares-All)

  -- On every page of the feed, each item is that of a row of the tables that the feed may show: of an activity of an
  -- account that the viewer follows, the sharer neither muted nor separated by a block; of a post that
  -- is not deleted, in the language of the viewer, whose author lets the viewer read it, is not muted
  -- and is not separated by a block.
  pub for_viewer-IsAllowed :
      (cursor : Option FeedCursor) (limit : ℕ)
      → All
          (λ i. (r : ActivityRow) × ((i ≡ activity_item viewer d r) × IsAllowed viewer d r))
          (for_viewer viewer cursor limit d).0
  unfolding for_viewer
  for_viewer-IsAllowed cursor limit =
      All-map (IsAllowed viewer d) _ (activity_item viewer d) (λ r h. (r, (refl, h))) _
        (page_after-All (IsAllowed viewer d) cursor limit (feed_rows viewer d) feed_rows-All)
