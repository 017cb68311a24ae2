-- ===== src/Posts/Keeping.antt =====
-- The services of posts, likes and retweets keep the tallies.
use udesa_x_posts_api.Common.{ℕ, ◌≡◌, refl, Option, none, some, is_some, true, false, arith}
use udesa_x_posts_api.Common.Lists.{All}
use udesa_x_posts_api.Common.Rows.{exists, find, find-some, find-count, find-holds, All-of_count}
use udesa_x_posts_api.Common.Action.Rules.{
  Post, post_pure, post_if, post_call, post_read, post_need, post_raise_if, post_check, post_write,
  post_modify, post_expect,
}
use udesa_x_posts_api.Models.{Account, PostWithAuthor}
use udesa_x_posts_api.Database.{Db, PostRow, UserProfileRow}
use udesa_x_posts_api.Follows.{ensure_profile, insert_profile, get_profile}
use udesa_x_posts_api.Posts.{
  post_id, live_post, find_visible, lock_visible, visible_post, visible_row, to_post_with_author,
}
use udesa_x_posts_api.Posts.Tallies.{IsTallied}
use udesa_x_posts_api.Likes.{readable}

-- The bootstrap of a profile touches no post.
pub ensure_profile-IsTallied :
    (account : Account) (d : Db)
    → IsTallied d
    → Post (λ _ e. IsTallied e) (ensure_profile account d)
unfolding ensure_profile insert_profile get_profile
ensure_profile-IsTallied account d v =
    post_call (λ _ e. IsTallied e) _ _ d
      (post_read _ _ d (
        post_if _ _ _ d (λ there. post_pure tt d v)
          λ new. post_read _ _ d (
            post_check _ _ d λ free.
              post_modify _ d
                (record { threaded = v.threaded; likes = v.likes; retweets = v.retweets }))))
      λ _ d1 v1.
        post_call (λ _ e. IsTallied e) _ _ d1 (post_read _ _ d1 (post_expect _ d1 λ r h. v1))
          λ row d2 v2. post_read _ _ d2 (
            post_check _ _ d2 λ free. post_write _ _ d2 (
              post_pure _ _
                (record { threaded = v2.threaded; likes = v2.likes; retweets = v2.retweets })))

-- A post that is there and not deleted, and so is every row with its identifier.
pub record HasLive (p : ℕ) (d : Db) : Type 0 where
  pub tallied : IsTallied d
  pub there : exists (post_id p) d.posts ≡ true
  pub live : All (λ r. post_id p r ≡ true → live_post p r ≡ true) d.posts

visible_row-deleted :
    (viewer : ℕ) (d : Db) (r : PostRow) (author : Option UserProfileRow) (post : PostWithAuthor)
    → visible_row viewer true d r author ≡ some post
    → post.deleted ≡ is_some r.deleted_at
unfolding visible_row to_post_with_author
visible_row-deleted viewer d r none post h = cc
visible_row-deleted viewer d r (some author) post h = ground arith

HasLive-of_post :
    (p viewer : ℕ) (d : Db) (found : Option PostRow) (post : PostWithAuthor)
    → IsTallied d
    → find (post_id p) d.posts ≡ found
    → visible_post viewer true d found ≡ some post
    → post.deleted ≡ false
    → HasLive p d
unfolding visible_post
HasLive-of_post p viewer d none post v e h kept = cc
HasLive-of_post p viewer d (some r) post v e h kept = record {
  tallied = v;
  there = ground (arith, find-some (post_id p) d.posts r e);
  live =
      All-of_count (post_id p) (live_post p) (λ x i. ground arith) d.posts
        (ground (
          arith,
          v.threaded.post_once p,
          find-count (post_id p) (live_post p) d.posts r e (
              ground (
                arith,
                find-holds (post_id p) d.posts r e,
                visible_row-deleted viewer d r _ post h,
              )),
        ));
}

-- A post that the viewer may read and that is not deleted.
pub readable-HasLive :
    (p viewer : ℕ) (d : Db) → IsTallied d → Post (λ _ e. HasLive p e) (readable p viewer d)
unfolding readable lock_visible find_visible
readable-HasLive p viewer d v = post_read _ _ d (
    post_need _ _ _ d
      λ post h. post_raise_if _ _ d λ kept. HasLive-of_post p viewer d _ post v refl h kept)
