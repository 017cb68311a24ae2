-- ===== src/Posts/Outcomes.antt =====
-- What publishing a post, marking it and taking the mark back leave behind.
use udesa_x_posts_api.Common.{
  ℕ, ◌≤◌, ◌<◌, ◌≡◌, Option, none, some, Bool, true, false, arith, List, length, if◌then◌else◌,
}
use udesa_x_posts_api.Common.Rows.{find, count-delete_all}
use udesa_x_posts_api.Common.Action.Rules.{
  Post, post_pure, post_if, post_call, post_read, post_need, post_check, post_write, post_modify,
  post_raise_if, post_weaken,
}
use udesa_x_posts_api.Models.{Account}
use udesa_x_posts_api.Database.{Db, PostRow, PostLanguage, Tick}
use udesa_x_posts_api.Follows.Outcomes.{ensure_profile-others}
use udesa_x_posts_api.Posts.{
  post_id, like_pair, retweet_pair, liked_by, retweeted_by, find_visible, lock_visible, add_reply,
}
use udesa_x_posts_api.Posts.Content.{sanitize}
use udesa_x_posts_api.Likes.{readable, add_like, remove_like, move_like_counter, like, unlike}
use udesa_x_posts_api.Retweets.{
  add_retweet, remove_retweet, move_retweet_counter, retweet, unretweet,
}

-- The row of a post holds what the call returns of it, and is not deleted.
pub record IsRowOf (post : udesa_x_posts_api.Models.Post) (language : PostLanguage) (r : PostRow)
    : Type 0 where
  pub same_author : r.author_id ≡ post.author_id
  pub same_parent : r.parent_id ≡ post.parent_id
  pub same_content : r.content ≡ post.content
  pub same_instant : r.created_at ≡ post.created_at
  pub in_language : r.language ≡ some language
  pub live : r.deleted_at ≡ none

-- The post that a call returns belongs to its author, answers the post it was meant for, its text is
-- the sanitized one, of 1 to 280 characters, and the row under its identifier is that of this post.
pub record IsPublished (author : ℕ) (content : List ℕ) (language : PostLanguage) (parent : Option ℕ)
    (post : udesa_x_posts_api.Models.Post) (e : Db) : Type 0 where
  pub row : PostRow
  pub stored : find (post_id post.id) e.posts ≡ some row
  pub row_of : IsRowOf post language row
  pub by_author : post.author_id ≡ author
  pub answers : post.parent_id ≡ parent
  pub sanitized : post.content ≡ sanitize content
  pub not_blank : 0 < length post.content
  pub fits : length post.content ≤ 280

abbrev counted : Bool → PostRow → PostRow
counted b r = if b then add_reply r else r

readable-returns : (p viewer : ℕ) (d : Db) → Post (λ _ _. Unit) (readable p viewer d)
unfolding readable lock_visible find_visible
readable-returns p viewer d =
    post_read _ _ d (post_need _ _ _ d λ post found. post_raise_if post.deleted _ d λ kept. tt)

module _ (t : Tick) (viewer : Account) (p : ℕ) (d : Db) where
  like-present : Post (λ _ e. liked_by viewer.id p e ≡ true) (like t viewer p d)
  unfolding like add_like liked_by move_like_counter
  like-present =
      post_call (λ _ _. Unit) _ _ d
        (post_weaken _ _ _ (ensure_profile-others viewer d) (λ _ _ _. tt))
        λ _ d1 _.
          post_call (λ _ _. Unit) _ _ d1 (readable-returns p viewer.id d1)
            λ _ d2 _.
              post_call (λ _ e. liked_by viewer.id p e ≡ true) _ _ d2
                (post_read _ _ d2 (
                  post_if _ _ _ d2 (λ there. post_pure false d2 there)
                    λ new. post_read _ _ d2 (
                      post_check _ _ d2
                        λ accepted. post_write _ _ d2 (post_pure true _ (ground arith)))))
                λ added d3 h.
                  post_if _ _ _ d3 (λ new. post_modify _ d3 h) (λ old. post_pure tt d3 h)

  retweet-present : Post (λ _ e. retweeted_by viewer.id p e ≡ true) (retweet t viewer p d)
  unfolding retweet add_retweet retweeted_by move_retweet_counter
  retweet-present =
      post_call (λ _ _. Unit) _ _ d
        (post_weaken _ _ _ (ensure_profile-others viewer d) (λ _ _ _. tt))
        λ _ d1 _.
          post_call (λ _ _. Unit) _ _ d1 (readable-returns p viewer.id d1)
            λ _ d2 _.
              post_call (λ _ e. retweeted_by viewer.id p e ≡ true) _ _ d2
                (post_read _ _ d2 (
                  post_if _ _ _ d2 (λ there. post_pure false d2 there)
                    λ new. post_read _ _ d2 (
                      post_check _ _ d2
                        λ accepted. post_write _ _ d2 (post_pure true _ (ground arith)))))
                λ added d3 h.
                  post_if _ _ _ d3 (λ new. post_write _ _ d3 (post_pure true _ h))
                    (λ old. post_pure false d3 h)

  unlike-absent : Post (λ _ e. liked_by viewer.id p e ≡ false) (unlike viewer p d)
  unfolding unlike liked_by remove_like move_like_counter
  unlike-absent =
      post_call (λ _ _. Unit) _ _ d (readable-returns p viewer.id d)
        λ _ d1 _.
          let gone =
            count-delete_all (like_pair viewer.id p) (like_pair viewer.id p) (λ r h. h) d1.likes in
          post_call (λ _ e. liked_by viewer.id p e ≡ false) _ _ d1 (record { holds = ground arith })
            λ removed d2 h.
              post_if _ _ _ d2 (λ there. post_modify _ d2 h) (λ absent. post_pure tt d2 h)

  unretweet-absent : Post (λ _ e. retweeted_by viewer.id p e ≡ false) (unretweet viewer p d)
  unfolding unretweet retweeted_by remove_retweet move_retweet_counter
  unretweet-absent =
      post_call (λ _ _. Unit) _ _ d (readable-returns p viewer.id d)
        λ _ d1 _.
          let gone =
            count-delete_all (retweet_pair viewer.id p) (retweet_pair viewer.id p) (λ r h. h)
              d1.retweets in
          post_call (λ _ e. retweeted_by viewer.id p e ≡ false) _ _ d1
            (record { holds = ground arith })
            λ removed d2 h.
              post_if _ _ _ d2 (λ there. post_modify _ d2 h) (λ absent. post_pure tt d2 h)

  -- A like or a retweet that returns is on record, whether or not it was before, and one that is
  -- taken back is not.
  marks-toggle :
      (Post (λ _ e. liked_by viewer.id p e ≡ true) (like t viewer p d))
      × (Post (λ _ e. liked_by viewer.id p e ≡ false) (unlike viewer p d))
      × (Post (λ _ e. retweeted_by viewer.id p e ≡ true) (retweet t viewer p d))
      × (Post (λ _ e. retweeted_by viewer.id p e ≡ false) (unretweet viewer p d))
  marks-toggle = (like-present, unlike-absent, retweet-present, unretweet-absent)
