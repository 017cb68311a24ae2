-- ===== src/Posts/Privacy.antt =====
-- A block in either direction hides a post from every call that reads or marks it.
use udesa_x_posts_api.Common.{ℕ, ◌≡◌, refl, Option, none, some, true, arith, ◌==◌, List}
use udesa_x_posts_api.Common.Rows.{find, find-holds}
use udesa_x_posts_api.Common.Action.Rules.{
  Post, post_call, post_read, post_need, post_require, post_never,
}
use udesa_x_posts_api.Models.{Account}
use udesa_x_posts_api.Database.{Db, PostRow, UserProfileRow, PostLanguage, Tick}
use udesa_x_posts_api.Follows.{profile_id}
use udesa_x_posts_api.Follows.Outcomes.{ensure_profile-others}
use udesa_x_posts_api.Posts.{
  post_id, blocked_either_way, visible_to, visible_row, visible_post, find_visible, lock_visible,
}
use udesa_x_posts_api.Posts.Service.{publish, delete_post, get_post}
use udesa_x_posts_api.Likes.{readable, like, unlike}
use udesa_x_posts_api.Retweets.{retweet, unretweet}

-- The post is there, and a block separates the viewer from its author.
abbrev pub IsSevered : ℕ → ℕ → PostRow → Db → Type 0
IsSevered p viewer r d =
    (find (post_id p) d.posts ≡ some r) × (blocked_either_way viewer r.author_id d ≡ true)

hidden_row :
    (viewer : ℕ) (d : Db) (r : PostRow) (author : Option UserProfileRow)
    → find (profile_id r.author_id) d.profiles ≡ author
    → blocked_either_way viewer r.author_id d ≡ true
    → visible_row viewer true d r author ≡ none
unfolding visible_row visible_to
hidden_row viewer d r none e blocked = refl
hidden_row viewer d r (some author) e blocked =
    let same : (author.id == r.author_id) ≡ true =
      find-holds (profile_id r.author_id) d.profiles author e in
    ground arith

hidden_post :
    (p viewer : ℕ) (d : Db) (r : PostRow)
    → IsSevered p viewer r d
    → visible_post viewer true d (find (post_id p) d.posts) ≡ none
unfolding visible_post
hidden_post p viewer d r (there, blocked) = rw there (hidden_row viewer d r _ refl blocked)

module _ (p viewer : ℕ) (d : Db) (r : PostRow) (severed : IsSevered p viewer r d) where
  readable-hidden : Post (λ _ _. ⊥) (readable p viewer d)
  unfolding readable lock_visible find_visible
  readable-hidden =
      post_read _ _ d
        (post_need _ _ _ d λ post found. ground (arith, hidden_post p viewer d r severed))

-- None of the calls that read a post, mark it, answer it or delete it returns for a viewer whom a
-- block separates from its author.
pub record IsHidden (t : Tick) (viewer : Account) (p : ℕ) (d : Db) : Type 0 where
  pub get_post : Post (λ _ _. ⊥) (get_post p viewer d)
  pub like : Post (λ _ _. ⊥) (like t viewer p d)
  pub unlike : Post (λ _ _. ⊥) (unlike viewer p d)
  pub retweet : Post (λ _ _. ⊥) (retweet t viewer p d)
  pub unretweet : Post (λ _ _. ⊥) (unretweet viewer p d)
  pub delete_post : Post (λ _ _. ⊥) (delete_post t p viewer d)
  pub publish :
      (text : List ℕ) (language : PostLanguage)
      → Post (λ _ _. ⊥) (publish t viewer.id text language (some p) d)

module _ (t : Tick) (viewer : Account) (p : ℕ) (d : Db) (r : PostRow) where
  IsSevered-later :
      (e : Db)
      → e ≡ record d { profiles = e.profiles }
      → IsSevered p viewer.id r d
      → IsSevered p viewer.id r e
  IsSevered-later e same h = rw same h

  -- Where a block in either direction separates the viewer from the author of a post, no call that
  -- reads the post, marks it, answers it or deletes it returns.
  pub severed-IsHidden : IsSevered p viewer.id r d → IsHidden t viewer p d
  unfolding get_post like unlike retweet unretweet delete_post publish lock_visible find_visible
  severed-IsHidden h = record {
    get_post =
        post_read _ _ d
          (post_require _ _ d λ post found. ground (arith, hidden_post p viewer.id d r h));
    like =
        post_call _ _ _ d (ensure_profile-others viewer d)
          λ _ e same. post_never _ _ e (readable-hidden p viewer.id e r (IsSevered-later e same h));
    unlike = post_never _ _ d (readable-hidden p viewer.id d r h);
    retweet =
        post_call _ _ _ d (ensure_profile-others viewer d)
          λ _ e same. post_never _ _ e (readable-hidden p viewer.id e r (IsSevered-later e same h));
    unretweet = post_never _ _ d (readable-hidden p viewer.id d r h);
    delete_post =
        post_read _ _ d
          (post_need _ _ _ d λ post found. ground (arith, hidden_post p viewer.id d r h));
    publish = λ text language.
        post_read _ _ d
          (post_need _ _ _ d λ post found. ground (arith, hidden_post p viewer.id d r h));
  }
