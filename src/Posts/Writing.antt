-- ===== src/Posts/Writing.antt =====
-- Publishing and deleting posts keep the tallies.
use udesa_x_posts_api.Common.{ℕ, ◌≡◌, refl, none, some, Option, true, false, arith, List, ◌∷◌}
use udesa_x_posts_api.Common.Rows.{exists, update}
use udesa_x_posts_api.Common.Action.{modify}
use udesa_x_posts_api.Common.Action.Rules.{
  Post, post_pure, post_if, post_call, post_read, post_need, post_refuse, post_check, post_write,
  post_modify,
}
use udesa_x_posts_api.Models.{Account}
use udesa_x_posts_api.Database.{Db, PostLanguage, Tick}
use udesa_x_posts_api.Posts.{
  post_id, live_post, deleted_post, find_visible, lock_visible, create_post, new_post, refuses_post,
  count_reply, mark_deleted, add_reply,
}
use udesa_x_posts_api.Posts.Marks.{AreTallied-same, AreTallied-new_post}
use udesa_x_posts_api.Posts.Marks.Release.{AreTallied-delete}
use udesa_x_posts_api.Posts.Tallies.{
  like_marks, retweet_marks, IsTallied, AreThreaded-same, AreThreaded-post, AreThreaded-reply,
}
use udesa_x_posts_api.Posts.Keeping.{ensure_profile-IsTallied}
use udesa_x_posts_api.Posts.Service.{publish, create_in_db, delete_post}
use udesa_x_posts_api.Likes.{remove_likes_of}
use udesa_x_posts_api.Retweets.{remove_retweets_of}

module _ (t : Tick) (author : ℕ) (content : List ℕ) (language : PostLanguage) where
  own_post-IsTallied :
      (d : Db) → IsTallied d → Post (λ _ e. IsTallied e) (publish t author content language none d)
  unfolding publish create_post refuses_post
  own_post-IsTallied d v = post_read _ _ d (
      post_check _ _ d λ accepted. post_write _ _ d (
        post_pure _ _ (record {
          threaded =
              AreThreaded-post (new_post t author content language none) d.posts (ground arith) refl
                refl v.threaded;
          likes =
              AreTallied-new_post like_marks d.posts d.likes
                (new_post t author content language none) (ground arith) refl v.likes;
          retweets =
              AreTallied-new_post retweet_marks d.posts d.retweets
                (new_post t author content language none) (ground arith) refl v.retweets;
        })))

  -- The state between the reply and the counter of its parent.
  abbrev Replied : ℕ → Db → Type 0
  Replied p e =
      (d : Db) × (IsTallied d)
      × (exists (post_id t.row_id) d.posts ≡ false)
      × (exists (post_id p) d.posts ≡ true)
      × (e ≡ record d { posts = new_post t author content language (some p) ∷ d.posts })

  create_post-Replied :
      (p : ℕ) (d : Db)
      → IsTallied d
      → Post (λ _ e. Replied p e) (create_post t author content language (some p) d)
  unfolding create_post refuses_post
  create_post-Replied p d v = post_read _ _ d (
      post_check _ _ d
        λ accepted. post_write _ _ d (post_pure _ _ (d, v, ground arith, ground arith, refl)))

  counted_reply-IsTallied :
      (p : ℕ) (d : Db)
      → IsTallied d
      → exists (post_id t.row_id) d.posts ≡ false
      → exists (post_id p) d.posts ≡ true
      → IsTallied (record d {
        posts =
            update (post_id p) add_reply (new_post t author content language (some p) ∷ d.posts);
      })
  counted_reply-IsTallied p d v fresh there =
      let r = new_post t author content language (some p) in
      record {
        threaded = AreThreaded-reply r p d.posts fresh there refl refl v.threaded;
        likes =
            AreTallied-same like_marks (r ∷ d.posts) d.likes add_reply (λ x. refl) (λ x. refl)
              (post_id p) (λ x. refl)
              (AreTallied-new_post like_marks d.posts d.likes r fresh refl v.likes);
        retweets =
            AreTallied-same retweet_marks (r ∷ d.posts) d.retweets add_reply (λ x. refl) (λ x. refl)
              (post_id p) (λ x. refl)
              (AreTallied-new_post retweet_marks d.posts d.retweets r fresh refl v.retweets);
      }

  count_reply-IsTallied :
      (p : ℕ) (e : Db) → Replied p e → Post (λ _ x. IsTallied x) (count_reply p e)
  unfolding count_reply modify
  count_reply-IsTallied p e (d, v, fresh, there, same) =
      rw same (record { holds = counted_reply-IsTallied p d v fresh there })

  reply-IsTallied :
      (p : ℕ) (d : Db)
      → IsTallied d
      → Post (λ _ e. IsTallied e) (publish t author content language (some p) d)
  unfolding publish lock_visible find_visible
  reply-IsTallied p d v = post_read _ _ d (
      post_need _ _ _ d λ parent found. post_refuse _ _ _ d λ kept.
        post_call _ _ _ d (create_post-Replied p d v) λ reply d1 v1.
          post_call _ _ _ d1 (count_reply-IsTallied p d1 v1) λ _ d2 v2. post_pure reply d2 v2)

  publish-IsTallied :
      (parent : Option ℕ) (d : Db)
      → IsTallied d
      → Post (λ _ e. IsTallied e) (publish t author content language parent d)
  publish-IsTallied none d v = own_post-IsTallied d v
  publish-IsTallied (some p) d v = reply-IsTallied p d v

pub create-IsTallied :
    (detect : List ℕ → PostLanguage) (t : Tick) (author : Account) (content : List ℕ)
    (parent : Option ℕ) (d : Db)
    → IsTallied d
    → Post (λ _ e. IsTallied e) (create_in_db detect t author content parent d)
unfolding create_in_db
create-IsTallied detect t author content parent d v =
    post_call _ _ _ d (ensure_profile-IsTallied author d v) λ _ d1 v1.
      post_refuse _ _ _ d1
        λ filled. post_refuse _ _ _ d1 λ fits. publish-IsTallied t author.id _ _ parent d1 v1

pub delete_post-IsTallied :
    (t : Tick) (p : ℕ) (viewer : Account) (d : Db)
    → IsTallied d
    → Post (λ _ e. IsTallied e) (delete_post t p viewer d)
unfolding delete_post lock_visible find_visible remove_likes_of remove_retweets_of mark_deleted
delete_post-IsTallied t p viewer d v = post_read _ _ d (
    post_need _ _ _ d λ post found. post_refuse _ _ _ d λ own.
      post_if _ _ _ d (λ gone. post_pure tt d v)
        λ live. post_write _ _ d (
          post_write _ _ _ (
            post_modify _ _ (record {
              threaded =
                  AreThreaded-same (live_post p) (deleted_post t.clock) d.posts (λ r. refl)
                    (λ r. refl) (λ r. refl) v.threaded;
              likes =
                  AreTallied-delete like_marks d.posts d.likes (deleted_post t.clock) (λ r. refl) p
                    (λ r. refl) v.likes;
              retweets =
                  AreTallied-delete retweet_marks d.posts d.retweets (deleted_post t.clock)
                    (λ r. refl) p (λ r. refl) v.retweets;
            }))))
