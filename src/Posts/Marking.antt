-- ===== src/Posts/Marking.antt =====
-- Likes, given and taken back, keep the tallies.
use udesa_x_posts_api.Common.{ℕ, ◌≡◌, refl, Bool, true, false, arith, inl, inr, Bool-cases, ◌∷◌}
use udesa_x_posts_api.Common.Int.{pos, negsuc, +ℤ_one, +ℤ_minus_one}
use udesa_x_posts_api.Common.Rows.{exists, update}
use udesa_x_posts_api.Common.Action.{pure, modify, when◌run◌otherwise◌, ◌>>=◌}
use udesa_x_posts_api.Common.Action.Rules.{
  Post, post_pure, post_if, post_call, post_read, post_check, post_write,
}
use udesa_x_posts_api.Models.{Account}
use udesa_x_posts_api.Database.{Db, Tick}
use udesa_x_posts_api.Posts.{post_id, like_pair}
use udesa_x_posts_api.Posts.Marks.{
  AreTallied-add, AreTallied-remove, AreTallied-absent, AreTallied-same,
}
use udesa_x_posts_api.Posts.Tallies.{like_marks, retweet_marks, IsTallied, AreThreaded-same}
use udesa_x_posts_api.Posts.Keeping.{HasLive, ensure_profile-IsTallied, readable-HasLive}
use udesa_x_posts_api.Likes.{
  add_like, remove_like, move_likes, move_like_counter, like, unlike, like_row,
}

-- After `add_like`: as it was, or with the like just added and its counter still to move.
abbrev LikeAdded : Tick → ℕ → ℕ → Bool → Db → Type 0
LikeAdded t u p false e = IsTallied e
LikeAdded t u p true e =
    (d : Db) × (HasLive p d)
    × (exists (like_pair u p) d.likes ≡ false)
    × (e ≡ record d { likes = like_row t u p ∷ d.likes })

add_like-LikeAdded :
    (t : Tick) (u p : ℕ) (d : Db)
    → HasLive p d
    → Post (λ added e. LikeAdded t u p added e) (add_like t u p d)
unfolding add_like
add_like-LikeAdded t u p d v = post_read _ _ d (
    post_if _ _ _ d (λ there. post_pure false d v.tallied)
      λ new.
        post_read _ _ d
          (post_check _ _ d λ accepted. post_write _ _ d (post_pure true _ (d, v, new, refl))))

counted_like-IsTallied :
    (t : Tick) (u p : ℕ) (d : Db)
    → HasLive p d
    → exists (like_pair u p) d.likes ≡ false
    → IsTallied (record d {
      likes = like_row t u p ∷ d.likes;
      posts = update (post_id p) (move_likes (pos 1)) d.posts;
    })
counted_like-IsTallied t u p d v new = record {
  threaded =
      AreThreaded-same (post_id p) (move_likes (pos 1)) d.posts (λ r. refl) (λ r. refl) (λ r. refl)
        v.tallied.threaded;
  likes =
      AreTallied-add like_marks d.posts d.likes (move_likes (pos 1)) (λ r. refl) (λ r. refl)
        (like_row t u p) (λ r n h. rw h (+ℤ_one n)) (ground arith) v.there v.live v.tallied.likes;
  retweets =
      AreTallied-same retweet_marks d.posts d.retweets (move_likes (pos 1)) (λ r. refl) (λ r. refl)
        (post_id p) (λ r. refl) v.tallied.retweets;
}

after_add_like-IsTallied :
    (t : Tick) (u p : ℕ) (added : Bool) (e : Db)
    → LikeAdded t u p added e
    → Post (λ _ x. IsTallied x) ((when added run move_like_counter p (pos 1) otherwise pure tt) e)
unfolding when◌run◌otherwise◌ move_like_counter modify
after_add_like-IsTallied t u p false e h = post_pure tt e h
after_add_like-IsTallied t u p true e (d, v, new, same) =
    rw same (record { holds = counted_like-IsTallied t u p d v new })

pub like-IsTallied :
    (t : Tick) (viewer : Account) (p : ℕ) (d : Db)
    → IsTallied d
    → Post (λ _ e. IsTallied e) (like t viewer p d)
unfolding like
like-IsTallied t viewer p d v = post_call _ _ _ d (ensure_profile-IsTallied viewer d v) λ _ d1 v1.
    post_call _ _ _ d1 (readable-HasLive p viewer.id d1 v1) λ _ d2 v2.
      post_call _ _ _ d2 (add_like-LikeAdded t viewer.id p d2 v2)
        λ added d3 v3. after_add_like-IsTallied t viewer.id p added d3 v3

-- Taking back a like that is there, and one that is not.
withdrawn_like-IsTallied :
    (u p : ℕ) (d : Db)
    → IsTallied d
    → Post
        (λ _ x. IsTallied x)
        ((remove_like u p >>= λ removed.
            when removed run move_like_counter p (negsuc 0) otherwise pure tt)
          d)
unfolding remove_like move_like_counter ◌>>=◌
withdrawn_like-IsTallied u p d v = elim (Bool-cases (exists (like_pair u p) d.likes)) [
  | inl there ↦ rw there (record {
    holds = record {
      threaded =
          AreThreaded-same (post_id p) (move_likes (negsuc 0)) d.posts (λ r. refl) (λ r. refl)
            (λ r. refl) v.threaded;
      likes =
          AreTallied-remove like_marks d.posts d.likes (move_likes (negsuc 0)) (λ r. refl)
            (λ r. refl) u p (λ r n h. rw h (+ℤ_minus_one n)) (ground (arith, v.likes.once u p))
            v.likes;
      retweets =
          AreTallied-same retweet_marks d.posts d.retweets (move_likes (negsuc 0)) (λ r. refl)
            (λ r. refl) (post_id p) (λ r. refl) v.retweets;
    };
  })
  | inr absent ↦ rw absent (record {
    holds = record {
      threaded = v.threaded;
      likes = AreTallied-absent like_marks d.posts d.likes u p (ground arith) v.likes;
      retweets = v.retweets;
    };
  })
]

pub unlike-IsTallied :
    (viewer : Account) (p : ℕ) (d : Db)
    → IsTallied d
    → Post (λ _ e. IsTallied e) (unlike viewer p d)
unfolding unlike
unlike-IsTallied viewer p d v =
    post_call _ _ _ d (readable-HasLive p viewer.id d v)
      λ _ d1 v1. withdrawn_like-IsTallied viewer.id p d1 v1.tallied
