-- ===== src/Posts/Sharing.antt =====
-- Retweets, given and taken back, keep the tallies.
use udesa_x_posts_api.Common.{ℕ, ◌≡◌, refl, Bool, true, false, arith, inl, inr, Bool-cases, ◌∷◌}
use udesa_x_posts_api.Common.Int.{pos, negsuc, greatest-zero_one, greatest-zero_minus_one}
use udesa_x_posts_api.Common.Rows.{exists, update}
use udesa_x_posts_api.Common.Action.{pure, when◌run◌otherwise◌, ◌>>=◌, ◌>>◌}
use udesa_x_posts_api.Common.Action.Rules.{
  Post, post_pure, post_if, post_call, post_read, post_check, post_write,
}
use udesa_x_posts_api.Models.{Account}
use udesa_x_posts_api.Database.{Db, Tick}
use udesa_x_posts_api.Posts.{post_id, retweet_pair}
use udesa_x_posts_api.Posts.Marks.{
  AreTallied-add, AreTallied-remove, AreTallied-absent, AreTallied-same,
}
use udesa_x_posts_api.Posts.Tallies.{like_marks, retweet_marks, IsTallied, AreThreaded-same}
use udesa_x_posts_api.Posts.Keeping.{HasLive, ensure_profile-IsTallied, readable-HasLive}
use udesa_x_posts_api.Retweets.{
  add_retweet, remove_retweet, move_retweets, move_retweet_counter, retweet, unretweet, retweet_row,
}

-- After `add_retweet`: as it was, or with the retweet just added and its counter still to move.
abbrev RetweetAdded : Tick → ℕ → ℕ → Bool → Db → Type 0
RetweetAdded t u p false e = IsTallied e
RetweetAdded t u p true e =
    (d : Db) × (HasLive p d)
    × (exists (retweet_pair u p) d.retweets ≡ false)
    × (e ≡ record d { retweets = retweet_row t u p ∷ d.retweets })

add_retweet-RetweetAdded :
    (t : Tick) (u p : ℕ) (d : Db)
    → HasLive p d
    → Post (λ added e. RetweetAdded t u p added e) (add_retweet t u p d)
unfolding add_retweet
add_retweet-RetweetAdded t u p d v = post_read _ _ d (
    post_if _ _ _ d (λ there. post_pure false d v.tallied)
      λ new.
        post_read _ _ d
          (post_check _ _ d λ accepted. post_write _ _ d (post_pure true _ (d, v, new, refl))))

counted_retweet-IsTallied :
    (t : Tick) (u p : ℕ) (d : Db)
    → HasLive p d
    → exists (retweet_pair u p) d.retweets ≡ false
    → IsTallied (record d {
      retweets = retweet_row t u p ∷ d.retweets;
      posts = update (post_id p) (move_retweets (pos 1)) d.posts;
    })
counted_retweet-IsTallied t u p d v new = record {
  threaded =
      AreThreaded-same (post_id p) (move_retweets (pos 1)) d.posts (λ r. refl) (λ r. refl)
        (λ r. refl) v.tallied.threaded;
  retweets =
      AreTallied-add retweet_marks d.posts d.retweets (move_retweets (pos 1)) (λ r. refl)
        (λ r. refl) (retweet_row t u p) (λ r n h. rw h (greatest-zero_one n)) (ground arith) v.there
        v.live v.tallied.retweets;
  likes =
      AreTallied-same like_marks d.posts d.likes (move_retweets (pos 1)) (λ r. refl) (λ r. refl)
        (post_id p) (λ r. refl) v.tallied.likes;
}

after_add_retweet-IsTallied :
    (t : Tick) (u p : ℕ) (added : Bool) (e : Db)
    → RetweetAdded t u p added e
    → Post
        (λ _ x. IsTallied x)
        ((when added run (do move_retweet_counter p (pos 1); pure true) otherwise pure false) e)
unfolding when◌run◌otherwise◌ move_retweet_counter ◌>>=◌
after_add_retweet-IsTallied t u p false e h = post_pure false e h
after_add_retweet-IsTallied t u p true e (d, v, new, same) =
    rw same (record { holds = counted_retweet-IsTallied t u p d v new })

pub retweet-IsTallied :
    (t : Tick) (viewer : Account) (p : ℕ) (d : Db)
    → IsTallied d
    → Post (λ _ e. IsTallied e) (retweet t viewer p d)
unfolding retweet
retweet-IsTallied t viewer p d v =
    post_call _ _ _ d (ensure_profile-IsTallied viewer d v) λ _ d1 v1.
      post_call _ _ _ d1 (readable-HasLive p viewer.id d1 v1) λ _ d2 v2.
        post_call _ _ _ d2 (add_retweet-RetweetAdded t viewer.id p d2 v2)
          λ added d3 v3. after_add_retweet-IsTallied t viewer.id p added d3 v3

-- Taking back a retweet that is there, and one that is not.
withdrawn_retweet-IsTallied :
    (u p : ℕ) (d : Db)
    → IsTallied d
    → Post
        (λ _ x. IsTallied x)
        ((remove_retweet u p >>= λ removed.
            when removed run move_retweet_counter p (negsuc 0) otherwise pure tt)
          d)
unfolding remove_retweet move_retweet_counter ◌>>=◌
withdrawn_retweet-IsTallied u p d v = elim (Bool-cases (exists (retweet_pair u p) d.retweets)) [
  | inl there ↦ rw there (record {
    holds = record {
      threaded =
          AreThreaded-same (post_id p) (move_retweets (negsuc 0)) d.posts (λ r. refl) (λ r. refl)
            (λ r. refl) v.threaded;
      retweets =
          AreTallied-remove retweet_marks d.posts d.retweets (move_retweets (negsuc 0)) (λ r. refl)
            (λ r. refl) u p (λ r n h. rw h (greatest-zero_minus_one n))
            (ground (arith, v.retweets.once u p)) v.retweets;
      likes =
          AreTallied-same like_marks d.posts d.likes (move_retweets (negsuc 0)) (λ r. refl)
            (λ r. refl) (post_id p) (λ r. refl) v.likes;
    };
  })
  | inr absent ↦ rw absent (record {
    holds = record {
      threaded = v.threaded;
      retweets = AreTallied-absent retweet_marks d.posts d.retweets u p (ground arith) v.retweets;
      likes = v.likes;
    };
  })
]

pub unretweet-IsTallied :
    (viewer : Account) (p : ℕ) (d : Db)
    → IsTallied d
    → Post (λ _ e. IsTallied e) (unretweet viewer p d)
unfolding unretweet
unretweet-IsTallied viewer p d v =
    post_call _ _ _ d (readable-HasLive p viewer.id d v)
      λ _ d1 v1. withdrawn_retweet-IsTallied viewer.id p d1 v1.tallied
