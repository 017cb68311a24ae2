-- ===== src/Posts/Closing.antt =====
-- Closing an account keeps the tallies: its likes and retweets go, and the live posts show it.
use udesa_x_posts_api.Common.{refl, ℕ, inl, inr, Bool-cases}
use udesa_x_posts_api.Common.Int.{greatest-minus_one}
use udesa_x_posts_api.Common.Rows.{exists, update, delete}
use udesa_x_posts_api.Common.Action.{◌>>=◌}
use udesa_x_posts_api.Common.Action.Rules.{Post}
use udesa_x_posts_api.Database.{Db}
use udesa_x_posts_api.Posts.Marks.{AreTallied-same}
use udesa_x_posts_api.Posts.Marks.Release.{AreTallied-release}
use udesa_x_posts_api.Posts.Tallies.{like_marks, retweet_marks, IsTallied, AreThreaded-same}
use udesa_x_posts_api.UserDeletion.{
  live_id, with_profile, close, liked_live, retweeted_live, lower_likes, lower_retweets, like_by,
  retweet_by, release_follows, release_blocks, release_mutes, release_likes, release_retweets,
  apply,
}

module _ (u : ℕ) where
  -- What `release_likes` and `release_retweets` do to a state.
  abbrev without_likes : Db → Db
  without_likes d = record d {
    posts = update (liked_live u d.likes) lower_likes d.posts;
    likes = delete (like_by u) d.likes;
  }

  abbrev without_retweets : Db → Db
  without_retweets d = record d {
    posts = update (retweeted_live u d.retweets) lower_retweets d.posts;
    retweets = delete (retweet_by u) d.retweets;
  }

  without_likes-IsTallied : (d : Db) → IsTallied d → IsTallied (without_likes d)
  without_likes-IsTallied d v = record {
    threaded =
        AreThreaded-same (liked_live u d.likes) lower_likes d.posts (λ r. refl) (λ r. refl)
          (λ r. refl) v.threaded;
    likes =
        AreTallied-release like_marks d.posts d.likes lower_likes (λ r. refl) (λ r. refl) u
          (liked_live u d.likes) (λ r. refl) (λ r n h. rw h (greatest-minus_one n)) v.likes;
    retweets =
        AreTallied-same retweet_marks d.posts d.retweets lower_likes (λ r. refl) (λ r. refl)
          (liked_live u d.likes) (λ r. refl) v.retweets;
  }

  without_retweets-IsTallied : (d : Db) → IsTallied d → IsTallied (without_retweets d)
  without_retweets-IsTallied d v = record {
    threaded =
        AreThreaded-same (retweeted_live u d.retweets) lower_retweets d.posts (λ r. refl)
          (λ r. refl) (λ r. refl) v.threaded;
    likes =
        AreTallied-same like_marks d.posts d.likes lower_retweets (λ r. refl) (λ r. refl)
          (retweeted_live u d.retweets) (λ r. refl) v.likes;
    retweets =
        AreTallied-release retweet_marks d.posts d.retweets lower_retweets (λ r. refl) (λ r. refl) u
          (retweeted_live u d.retweets) (λ r. refl) (λ r n h. rw h (greatest-minus_one n))
          v.retweets;
  }

  pub apply-IsTallied : (at : ℕ) (d : Db) → IsTallied d → Post (λ _ e. IsTallied e) (apply u at d)
  unfolding apply close release_follows release_blocks release_mutes release_likes release_retweets
      ◌>>=◌
  apply-IsTallied at d v = elim (Bool-cases (exists (live_id u) (with_profile u d.profiles))) [
    | inl reached ↦
        let w = without_retweets-IsTallied _ (without_likes-IsTallied d v) in
        rw reached (record {
          holds = record { threaded = w.threaded; likes = w.likes; retweets = w.retweets };
        })
    | inr unreached ↦ rw unreached (record {
      holds = record { threaded = v.threaded; likes = v.likes; retweets = v.retweets };
    })
  ]
