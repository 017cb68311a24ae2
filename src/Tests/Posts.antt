-- ===== src/Tests/Posts.antt =====
-- Runs of the calls on posts, and the theorems on them at concrete inputs.
use udesa_x_posts_api.Common.{ℕ, ◌≤◌, ◌≡◌, refl, none, some, false, List, [], ◌∷◌, arith, length}
use udesa_x_posts_api.Database.{PostLanguage}
use udesa_x_posts_api.Posts.{new_post}
use udesa_x_posts_api.Posts.Content.{strip_tags}
use udesa_x_posts_api.Posts.Stripped.{has_tag, strip_tags-strip_tags}
use udesa_x_posts_api.Posts.Privacy.{IsHidden, severed-IsHidden}
use udesa_x_posts_api.Posts.Tallies.{IsTallied}
use udesa_x_posts_api.Posts.History.{
  Call, posts, deletes, likes, retweets, unlikes, appears, closes, serve_all, serve_all-IsTallied,
}
use udesa_x_posts_api.Tests.{at, ana, carla, empty, blocked, one_mark, start}

empty-IsTallied : IsTallied empty
empty-IsTallied = record {
  threaded = record { post_once = λ p. omega arith; parent_known = λ p h. refl; replies = tt };
  likes = record { once = λ u p. omega arith; known = λ p h. refl; tallied = tt; bare = tt };
  retweets = record { once = λ u p. omega arith; known = λ p h. refl; tallied = tt; bare = tt };
}

abbrev detect : List ℕ → PostLanguage
detect text = PostLanguage.other

-- `a<b>c`
abbrev marked_up : List ℕ
marked_up = 0x61 ∷ 0x3c ∷ 0x62 ∷ 0x3e ∷ 0x63 ∷ []

abbrev morning : List Call
morning =
    appears ana
    ∷ posts (at 2) ana marked_up none false
    ∷ likes (at 3) carla 2
    ∷ posts (at 4) carla marked_up (some 2) false
    ∷ retweets (at 5) carla 2
    ∷ unlikes carla 2
    ∷ likes (at 6) ana 4
    ∷ deletes (at 7) 4 carla
    ∷ closes 3 8
    ∷ []

serve_all-IsTallied_example : IsTallied (serve_all one_mark 10 60 detect morning start).db
serve_all-IsTallied_example =
    serve_all-IsTallied one_mark 10 60 detect morning start empty-IsTallied

stripped : strip_tags marked_up ≡ 0x61 ∷ 0x63 ∷ []
unfolding strip_tags
stripped = refl

strip_tags-strip_tags_example :
    (has_tag (strip_tags marked_up) ≡ false)
    × (length (strip_tags marked_up) ≤ 5)
    × (strip_tags (strip_tags marked_up) ≡ strip_tags marked_up)
strip_tags-strip_tags_example = strip_tags-strip_tags marked_up

severed-IsHidden_example : IsHidden (at 9) ana 7 blocked
severed-IsHidden_example =
    severed-IsHidden (at 9) ana 7 blocked
      (new_post (at 7) 2 (0x68 ∷ 0x69 ∷ []) PostLanguage.en none) (refl, refl)
