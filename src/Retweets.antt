-- ===== src/Retweets.antt =====
-- RetweetRepository (app/repositories/retweets.py) and RetweetService (app/services/retweets.py).
use udesa_x_posts_api.Common.{ℕ, Bool, true, false, ◌||◌, not, ◌∷◌, ◌==◌}
use udesa_x_posts_api.Common.Int.{ℤ, pos, negsuc, ◌+ℤ◌, greatest}
use udesa_x_posts_api.Common.Rows.{exists, update, delete}
use udesa_x_posts_api.Common.Action.{
  Action, ok, pure, gets, modify, crash_if, when◌run◌otherwise◌, ◌>>=◌, ◌>>◌,
}
use udesa_x_posts_api.Models.{Account}
use udesa_x_posts_api.Database.{Db, PostRow, RetweetRow, Tick}
use udesa_x_posts_api.Follows.{profile_exists, ensure_profile}
use udesa_x_posts_api.Posts.{post_id, post_exists, retweet_pair}
use udesa_x_posts_api.Likes.{readable}

abbrev pub retweet_row : Tick → ℕ → ℕ → RetweetRow
retweet_row t u p = record { user_id = u; post_id = p; created_at = t.now }

-- The foreign keys of `retweets`; a repeated pair is not refused.
unfoldable pub refuses_retweet : ℕ → ℕ → Db → Bool
refuses_retweet u p d = not (profile_exists u d) || not (post_exists p d)

-- `RetweetRepository.add`
unfoldable pub add_retweet : Tick → ℕ → ℕ → Action Db Bool
add_retweet t u p = do
  there ← gets (λ d. exists (retweet_pair u p) d.retweets)
  when there run pure false otherwise do
    refused ← gets (refuses_retweet u p)
    crash_if refused
    modify (λ d. record d { retweets = retweet_row t u p ∷ d.retweets })
    pure true

-- `RetweetRepository.remove`
unfoldable pub remove_retweet : ℕ → ℕ → Action Db Bool
remove_retweet u p d = (
  ok (exists (retweet_pair u p) d.retweets),
  record d { retweets = delete (retweet_pair u p) d.retweets },
)

abbrev pub retweet_of : ℕ → RetweetRow → Bool
retweet_of p r = r.post_id == p

-- `RetweetRepository.remove_for_post`
unfoldable pub remove_retweets_of : ℕ → Action Db (Unit {0})
remove_retweets_of p = modify (λ d. record d { retweets = delete (retweet_of p) d.retweets })

abbrev pub move_retweets : ℤ → PostRow → PostRow
move_retweets by r = record r { retweets_count = greatest (pos 0) (r.retweets_count +ℤ by) }

-- `RetweetRepository.move_counter`
unfoldable pub move_retweet_counter : ℕ → ℤ → Action Db (Unit {0})
move_retweet_counter p by =
    modify (λ d. record d { posts = update (post_id p) (move_retweets by) d.posts })

-- Whether the request created a new share.
unfoldable pub retweet : Tick → Account → ℕ → Action Db Bool
retweet t viewer p = do
  ensure_profile viewer
  readable p viewer.id
  created ← add_retweet t viewer.id p
  when created run (do move_retweet_counter p (pos 1); pure true) otherwise pure false

unfoldable pub unretweet : Account → ℕ → Action Db (Unit {0})
unretweet viewer p = do
  readable p viewer.id
  removed ← remove_retweet viewer.id p
  when removed run move_retweet_counter p (negsuc 0) otherwise pure tt
