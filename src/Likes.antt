-- ===== src/Likes.antt =====
-- LikeRepository (app/repositories/likes.py) and LikeService (app/services/likes.py).
use udesa_x_posts_api.Common.{ℕ, none, Bool, true, false, ◌||◌, not, ◌∷◌, ◌==◌}
use udesa_x_posts_api.Common.Int.{ℤ, pos, negsuc, ◌+ℤ◌}
use udesa_x_posts_api.Common.Rows.{exists, update, delete}
use udesa_x_posts_api.Common.Action.{
  ProblemError, Action, ok, pure, gets, require, raise_if, modify, crash_if, when◌run◌otherwise◌,
  ◌>>=◌, ◌>>◌,
}
use udesa_x_posts_api.Models.{Account}
use udesa_x_posts_api.Database.{Db, PostRow, LikeRow, Tick}
use udesa_x_posts_api.Follows.{profile_exists, ensure_profile}
use udesa_x_posts_api.Posts.{post_id, post_exists, like_pair, lock_visible}

abbrev pub like_row : Tick → ℕ → ℕ → LikeRow
like_row t u p = record { user_id = u; post_id = p; created_at = t.now }

-- The foreign keys of `likes`; a repeated pair is not refused.
unfoldable pub refuses_like : ℕ → ℕ → Db → Bool
refuses_like u p d = not (profile_exists u d) || not (post_exists p d)

-- `LikeRepository.add`: `ON CONFLICT DO NOTHING`, and whether the like is new.
unfoldable pub add_like : Tick → ℕ → ℕ → Action Db Bool
add_like t u p = do
  there ← gets (λ d. exists (like_pair u p) d.likes)
  when there run pure false otherwise do
    refused ← gets (refuses_like u p)
    crash_if refused
    modify (λ d. record d { likes = like_row t u p ∷ d.likes })
    pure true

-- `LikeRepository.remove`
unfoldable pub remove_like : ℕ → ℕ → Action Db Bool
remove_like u p d =
    (ok (exists (like_pair u p) d.likes), record d { likes = delete (like_pair u p) d.likes })

abbrev pub like_of : ℕ → LikeRow → Bool
like_of p r = r.post_id == p

-- `LikeRepository.remove_for_post`
unfoldable pub remove_likes_of : ℕ → Action Db (Unit {0})
remove_likes_of p = modify (λ d. record d { likes = delete (like_of p) d.likes })

abbrev pub move_likes : ℤ → PostRow → PostRow
move_likes by r = record r { likes_count = r.likes_count +ℤ by }

-- `LikeRepository.move_counter`
unfoldable pub move_like_counter : ℕ → ℤ → Action Db (Unit {0})
move_like_counter p by =
    modify (λ d. record d { posts = update (post_id p) (move_likes by) d.posts })

abbrev pub post_not_found : ProblemError
post_not_found = record {
  status = 404;
  code = "post-not-found";
  title = "No se pudo obtener el post";
  detail = "El post no existe";
  retry_after = none;
}

-- `LikeService._readable`, and the one of `RetweetService`, which is the same.
unfoldable pub readable : ℕ → ℕ → Action Db (Unit {0})
readable p viewer = do
  found ← lock_visible p viewer
  post ← require found post_not_found
  raise_if post.deleted post_not_found

unfoldable pub like : Tick → Account → ℕ → Action Db (Unit {0})
like t viewer p = do
  ensure_profile viewer
  readable p viewer.id
  added ← add_like t viewer.id p
  when added run move_like_counter p (pos 1) otherwise pure tt

unfoldable pub unlike : Account → ℕ → Action Db (Unit {0})
unlike viewer p = do
  readable p viewer.id
  removed ← remove_like viewer.id p
  when removed run move_like_counter p (negsuc 0) otherwise pure tt
