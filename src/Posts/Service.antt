-- ===== src/Posts/Service.antt =====
-- PostService (app/services/posts.py) for posts without images: `create`, `delete` and `get`.
use udesa_x_posts_api.Common.{
  ℕ, ◌<>◌, decimal, Option, none, some, Bool, true, not, List, ◌==◌, leb, ltb, length,
}
use udesa_x_posts_api.Common.Action.{
  ProblemError, Action, pure, gets, require, raise_if, when◌run◌otherwise◌, ◌>>=◌, ◌>>◌,
}
use udesa_x_posts_api.Models.{Account, Post, PostWithAuthor}
use udesa_x_posts_api.Database.{Db, PostLanguage, Tick}
use udesa_x_posts_api.RateLimiter.{RateLimiter, RateKey, Session, on_db, hit}
use udesa_x_posts_api.Follows.{ensure_profile}
use udesa_x_posts_api.Posts.{find_visible, lock_visible, create_post, count_reply, mark_deleted}
use udesa_x_posts_api.Posts.Content.{sanitize}
use udesa_x_posts_api.Likes.{remove_likes_of, post_not_found}
use udesa_x_posts_api.Retweets.{remove_retweets_of}

abbrev pub max_content_length : ℕ
max_content_length = 280

abbrev pub post_is_blank : ProblemError
post_is_blank = record {
  status = 422;
  code = "post-is-blank";
  title = "No se pudo publicar el post";
  detail = "El post no puede estar vacío";
  retry_after = none;
}

unfoldable pub post_too_long : ProblemError
post_too_long = record {
  status = 422;
  code = "post-too-long";
  title = "No se pudo publicar el post";
  detail = "El post no puede superar los " <> decimal max_content_length <> " caracteres";
  retry_after = none;
}

abbrev pub post_deleted : ProblemError
post_deleted = record {
  status = 409;
  code = "post-deleted";
  title = "No se pudo responder";
  detail = "Esta publicación fue eliminada.";
  retry_after = none;
}

abbrev pub post_author_required : ProblemError
post_author_required = record {
  status = 403;
  code = "post-author-required";
  title = "No se pudo eliminar la publicación";
  detail = "Solo el autor puede eliminar la publicación.";
  retry_after = none;
}

unfoldable pub too_many_posts : ℕ → ℕ → ProblemError
too_many_posts limit seconds = record {
  status = 429;
  code = "too-many-posts";
  title = "Demasiados posts";
  detail = "Alcanzaste el límite de " <> decimal limit <> " por hora. Probá más tarde.";
  retry_after = some seconds;
}

abbrev pub is_blank : List ℕ → Bool
is_blank content = length content == 0

-- The last part of `create`: a post of its own, or a reply to one that the author can read.
unfoldable pub publish : Tick → ℕ → List ℕ → PostLanguage → Option ℕ → Action Db Post
publish t author content language none = create_post t author content language none
publish t author content language (some p) = do
  found ← lock_visible p author
  parent ← require found post_not_found
  raise_if parent.deleted post_deleted
  reply ← create_post t author content language (some p)
  count_reply p
  pure reply

-- `create` from the profile on. The language detector is not part of this repository.
unfoldable pub create_in_db :
    (List ℕ → PostLanguage) → Tick → Account → List ℕ → Option ℕ → Action Db Post
create_in_db detect t author content parent = do
  ensure_profile author
  raise_if (is_blank (sanitize content)) post_is_blank
  raise_if (ltb max_content_length (length (sanitize content))) post_too_long
  publish t author.id (sanitize content) (detect (sanitize content)) parent

-- `PostService.delete`
unfoldable pub delete_post : Tick → ℕ → Account → Action Db (Unit {0})
delete_post t p viewer = do
  found ← lock_visible p viewer.id
  post ← require found post_not_found
  raise_if (not (post.author_id == viewer.id)) post_author_required
  when post.deleted
      run pure tt
      otherwise do remove_likes_of p; remove_retweets_of p; mark_deleted t p

-- `PostService.get`; signing the URLs of the images changes nothing.
unfoldable pub get_post : ℕ → Account → Action Db PostWithAuthor
get_post p viewer = do found ← find_visible p viewer.id true; require found post_not_found

module _ (R : RateLimiter) (post_limit window_seconds : ℕ) where
  -- `PostService._charge_the_rate_limit`
  unfoldable pub charge_post : ℕ → Action (Session R.State) (Unit {0})
  charge_post a = do
    attempts ← hit R (RateKey.post_rate a) window_seconds
    seconds ← gets (λ s. R.seconds_left (RateKey.post_rate a) s.marks)
    raise_if (not (leb attempts post_limit)) (too_many_posts post_limit seconds)

  unfoldable pub create :
      (List ℕ → PostLanguage)
      → Tick
      → Account
      → List ℕ
      → Option ℕ
      → Bool
      → Action (Session R.State) Post
  create detect t author content parent charged = do
    when charged run pure tt otherwise charge_post author.id
    on_db (create_in_db detect t author content parent)
