-- ===== src/Replies.antt =====
-- The replies to a post: `PostRepository.replies_to` (app/repositories/posts.py) and
-- `PostService.replies_to` (app/services/posts.py). Attaching the images changes no state and is left
-- out.
pub mod Scrolling
use udesa_x_posts_api.Common.{
  ℕ, ◌≡◌, Option, none, some, is_some, Bool, true, false, List, [], ◌∷◌, map, ◌==◌, if◌then◌else◌,
}
use udesa_x_posts_api.Common.Action.{
  Action, Result, ok, problem, crash, pure, gets, require, ◌>>=◌, ◌>>◌,
}
use udesa_x_posts_api.Models.{Account, PostWithAuthor}
use udesa_x_posts_api.Database.{Db, PostRow}
use udesa_x_posts_api.Posts.{find_visible, to_post_with_author, liked_by, retweeted_by}
use udesa_x_posts_api.Posts.Joined.{JoinedPost, joined_posts, by_creation}
use udesa_x_posts_api.Likes.{post_not_found}
use udesa_x_posts_api.Pagination.{default_page_size, apply_cursor, page_of}
use udesa_x_posts_api.Pagination.Orders.{Cursor}
use udesa_x_posts_api.Pagination.Encoding.{Formats, encode_cursor, decode_cursor}

abbrev pub answers : ℕ → PostRow → Bool
answers post r = elim r.parent_id [ none ↦ false | some p ↦ p == post ]

abbrev pub keeps_replies : PostRow → Bool
keeps_replies p = is_some p.parent_id

unfoldable pub reply_rows : ℕ → ℕ → Db → List JoinedPost
unfolding joined_posts
reply_rows post viewer d = joined_posts viewer (answers post) keeps_replies d

unfoldable pub reply_item : ℕ → Db → JoinedPost → PostWithAuthor
reply_item viewer d r =
    to_post_with_author r.post r.author (liked_by viewer r.post.id d)
      (retweeted_by viewer r.post.id d)

-- A page of rows in the order of the listing.
abbrev pub page_after : Bool → Option Cursor → ℕ → List JoinedPost → List JoinedPost × Option Cursor
page_after ascending cursor limit rows =
    page_of (by_creation ascending) limit (apply_cursor (by_creation ascending) cursor limit rows)

-- `PostRepository.replies_to`
unfoldable pub find_replies : ℕ → ℕ → Option Cursor → ℕ → Db → List PostWithAuthor × Option Cursor
unfolding reply_rows reply_item page_of apply_cursor
find_replies post viewer cursor limit d =
    let (rows, next) = page_after true cursor limit (reply_rows post viewer d) in
    (map (reply_item viewer d) rows, next)

abbrev pub present : Result Cursor → Result (Option Cursor)
present (ok c) = ok (some c)
present (problem e) = problem e
present crash = crash

-- `Cursor.decode(cursor) if cursor is not None else None`
abbrev pub decoded : Formats → Option (List ℕ) → Action Db (Option Cursor)
decoded F none d = (ok none, d)
decoded F (some text) d = (present (decode_cursor F text), d)

abbrev pub encoded : Formats → Option Cursor → Option (List ℕ)
encoded F none = none
encoded F (some c) = some (encode_cursor F c)

-- `PostService.replies_to`
unfoldable pub replies_to :
    Formats → ℕ → Account → Option (List ℕ) → Action Db (List PostWithAuthor × Option (List ℕ))
unfolding find_replies
replies_to F post viewer cursor = do
  found ← find_visible post viewer.id true
  parent ← require found post_not_found
  after ← decoded F cursor
  gets (λ d.
      let (replies, next) = find_replies post viewer.id after default_page_size d in
      (replies, encoded F next))
