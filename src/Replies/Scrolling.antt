-- ===== src/Replies/Scrolling.antt =====
-- A reader who scrolls the replies to a post to their end, with the text of the cursors.
use udesa_x_posts_api.Common.{
  ℕ, zero, suc, ◌≤◌, ◌≡◌, refl, sym, Option, none, some, Bool, true, false, List, [], ◌∷◌, ◌++◌,
  map, length, if◌then◌else◌,
}
use udesa_x_posts_api.Common.Lists.{All, All-take}
use udesa_x_posts_api.Common.Rows.{count, select, find}
use udesa_x_posts_api.Common.Action.{Result, ok, problem, crash, ◌>>=◌}
use udesa_x_posts_api.Models.{Account, PostWithAuthor}
use udesa_x_posts_api.Database.{Db}
use udesa_x_posts_api.Follows.{profile_id}
use udesa_x_posts_api.Posts.{post_id, find_visible, visible_post}
use udesa_x_posts_api.Posts.Joined.{JoinedPost, by_creation, joined_posts-AreDistinct}
use udesa_x_posts_api.Pagination.{
  default_page_size, walk, apply_cursor, page_of, last_of, cursor_at, is_past,
}
use udesa_x_posts_api.Pagination.Orders.{Cursor}
use udesa_x_posts_api.Pagination.Encoding.{Formats, encode_cursor}
use udesa_x_posts_api.Pagination.Decoding.{AreFaithful, decode_cursor-encode_cursor}
use udesa_x_posts_api.Pagination.Sorted.{IsOrdered, All-order_by}
use udesa_x_posts_api.Pagination.Lists.{All-select_of}
use udesa_x_posts_api.Pagination.Walk.{walk-shows_all}
use udesa_x_posts_api.Activity.Scrolling.{map-append}
use udesa_x_posts_api.Replies.{
  answers, keeps_replies, reply_rows, reply_item, page_after, find_replies, decoded, encoded,
  replies_to,
}

-- What an answer shows, and what the answers after it show, if it has a cursor.
abbrev pub and_more : {A : Type 0} → Result (List A × Option (List ℕ)) → (List ℕ → List A) → List A
and_more (ok (xs, none)) more = xs
and_more (ok (xs, some c)) more = xs ++ more c
and_more (problem e) more = []
and_more crash more = []

-- The replies that a reader sees with at most so many requests, who sends the cursor of each answer
-- with the next request.
unfoldable pub scroll : ℕ → Formats → ℕ → Account → Option (List ℕ) → Db → List PostWithAuthor
scroll zero F post viewer cursor d = []
scroll (suc n) F post viewer cursor d =
    and_more (replies_to F post viewer cursor d).0 (λ c. scroll n F post viewer (some c) d)

-- The instants of the rows have a UTC time.
abbrev pub AreInUtc : Formats → List JoinedPost → Type 0
AreInUtc F = All (λ r. F.in_utc r.post.created_at ≡ true)

abbrev IsInUtc : Formats → Option Cursor → Type 0
IsInUtc F none = Unit
IsInUtc F (some c) = F.in_utc c.at ≡ true

All-last :
    (F : Formats) (b : Bool) (rows : List JoinedPost)
    → AreInUtc F rows
    → IsInUtc F (cursor_at (by_creation b) (last_of (by_creation b) rows))
All-last F b [] h = tt
All-last F b (r ∷ []) h = h.0
All-last F b (r ∷ s ∷ rows) h = All-last F b (s ∷ rows) h.1

guarded :
    (F : Formats) (b : Bool) (c : Option Cursor) → IsInUtc F c → IsInUtc F (if b then c else none)
guarded F true c h = h
guarded F false c h = tt

next-IsInUtc :
    (F : Formats) (b : Bool) (cursor : Option Cursor) (limit : ℕ) (rows : List JoinedPost)
    → AreInUtc F rows
    → IsInUtc F (page_after b cursor limit rows).1
unfolding page_of apply_cursor
next-IsInUtc F b cursor limit rows h =
    let m = by_creation b in
    guarded F _ _ (
      All-last F b _ (
        All-take _ limit _ (
          All-take _ (suc limit) _ (
            All-order_by m _ (select (is_past m cursor) rows)
              (All-select_of _ (is_past m cursor) rows h)))))

shown_pages :
    {A B : Type 0} (F : Formats) (f : A → B) (next : Option Cursor) (xs : List A)
    (r : List ℕ → List B) (w : Cursor → List A)
    → IsInUtc F next
    → ((c : Cursor) → F.in_utc c.at ≡ true → r (encode_cursor F c) ≡ map f (w c))
    → and_more (ok (map f xs, encoded F next)) r
      ≡ map f (elim next as (λ x. List A) [ none ↦ xs | some c ↦ xs ++ w c ])
shown_pages F f none xs r w u h = refl
shown_pages F f (some c) xs r w u h = rw (h c u) (sym (map-append f xs (w c)))

module _ (F : Formats) (law : AreFaithful F) (post : ℕ) (viewer : Account) (d : Db) where
  abbrev rows : List JoinedPost
  rows = reply_rows post viewer.id d

  abbrev page : Option Cursor → List JoinedPost × Option Cursor
  page cursor = page_after true cursor default_page_size rows

  decoded-encoded :
      (cursor : Option Cursor) → IsInUtc F cursor → decoded F (encoded F cursor) d ≡ (ok cursor, d)
  decoded-encoded none h = refl
  decoded-encoded (some c) h = rw (decode_cursor-encode_cursor F law c h) refl

  module _ (parent : PostWithAuthor)
      (readable : visible_post viewer.id true d (find (post_id post) d.posts) ≡ some parent) where
    replies_to-page :
        (cursor : Option Cursor)
        → IsInUtc F cursor
        → replies_to F post viewer (encoded F cursor) d
          ≡ (ok (map (reply_item viewer.id d) (page cursor).0, encoded F (page cursor).1), d)
    unfolding replies_to find_visible find_replies ◌>>=◌
    replies_to-page cursor h = rw readable (rw (decoded-encoded cursor h) refl)

    scroll-walk :
        (n : ℕ) (cursor : Option Cursor)
        → IsInUtc F cursor
        → AreInUtc F rows
        → scroll n F post viewer (encoded F cursor) d
          ≡ map (reply_item viewer.id d) (walk (by_creation true) n default_page_size cursor rows)
    unfolding scroll walk
    scroll-walk zero cursor u h = refl
    scroll-walk (suc n) cursor u h =
        rw (replies_to-page cursor u, scroll)
          (shown_pages F (reply_item viewer.id d) (page cursor).1 (page cursor).0
            (λ c. scroll n F post viewer (some c) d)
            (λ c. walk (by_creation true) n default_page_size (some c) rows)
            (next-IsInUtc F true cursor default_page_size rows h)
            (λ c k. scroll-walk n (some c) k h))

-- A reader of a post who may read it, and who asks for its replies as often as it has readable ones
-- and once more, sending back the text of each cursor, sees the items of rows that are in order,
-- oldest first, and that are exactly the readable replies, each as often as it is there: where
-- Python's formats read back what they write, the replies have UTC times, and the keys of the
-- profiles and of the posts hold.
pub scroll-shows_replies :
    (F : Formats) (post : ℕ) (viewer : Account) (d : Db) (parent : PostWithAuthor)
    → AreFaithful F
    → ((u : ℕ) → count (profile_id u) d.profiles ≤ 1)
    → ((p : ℕ) → count (post_id p) d.posts ≤ 1)
    → visible_post viewer.id true d (find (post_id post) d.posts) ≡ some parent
    → AreInUtc F (reply_rows post viewer.id d)
    → (seen : List JoinedPost) × ((scroll
            (suc (length (reply_rows post viewer.id d)))
            F
            post
            viewer
            none
            d
          ≡ map (reply_item viewer.id d) seen)
        × ((IsOrdered (by_creation true) seen)
            × ((p : JoinedPost → Bool) → count p seen ≡ count p (reply_rows post viewer.id d))))
unfolding reply_rows
scroll-shows_replies F post viewer d parent law profile_once post_once readable times =
    let rows = reply_rows post viewer.id d in
    (
      walk (by_creation true) (suc (length rows)) default_page_size none rows,
      (
        scroll-walk F law post viewer d parent readable (suc (length rows)) none tt times,
        walk-shows_all (by_creation true) 19 rows (
            joined_posts-AreDistinct viewer.id (answers post) keeps_replies d profile_once post_once
              true),
      ),
    )
