-- ===== src/Search/Posts.antt =====
-- The search of posts: `PostRepository.search` (app/repositories/posts.py) and the endpoint
-- `search_posts` (api/search.py). `ILIKE` is an argument: whether a text meets a pattern.
use udesa_x_posts_api.Common.{
  ℕ, zero, suc, String, ◌+◌, ◌-◌, Option, none, some, is_some, Bool, false, ◌&&◌, not, List, [],
  ◌∷◌, ◌++◌, map, ◌==◌, if◌then◌else◌, length,
}
use udesa_x_posts_api.Common.Rows.{select}
use udesa_x_posts_api.Common.Action.{Action, pure, gets, expect, ◌>>=◌, ◌>>◌}
use udesa_x_posts_api.Models.{Account, PostWithAuthor}
use udesa_x_posts_api.Database.{Db, PostRow}
use udesa_x_posts_api.Follows.{ensure_profile}
use udesa_x_posts_api.Posts.{to_post_with_author}
use udesa_x_posts_api.Posts.Joined.{JoinedPost, joined_posts}
use udesa_x_posts_api.Pagination.{default_page_size, apply_cursor, page_of}
use udesa_x_posts_api.Pagination.Orders.{Cursor}
use udesa_x_posts_api.Pagination.Encoding.{Formats}
use udesa_x_posts_api.Replies.{page_after, decoded, encoded}
use udesa_x_posts_api.Search.{SnippetSegment, normalize_query, slice, snippet}

abbrev pub percent : ℕ
percent = 0x25

abbrev pub backslash : ℕ
backslash = 0x5c

-- `str.replace` of a character by the character after a backslash.
abbrev pub replace : ℕ → List ℕ → List ℕ
replace c [] = []
replace c (x ∷ xs) = (if x == c then backslash ∷ c ∷ [] else x ∷ []) ++ replace c xs

unfoldable pub escaped : List ℕ → List ℕ
escaped query = replace 0x5f (replace percent (replace backslash query))

-- `generate_series`, from 0 on.
abbrev pub series : ℕ → ℕ → List ℕ
series i zero = []
series i (suc n) = i ∷ series (suc i) n

-- A post that was found, and where the query stands in it.
pub record FoundPost : Type 0 where
  pub post : PostWithAuthor
  pub positions : List ℕ

-- `SearchPostResponse`
pub record SearchPostResponse : Type 0 where
  pub id : ℕ
  pub author_id : ℕ
  pub author_handle : Option String
  pub created_at : ℕ
  pub parent_id : Option ℕ
  pub snippet : List SnippetSegment

abbrev pub goes_with_author : PostRow → Bool
goes_with_author p = false

abbrev pub response : List ℕ → FoundPost → Option (List ℕ) → Option SearchPostResponse
response query f none = none
response query f (some content) = some (record {
  id = f.post.id;
  author_id = f.post.author_id;
  author_handle = f.post.author_handle;
  created_at = f.post.created_at;
  parent_id = f.post.parent_id;
  snippet = snippet content query f.positions;
})

abbrev pub and_response :
    Option SearchPostResponse → Option (List SearchPostResponse) → Option (List SearchPostResponse)
and_response none rest = none
and_response (some r) none = none
and_response (some r) (some rest) = some (r ∷ rest)

-- The items of the answer; the length of a content that is None would raise.
unfoldable pub responses : List ℕ → List FoundPost → Option (List SearchPostResponse)
unfolding snippet
responses query [] = some []
responses query (f ∷ found) = and_response (response query f f.post.content) (responses query found)

abbrev pub checked_query : List ℕ → Action Db (List ℕ)
checked_query q d = (normalize_query q, d)

module _ (ilike : List ℕ → List ℕ → Bool) where
  unfoldable pub match_positions : List ℕ → List ℕ → List ℕ
  unfolding escaped
  match_positions content query =
      select (λ i. ilike (slice i (i + length query) content) (escaped query))
        (series 0 (length content + 1 - length query))

  abbrev pub is_found : List ℕ → PostRow → Bool
  is_found query p =
      ilike p.content (percent ∷ (escaped query ++ percent ∷ [])) && not (is_some p.deleted_at)

  unfoldable pub search_rows : List ℕ → ℕ → Db → List JoinedPost
  unfolding joined_posts
  search_rows query viewer d = joined_posts viewer (is_found query) goes_with_author d

  unfoldable pub found_post : List ℕ → JoinedPost → FoundPost
  unfolding match_positions
  found_post query r = record {
    post =
        to_post_with_author r.post (record (r.author) { deleted_at = none; avatar_key = none })
          false false;
    positions = match_positions r.post.content query;
  }

  -- `PostRepository.search`
  unfoldable pub search : List ℕ → ℕ → Option Cursor → Db → List FoundPost × Option Cursor
  unfolding search_rows found_post page_of apply_cursor
  search query viewer cursor d =
      let (rows, next) = page_after false cursor default_page_size (search_rows query viewer d) in
      (map (found_post query) rows, next)

  -- The endpoint.
  unfoldable pub search_posts :
      Formats
      → List ℕ
      → Account
      → Option (List ℕ)
      → Action Db (List SearchPostResponse × Option (List ℕ))
  unfolding search responses
  search_posts F q viewer cursor = do
    query ← checked_query q
    after ← decoded F cursor
    ensure_profile viewer
    (found, next) ← gets (search query viewer.id after)
    items ← expect (responses query found)
    pure (items, encoded F next)
