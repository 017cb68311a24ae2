-- ===== src/Search/Results.antt =====
-- What the search of posts answers (api/search.py and app/repositories/posts.py).
use udesa_x_posts_api.Common.{
  ℕ, ◌≤◌, ◌≡◌, is_some, Bool, true, false, List, [], ◌∷◌, ◌==◌, length, ◌++◌,
}
use mathlib.Core.List.{Memᴰ}
use udesa_x_posts_api.Database.{Db}
use udesa_x_posts_api.Posts.{visible_to, blocked_either_way}
use udesa_x_posts_api.Posts.Joined.{JoinedPost}
use udesa_x_posts_api.Search.{snippet}
use udesa_x_posts_api.Search.Rendering.{shade, AreTidy}
use udesa_x_posts_api.Search.Excerpt.{excerpt}
use udesa_x_posts_api.Search.Posts.{percent, escaped, SearchPostResponse, match_positions}

module _ (ilike : List ℕ → List ℕ → Bool) where
  module _ (query : List ℕ) (viewer : ℕ) (d : Db) where
    -- A row that a search may answer with, of the tables: its text meets the pattern of the query, it is not deleted,
    -- and its author, who is open, lets the viewer read it and is not separated by a block.
    pub record IsHit (r : JoinedPost) : Type 0 where
      pub post_in : Memᴰ r.post d.posts
      pub author_in : Memᴰ r.author d.profiles
      pub found : ilike r.post.content (percent ∷ (escaped query ++ percent ∷ [])) ≡ true
      pub live : is_some r.post.deleted_at ≡ false
      pub same_author : (r.author.id == r.post.author_id) ≡ true
      pub readable : visible_to viewer r.author false d ≡ true
      pub open_author : is_some r.author.deleted_at ≡ false
      pub unblocked : blocked_either_way viewer r.author.id d ≡ false

    abbrev pub item_of : JoinedPost → SearchPostResponse
    item_of r = record {
      id = r.post.id;
      author_id = r.post.author_id;
      author_handle = r.author.handle;
      created_at = r.post.created_at;
      parent_id = r.post.parent_id;
      snippet = snippet r.post.content query (match_positions ilike r.post.content query);
    }

    -- An item of the answer: of such a row, its excerpt the window of the text around the first
    -- match, of at most 160 characters, in which exactly what some match holds is highlighted.
    pub record IsAnswer (i : SearchPostResponse) : Type 0 where
      pub row : JoinedPost
      pub hit : IsHit row
      pub same : i ≡ item_of row
      pub highlighted :
          shade i.snippet
          ≡ excerpt row.post.content query (match_positions ilike row.post.content query)
      pub short : length (shade i.snippet) ≤ 160
      pub tidy : AreTidy i.snippet
