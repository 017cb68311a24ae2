-- ===== src/Posts/Joined.antt =====
-- The statements of PostRepository that join the posts to their authors (app/repositories/posts.py,
-- `replies_to` and `search`), and that each of their rows stands for a post of its own.
use udesa_x_posts_api.Common.{
  ℕ, ◌≤◌, ◌≡◌, refl, Bool, true, ◌&&◌, List, [], ◌∷◌, map, ◌==◌, arith, if◌then◌else◌,
}
use mathlib.Core.List.{Memᴰ}
use udesa_x_posts_api.Common.Lists.{All, All-map}
use udesa_x_posts_api.Common.Rows.{select, count, gather, All-gather}
use udesa_x_posts_api.Common.Joins.{length-select, count-select, count-gather, count_map}
use udesa_x_posts_api.Database.{Db, UserProfileRow, PostRow}
use udesa_x_posts_api.Follows.{profile_id}
use udesa_x_posts_api.Posts.{post_id, visible_to}
use udesa_x_posts_api.Pagination.{Listing}
use udesa_x_posts_api.Pagination.Orders.{by_cursor}
use udesa_x_posts_api.Pagination.Lists.{select-members}
use udesa_x_posts_api.Pagination.Sorted.{AreApart, AreDistinct}

pub record JoinedPost : Type 0 where
  pub post : PostRow
  pub author : UserProfileRow

-- The authors that let the viewer read a post; `keeps` says whether it stays when its author closes.
abbrev pub readable_author : ℕ → (PostRow → Bool) → Db → PostRow → UserProfileRow → Bool
readable_author viewer keeps d p a = a.id == p.author_id && visible_to viewer a (keeps p) d

abbrev pub with_author : ℕ → (PostRow → Bool) → Db → PostRow → List JoinedPost
with_author viewer keeps d p =
    map (λ a. record { post = p; author = a })
      (select (readable_author viewer keeps d p) d.profiles)

-- The posts that meet a condition, with an author that lets the viewer read them.
unfoldable pub joined_posts : ℕ → (PostRow → Bool) → (PostRow → Bool) → Db → List JoinedPost
joined_posts viewer shows keeps d = gather (with_author viewer keeps d) (select shows d.posts)

-- By `created_at` and then by the id.
abbrev pub by_creation : Bool → Listing
by_creation ascending = record {
  Row = JoinedPost;
  order = by_cursor;
  key = λ r. record { at = r.post.created_at; tiebreak = r.post.id };
  ascending = ascending;
}

abbrev has_id : ℕ → JoinedPost → Bool
has_id p r = r.post.id == p

apart_of :
    (b : Bool) (x : JoinedPost) (xs : List JoinedPost)
    → count (has_id x.post.id) xs ≡ 0
    → All (AreApart (by_creation b) x) xs
apart_of b x [] h = tt
apart_of b x (y ∷ ys) h =
    ((ground (arith, h), ground (arith, h)), apart_of b x ys (ground (arith, h)))

distinct_of :
    (b : Bool) (rows : List JoinedPost)
    → ((p : ℕ) → count (has_id p) rows ≤ 1)
    → AreDistinct (by_creation b) rows
distinct_of b [] h = tt
distinct_of b (x ∷ xs) h =
    (apart_of b x xs (ground (arith, h x.post.id)), distinct_of b xs (λ p. ground (arith, h p)))

module _ (viewer : ℕ) (shows keeps : PostRow → Bool) (d : Db) where
  module _ (profile_once : (u : ℕ) → count (profile_id u) d.profiles ≤ 1)
      (post_once : (p : ℕ) → count (post_id p) d.posts ≤ 1) where
    count-with_author :
        (k : ℕ) (p : PostRow)
        → count (has_id k) (with_author viewer keeps d p) ≤ (if post_id k p then 1 else 0)
    count-with_author k p =
        count_map (has_id k) _ (p.id == k) (λ a. refl)
          (select (readable_author viewer keeps d p) d.profiles)
          (omega (
            arith,
            profile_once p.author_id,
            length-select (readable_author viewer keeps d p) (profile_id p.author_id)
                (λ a h. ground (arith, h)) d.profiles,
          ))

    -- By the keys of the tables, the rows differ in the columns that order them.
    pub joined_posts-AreDistinct :
        (b : Bool) → AreDistinct (by_creation b) (joined_posts viewer shows keeps d)
    unfolding joined_posts
    joined_posts-AreDistinct b = distinct_of b (joined_posts viewer shows keeps d) (λ k. omega (
      arith,
      count-gather (has_id k) (post_id k) (with_author viewer keeps d) (count-with_author k)
          (select shows d.posts),
      count-select shows (post_id k) d.posts,
      post_once k,
    ))

  -- A row of the statement: a post that meets the condition, with its author, who lets it be read.
  pub record IsReadable (r : JoinedPost) : Type 0 where
    pub post_in : Memᴰ r.post d.posts
    pub author_in : Memᴰ r.author d.profiles
    pub shown : shows r.post ≡ true
    pub same_author : (r.author.id == r.post.author_id) ≡ true
    pub readable : visible_to viewer r.author (keeps r.post) d ≡ true

  pub joined_posts-IsReadable : All IsReadable (joined_posts viewer shows keeps d)
  unfolding joined_posts
  joined_posts-IsReadable =
      All-gather IsReadable (λ p. Memᴰ p d.posts × (shows p ≡ true)) (with_author viewer keeps d)
        (λ p (there, shown).
          All-map (λ a. Memᴰ a d.profiles × (readable_author viewer keeps d p a ≡ true)) IsReadable
            _
            (λ a (known, h). record {
              post_in = there;
              author_in = known;
              shown = shown;
              same_author = ground (arith, h);
              readable = ground (arith, h);
            })
            (select (readable_author viewer keeps d p) d.profiles)
            (select-members (readable_author viewer keeps d p) d.profiles))
        (select shows d.posts) (select-members shows d.posts)
