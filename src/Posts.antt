-- ===== src/Posts.antt =====
-- PostRepository (app/repositories/posts.py) without its listings, the visibility rule of
-- app/repositories/post_visibility.py, and `liked_by` and `retweeted_by`.
pub mod Marks
pub mod Joined
pub mod Content
pub mod Service
pub mod Tallies
pub mod Keeping
pub mod Closing
pub mod History
pub mod Stripped
pub mod Privacy
pub mod Outcomes
pub mod Marking
pub mod Writing
pub mod Sharing
use udesa_x_posts_api.Common.{
  ℕ, String, Option, none, some, is_some, Bool, true, false, ◌&&◌, ◌||◌, not, List, ◌∷◌, ◌==◌, leb,
  if◌then◌else◌,
}
use udesa_x_posts_api.Common.Int.{ℤ, pos, ◌+ℤ◌}
use udesa_x_posts_api.Common.Rows.{count, exists, find, update}
use udesa_x_posts_api.Common.Action.{Action, Result, ok, pure, gets, modify, crash_if, ◌>>=◌, ◌>>◌}
use udesa_x_posts_api.Models.{Post, PostWithAuthor}
use udesa_x_posts_api.Models.Equality.{is_protected}
use udesa_x_posts_api.Database.{
  Db, UserProfileRow, PostRow, PostLanguage, LikeRow, RetweetRow, Tick,
}
use udesa_x_posts_api.Follows.{profile_id, profile_exists, pair_of}
use udesa_x_posts_api.Blocks.{block_pair}

abbrev pub post_id : ℕ → PostRow → Bool
post_id p r = r.id == p

abbrev pub post_exists : ℕ → Db → Bool
post_exists p d = exists (post_id p) d.posts

abbrev pub like_pair : ℕ → ℕ → LikeRow → Bool
like_pair u p r = r.user_id == u && r.post_id == p

abbrev pub retweet_pair : ℕ → ℕ → RetweetRow → Bool
retweet_pair u p r = r.user_id == u && r.post_id == p

unfoldable pub liked_by : ℕ → ℕ → Db → Bool
liked_by viewer p d = exists (like_pair viewer p) d.likes

unfoldable pub retweeted_by : ℕ → ℕ → Db → Bool
retweeted_by viewer p d = exists (retweet_pair viewer p) d.retweets

abbrev pub blocked_either_way : ℕ → ℕ → Db → Bool
blocked_either_way viewer author d =
    exists (block_pair viewer author) d.blocks || exists (block_pair author viewer) d.blocks

-- Whether the author lets the viewer read a post; `keeps_deleted_author` says that it is a reply.
unfoldable pub visible_to : ℕ → UserProfileRow → Bool → Db → Bool
visible_to viewer author keeps_deleted_author d =
    (not (is_some author.deleted_at) || keeps_deleted_author)
    && (not (blocked_either_way viewer author.id d)
        && (not (is_protected author.visibility)
            || (author.id == viewer || exists (pair_of viewer author.id) d.follows)))

abbrev pub unless_some {ℓ} : {A : Type ℓ} → Option ℕ → A → A → A
unless_some none live gone = live
unless_some (some at) live gone = gone

unfoldable pub to_post_with_author : PostRow → UserProfileRow → Bool → Bool → PostWithAuthor
to_post_with_author p author liked retweeted = record {
  id = p.id;
  author_id = p.author_id;
  author_handle = unless_some author.deleted_at author.handle none;
  content = unless_some p.deleted_at (some p.content) none;
  created_at = p.created_at;
  likes_count = unless_some p.deleted_at p.likes_count (pos 0);
  retweets_count = unless_some p.deleted_at p.retweets_count (pos 0);
  replies_count = p.replies_count;
  deleted = is_some p.deleted_at;
  parent_id = p.parent_id;
  liked_by_me = liked && not (is_some p.deleted_at);
  retweeted_by_me = retweeted && not (is_some p.deleted_at);
  author_deleted = is_some author.deleted_at;
  author_avatar_key = unless_some author.deleted_at author.avatar_key none;
}

-- The row of the join, if there is one and its conditions hold.
unfoldable pub visible_row : ℕ → Bool → Db → PostRow → Option UserProfileRow → Option PostWithAuthor
visible_row viewer include_deleted d p none = none
visible_row viewer include_deleted d p (some author) =
    if (include_deleted || not (is_some p.deleted_at))
      && visible_to viewer author (is_some p.parent_id) d
    then some (to_post_with_author p author (liked_by viewer p.id d) (retweeted_by viewer p.id d))
    else none

unfoldable pub visible_post : ℕ → Bool → Db → Option PostRow → Option PostWithAuthor
visible_post viewer include_deleted d none = none
visible_post viewer include_deleted d (some p) =
    visible_row viewer include_deleted d p (find (profile_id p.author_id) d.profiles)

unfoldable pub find_visible : ℕ → ℕ → Bool → Action Db (Option PostWithAuthor)
find_visible p viewer include_deleted =
    gets (λ d. visible_post viewer include_deleted d (find (post_id p) d.posts))

-- The lock is taken by the database; the read is that of `find_visible`.
unfoldable pub lock_visible : ℕ → ℕ → Action Db (Option PostWithAuthor)
lock_visible p viewer = find_visible p viewer true

unfoldable pub to_post : PostRow → Post
to_post r = record {
  id = r.id;
  author_id = r.author_id;
  content = r.content;
  created_at = r.created_at;
  likes_count = r.likes_count;
  retweets_count = r.retweets_count;
  replies_count = r.replies_count;
  parent_id = r.parent_id;
}

abbrev pub new_post : Tick → ℕ → List ℕ → PostLanguage → Option ℕ → PostRow
new_post t author content language parent = record {
  id = t.row_id;
  author_id = author;
  parent_id = parent;
  deleted_at = none;
  content = content;
  language = some language;
  created_at = t.now;
  likes_count = pos 0;
  retweets_count = pos 0;
  replies_count = pos 0;
}

abbrev pub parent_missing : Option ℕ → Db → Bool
parent_missing none d = false
parent_missing (some p) d = not (post_exists p d)

-- The primary key and the two foreign keys of `posts`.
unfoldable pub refuses_post : Tick → ℕ → Option ℕ → Db → Bool
refuses_post t author parent d =
    post_exists t.row_id d || (not (profile_exists author d) || parent_missing parent d)

-- `PostRepository.create`
unfoldable pub create_post : Tick → ℕ → List ℕ → PostLanguage → Option ℕ → Action Db Post
create_post t author content language parent = do
  refused ← gets (refuses_post t author parent)
  crash_if refused
  modify (λ d. record d { posts = new_post t author content language parent ∷ d.posts })
  pure (to_post (new_post t author content language parent))

abbrev pub live_post : ℕ → PostRow → Bool
live_post p r = r.id == p && not (is_some r.deleted_at)

abbrev pub deleted_post : ℕ → PostRow → PostRow
deleted_post at r = record r { deleted_at = some at; likes_count = pos 0; retweets_count = pos 0 }

-- `mark_deleted`; `clock_timestamp()` is the clock of the tick.
unfoldable pub mark_deleted : Tick → ℕ → Action Db (Unit {0})
mark_deleted t p =
    modify (λ d. record d { posts = update (live_post p) (deleted_post t.clock) d.posts })

abbrev pub add_reply : PostRow → PostRow
add_reply r = record r { replies_count = r.replies_count +ℤ pos 1 }

unfoldable pub count_reply : ℕ → Action Db (Unit {0})
count_reply p = modify (λ d. record d { posts = update (post_id p) add_reply d.posts })

abbrev pub created_since : ℕ → PostRow → Bool
created_since since r = leb since r.created_at

unfoldable pub count_created_since : ℕ → Action Db ℕ
count_created_since since = gets (λ d. count (created_since since) d.posts)

abbrev pub live_by : ℕ → PostRow → Bool
live_by author r = r.author_id == author && not (is_some r.deleted_at)

unfoldable pub count_by_author : ℕ → Action Db ℕ
count_by_author author = gets (λ d. count (live_by author) d.posts)
