-- ===== src/Tests.antt =====
-- Accounts, states and a limiter to run the calls of the other modules on.
mod Graph
mod Cursors
mod Consumer
mod Sessions
mod Search
mod Feed
mod Lists
mod Outbox
mod Pages
mod Posts
mod Limiter
mod Reports
mod Storage
mod Uploads
use udesa_x_posts_api.Common.{ℕ, suc, none, some, List, [], ◌∷◌}
use udesa_x_posts_api.Common.Int.{pos}
use udesa_x_posts_api.Models.{Account, ProfileVisibility, FollowRequestStatus}
use udesa_x_posts_api.Database.{
  Db, UserProfileRow, FollowRow, FollowRequestRow, BlockRow, MuteRow, PostRow, Tick, PostLanguage,
}
use udesa_x_posts_api.RateLimiter.{RateLimiter, Session}
use udesa_x_posts_api.Follows.{new_profile}
use udesa_x_posts_api.Posts.{new_post}

abbrev pub at : ℕ → Tick
at n = record { now = n; clock = n; row_id = n; event_id = n }

abbrev pub ana : Account
ana = record { id = 1; handle = some "ana"; profile_visibility = some ProfileVisibility.public }

abbrev pub bruno : Account
bruno = record {
  id = 2;
  handle = some "bruno";
  profile_visibility = some ProfileVisibility.protected;
}

abbrev pub carla : Account
carla = record { id = 3; handle = none; profile_visibility = none }

abbrev pub empty : Db
empty = record {
  profiles = [];
  feed_preferences = [];
  follows = [];
  follow_requests = [];
  blocks = [];
  mutes = [];
  posts = [];
  media = [];
  reports = [];
  likes = [];
  retweets = [];
  outbox = [];
}

abbrev pub ana_row : UserProfileRow
ana_row = new_profile 1 (some "ana") ProfileVisibility.public

abbrev pub bruno_row : UserProfileRow
bruno_row = new_profile 2 (some "bruno") ProfileVisibility.protected

-- Both have their profiles, and Bruno wrote a post.
abbrev pub acquainted : Db
acquainted = record empty {
  profiles = ana_row ∷ bruno_row ∷ [];
  posts = (new_post (at 7) 2 (0x68 ∷ 0x69 ∷ []) PostLanguage.en none) ∷ [];
}

-- Bruno blocked Ana.
abbrev pub blocked : Db
blocked = record acquainted {
  blocks = (record { blocker_id = 2; blocked_id = 1; created_at = 5 }) ∷ [];
}

-- Ana asked to follow Bruno.
abbrev pub open_row : FollowRequestRow
open_row = record {
  id = 4;
  requester_id = 1;
  target_id = 2;
  status = FollowRequestStatus.pending;
  created_at = 4;
}

abbrev pub asked : Db
asked = record acquainted { follow_requests = open_row ∷ [] }

-- Counts every attempt under one mark, whatever its key.
abbrev pub one_mark : RateLimiter
one_mark = record { State = ℕ; hit = λ key window n. (suc n, suc n); seconds_left = λ key n. 60 }

abbrev pub start : Session ℕ
start = record { db = empty; marks = 0 }
