-- ===== src/Graph.antt =====
-- What must hold of the social graph: the profiles, the follows, the follow requests and the
-- blocks, over the tables of Database and the conditions of the repositories.
pub mod Counters
pub mod Keys
pub mod Apart
pub mod Statements
pub mod Following
pub mod Answering
pub mod Blocking
pub mod Releasing
pub mod Closing
pub mod History
use udesa_x_posts_api.Common.{ℕ, ◌≤◌, ◌<◌, ◌≡◌, false, List, ◌==◌, Bool}
use udesa_x_posts_api.Common.Lists.{All}
use udesa_x_posts_api.Common.Int.{pos}
use udesa_x_posts_api.Common.Rows.{count, exists}
use udesa_x_posts_api.Database.{Db, UserProfileRow, FollowRow, FollowRequestRow, BlockRow}
use udesa_x_posts_api.Follows.{profile_id, pair_of}
use udesa_x_posts_api.FollowRequests.{open_pair}
use udesa_x_posts_api.Blocks.{block_pair}

abbrev pub follows_to : ℕ → FollowRow → Bool
follows_to u r = r.followee_id == u

abbrev pub follows_from : ℕ → FollowRow → Bool
follows_from u r = r.follower_id == u

-- A counter shows the number of rows of `follows` that it stands for.
abbrev pub FollowersMatch : List FollowRow → UserProfileRow → Type 0
FollowersMatch fs p = p.followers_count ≡ pos (count (follows_to p.id) fs)

abbrev pub FollowingMatch : List FollowRow → UserProfileRow → Type 0
FollowingMatch fs p = p.following_count ≡ pos (count (follows_from p.id) fs)

-- Every profile shows how many accounts follow it and how many it follows.
pub record AreCounted (ps : List UserProfileRow) (fs : List FollowRow) : Type 0 where
  pub followers : All (FollowersMatch fs) ps
  pub following : All (FollowingMatch fs) ps

-- The keys and checks of `user_profiles` and `follows`.
pub record AreKeyed (ps : List UserProfileRow) (fs : List FollowRow) : Type 0 where
  pub profile_once : (u : ℕ) → count (profile_id u) ps ≤ 1
  pub follow_once : (a b : ℕ) → count (pair_of a b) fs ≤ 1
  pub not_self : (a : ℕ) → count (pair_of a a) fs ≡ 0
  pub follower_known : (a : ℕ) → exists (profile_id a) ps ≡ false → count (follows_from a) fs ≡ 0
  pub followee_known : (a : ℕ) → exists (profile_id a) ps ≡ false → count (follows_to a) fs ≡ 0

-- A pair never has two open requests.
abbrev pub IsOpenOnce : List FollowRequestRow → Type 0
IsOpenOnce rs = (a b : ℕ) → count (open_pair a b) rs ≤ 1

-- No follow and no open request joins two accounts of which one blocked the other.
pub record IsApart (fs : List FollowRow) (rs : List FollowRequestRow) (a b : ℕ) : Type 0 where
  pub no_follow : count (pair_of a b) fs ≡ 0
  pub no_follow_back : count (pair_of b a) fs ≡ 0
  pub no_request : count (open_pair a b) rs ≡ 0
  pub no_request_back : count (open_pair b a) rs ≡ 0

abbrev pub BlocksSever : List BlockRow → List FollowRow → List FollowRequestRow → Type 0
BlocksSever bs fs rs = (a b : ℕ) → 0 < count (block_pair a b) bs → IsApart fs rs a b

pub record IsConsistent (d : Db) : Type 0 where
  pub keyed : AreKeyed d.profiles d.follows
  pub counted : AreCounted d.profiles d.follows
  pub open_once : IsOpenOnce d.follow_requests
  pub severed : BlocksSever d.blocks d.follows d.follow_requests
