-- ===== src/Graph/Statements.antt =====
-- What the calls of the repositories leave of a consistent graph.
use udesa_x_posts_api.Common.{
  ℕ, ◌≡◌, refl, ◌≢◌, Bool, true, false, List, arith, inl, inr, if◌then◌else◌, Bool-cases,
}
use udesa_x_posts_api.Common.Int.{pos, negsuc}
use udesa_x_posts_api.Common.Rows.{count, exists, update, delete, find-some, count-delete_le}
use udesa_x_posts_api.Common.Action.Rules.{
  Post, post_pure, post_if, post_expect, post_call, post_read, post_write, post_check, post_modify,
}
use udesa_x_posts_api.Models.{Account, FollowRequestStatus}
use udesa_x_posts_api.Database.{Db, Tick, UserProfileRow, FollowRow}
use udesa_x_posts_api.Follows.{
  profile_id, pair_of, profile_exists, new_profile, insert_profile, get_profile, ensure_profile,
  add_follow, refuses_follow, move_counters, or_public,
}
use udesa_x_posts_api.Blocks.{block_pair}
use udesa_x_posts_api.FollowRequests.{open_pair, with_status}
use udesa_x_posts_api.Graph.{IsConsistent, AreKeyed, AreCounted, IsOpenOnce, BlocksSever}
use udesa_x_posts_api.Graph.Counters.{
  moved, AreCounted-follow, AreCounted-unfollow, AreCounted-absent,
}
use udesa_x_posts_api.Graph.Keys.{
  AreKeyed-same_ids, AreKeyed-follow, AreKeyed-unfollow, AreKeyed-new_profile,
  AreCounted-new_profile, AreCounted-refresh, count-moved, count-refresh,
}
use udesa_x_posts_api.Graph.Apart.{BlocksSever-follow, IsApart-shrink, count-close_pair}
use native.Mathlib.Nat.{le_refl}

-- A consistent graph in which an account has its profile.
pub record HasProfile (u : ℕ) (d : Db) : Type 0 where
  pub consistent : IsConsistent d
  pub known : profile_exists u d ≡ true

insert_profile-keeps :
    (account : Account) (d : Db)
    → IsConsistent d
    → Post
        (λ _ e. IsConsistent e)
        (insert_profile
          (new_profile account.id account.handle (or_public account.profile_visibility))
          d)
unfolding insert_profile
insert_profile-keeps account d v = post_read _ _ d (
    post_if _ _ _ d (λ there. post_pure _ _ v)
      λ new. post_read _ _ d (
        post_check _ _ d λ _. post_modify _ d (record {
          keyed = AreKeyed-new_profile d.profiles d.follows _ _ _ new v.keyed;
          counted = AreCounted-new_profile d.profiles d.follows _ _ _ new v.keyed v.counted;
          open_once = v.open_once;
          severed = v.severed;
        })))

get_profile-keeps :
    (u : ℕ) (d : Db) → IsConsistent d → Post (λ _ e. HasProfile u e) (get_profile u d)
unfolding get_profile
get_profile-keeps u d v = post_read _ _ d (
    post_expect _ d λ r there. record {
      consistent = v;
      known = ground (arith, find-some (profile_id u) d.profiles r);
    })

-- `ensure_profile` keeps the graph consistent and leaves the account on it.
pub ensure_profile-keeps :
    (account : Account) (d : Db)
    → IsConsistent d
    → Post (λ _ e. HasProfile account.id e) (ensure_profile account d)
unfolding ensure_profile
ensure_profile-keeps account d v =
    post_call (λ _ e. IsConsistent e) _ _ d (insert_profile-keeps account d v)
      λ _ d1 v1. post_call _ _ _ d1 (get_profile-keeps account.id d1 v1) λ row d2 v2.
        post_read _ _ d2 (
          post_check _ _ d2 λ _. post_write _ _ d2 (
            post_pure _ _ (record {
              consistent = record {
                keyed =
                    AreKeyed-same_ids d2.profiles _ _ (λ u. count-refresh account u d2.profiles)
                      v2.consistent.keyed;
                counted = AreCounted-refresh d2.profiles d2.follows account v2.consistent.counted;
                open_once = v2.consistent.open_once;
                severed = v2.consistent.severed;
              };
              known = ground (arith, count-refresh account account.id d2.profiles, v2.known);
            })))

-- The follow is there, and only its `move_counters` is missing.
pub record IsShort (a b : ℕ) (d : Db) : Type 0 where
  pub keyed : AreKeyed d.profiles d.follows
  pub counted : AreCounted (moved a b (pos 1) d.profiles) d.follows
  pub open_once : IsOpenOnce d.follow_requests
  pub severed : BlocksSever d.blocks d.follows d.follow_requests

-- What `refuses_follow` lets through.
record IsAddable (a b : ℕ) (d : Db) : Type 0 where
  distinct : a ≢ b
  absent : count (pair_of a b) d.follows ≡ 0
  follower : exists (profile_id a) d.profiles ≡ true
  followee : exists (profile_id b) d.profiles ≡ true

addable : (a b : ℕ) (d : Db) → refuses_follow a b d ≡ false → IsAddable a b d
unfolding refuses_follow
addable a b d h = record {
  distinct = ground arith;
  absent = ground arith;
  follower = ground arith;
  followee = ground arith;
}

-- A new follow between two accounts that no block separates.
pub add_follow-IsShort :
    (t : Tick) (a b : ℕ) (d : Db)
    → IsConsistent d
    → count (block_pair a b) d.blocks ≡ 0
    → count (block_pair b a) d.blocks ≡ 0
    → Post (λ _ e. IsShort a b e) (add_follow t a b d)
unfolding add_follow
add_follow-IsShort t a b d v free free_back = post_read _ _ d (
    post_check _ _ d λ accepted.
      let can = addable a b d accepted in
      post_modify _ d (record {
        keyed =
            AreKeyed-follow d.profiles d.follows a b t.now can.distinct can.absent can.follower
              can.followee v.keyed;
        counted = AreCounted-follow a b d.profiles d.follows t.now v.counted;
        open_once = v.open_once;
        severed =
            BlocksSever-follow a b d.blocks d.follows d.follow_requests t.now free free_back
              v.severed;
      }))

pub move_counters-keeps :
    (a b : ℕ) (d : Db) → IsShort a b d → Post (λ _ e. IsConsistent e) (move_counters a b (pos 1) d)
unfolding move_counters
move_counters-keeps a b d short = post_write _ _ d (
    post_modify _ _ (record {
      keyed =
          AreKeyed-same_ids d.profiles _ d.follows (λ u. count-moved a b u (pos 1) d.profiles)
            short.keyed;
      counted = short.counted;
      open_once = short.open_once;
      severed = short.severed;
    }))

-- The graph after `remove_follow`, with the counters moved if there was a follow.
abbrev pub unfollowed : ℕ → ℕ → Db → Db
unfollowed a b d = record d {
  profiles = if exists (pair_of a b) d.follows then moved a b (negsuc 0) d.profiles else d.profiles;
  follows = delete (pair_of a b) d.follows;
}

AreCounted-unfollowed :
    (a b : ℕ) (ps : List UserProfileRow) (fs : List FollowRow)
    → AreKeyed ps fs
    → AreCounted ps fs
    → AreCounted
        (if exists (pair_of a b) fs then moved a b (negsuc 0) ps else ps)
        (delete (pair_of a b) fs)
AreCounted-unfollowed a b ps fs k c = elim (Bool-cases (exists (pair_of a b) fs)) [
  | inl there ↦ rw there (AreCounted-unfollow a b ps fs (ground (arith, k.follow_once a b)) c)
  | inr absent ↦ rw absent (AreCounted-absent a b ps fs (ground arith) c)
]

count-unfollowed :
    (a b u : ℕ) (ps : List UserProfileRow) (c : Bool)
    → count (profile_id u) (if c then moved a b (negsuc 0) ps else ps) ≡ count (profile_id u) ps
count-unfollowed a b u ps true = count-moved a b u (negsuc 0) ps
count-unfollowed a b u ps false = refl

pub unfollowed-keeps : (a b : ℕ) (d : Db) → IsConsistent d → IsConsistent (unfollowed a b d)
unfollowed-keeps a b d v = record {
  keyed =
      AreKeyed-same_ids d.profiles _ _
        (λ u. count-unfollowed a b u d.profiles (exists (pair_of a b) d.follows))
        (AreKeyed-unfollow d.profiles d.follows a b v.keyed);
  counted = AreCounted-unfollowed a b d.profiles d.follows v.keyed v.counted;
  open_once = v.open_once;
  severed = λ x y blocked.
      IsApart-shrink d.follows _ d.follow_requests _
        (λ p q. count-delete_le (pair_of p q) (pair_of a b) d.follows) (λ p q. le_refl _) x y
        (v.severed x y blocked);
}

-- The graph after `cancel_request`.
abbrev pub withdrawn : ℕ → ℕ → Db → Db
withdrawn a b d = record d {
  follow_requests =
      update (open_pair a b) (with_status FollowRequestStatus.cancelled) d.follow_requests;
}

pub withdrawn-keeps : (a b : ℕ) (d : Db) → IsConsistent d → IsConsistent (withdrawn a b d)
withdrawn-keeps a b d v = record {
  keyed = v.keyed;
  counted = v.counted;
  open_once = λ x y. omega (arith, v.open_once x y, count-close_pair a b x y d.follow_requests);
  severed = λ x y blocked.
      IsApart-shrink d.follows _ d.follow_requests _ (λ p q. le_refl _)
        (λ p q. count-close_pair a b p q d.follow_requests) x y (v.severed x y blocked);
}
