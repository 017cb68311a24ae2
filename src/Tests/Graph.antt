-- ===== src/Tests/Graph.antt =====
-- Runs of the calls on the graph, and the theorems on them at concrete inputs.
use udesa_x_posts_api.Common.{ℕ, ◌≡◌, refl, true, false, List, [], ◌∷◌, inr, arith}
use udesa_x_posts_api.Common.Int.{pos}
use udesa_x_posts_api.Common.Action.{ok, crash, problem}
use udesa_x_posts_api.Common.Action.Rules.{Post}
use udesa_x_posts_api.Database.{Db, Tick}
use udesa_x_posts_api.RateLimiter.{RateKey, Session}
use udesa_x_posts_api.Blocks.{add_block, refuses_block}
use udesa_x_posts_api.FollowRequests.{cancel_request}
use udesa_x_posts_api.Follows.{
  live_profile, find_profile, remove_follow, move_counters, to_profile, ensure_profile,
  insert_profile, get_profile, refuses_follow,
}
use udesa_x_posts_api.Follows.Service.{user_not_found, follow_in_db}
use udesa_x_posts_api.Follows.Outcomes.{
  follow_in_db-hides, follow_in_db-refuses, follow_in_db-Established, Established,
}
use udesa_x_posts_api.Follows.Charging.{Counts, AreLimited, follow-limited}
use udesa_x_posts_api.FollowRequests.Service.{approve}
use udesa_x_posts_api.FollowRequests.Outcomes.{approve-IsApproved, approve-crashes, IsApproved}
use udesa_x_posts_api.UserDeletion.{
  apply, close, release_follows, release_blocks, release_mutes, release_likes, release_retweets,
}
use udesa_x_posts_api.UserDeletion.Release.{apply-IsReleased, IsReleased}
use udesa_x_posts_api.Blocks.Service.{block, sever}
use udesa_x_posts_api.Graph.{IsConsistent}
use udesa_x_posts_api.Graph.Blocking.{block-HasBlock, HasBlock}
use udesa_x_posts_api.Graph.History.{
  Call, follows, approves, blocks, unfollows, appears, closes, serve_all, serve_all-IsConsistent,
}
use udesa_x_posts_api.Tests.{
  at, ana, bruno, empty, ana_row, bruno_row, acquainted, blocked, open_row, asked, one_mark, start,
}
use udesa_x_posts_api.Common.Action.{when◌run◌otherwise◌, ◌>>=◌}

empty-IsConsistent : IsConsistent empty
empty-IsConsistent = record {
  keyed = record {
    profile_once = λ u. omega arith;
    follow_once = λ a b. omega arith;
    not_self = λ a. refl;
    follower_known = λ a h. refl;
    followee_known = λ a h. refl;
  };
  counted = record { followers = tt; following = tt };
  open_once = λ a b. omega arith;
  severed = λ a b h. omega (arith, h);
}

abbrev afternoon : List Call
afternoon =
    appears ana
    ∷ appears bruno
    ∷ follows (at 3) ana 2
    ∷ approves (at 4) bruno 3
    ∷ follows (at 5) bruno 1
    ∷ blocks (at 6) ana 2
    ∷ unfollows bruno 1
    ∷ closes 1 9
    ∷ []

serve_all-IsConsistent_example : IsConsistent (serve_all one_mark 10 60 afternoon start).db
serve_all-IsConsistent_example =
    serve_all-IsConsistent one_mark 10 60 afternoon start empty-IsConsistent

apply-closes : (apply 2 10 acquainted).0 ≡ ok true
unfolding apply close release_follows release_blocks release_mutes release_likes release_retweets
    ◌>>=◌
apply-closes = refl

apply-IsReleased_example : IsReleased 2 (apply 2 10 acquainted).1
apply-IsReleased_example = apply-IsReleased 2 10 acquainted apply-closes

-- Ana follows Bruno, and both show it.
abbrev followed : Db
followed = record acquainted {
  profiles =
      (record ana_row { following_count = pos 1 })
      ∷ (record bruno_row { followers_count = pos 1 })
      ∷ [];
  follows = (record { follower_id = 1; followee_id = 2; created_at = 2 }) ∷ [];
}

followed-IsConsistent : IsConsistent followed
followed-IsConsistent = record {
  keyed = record {
    profile_once = λ u. ground arith;
    follow_once = λ a b. ground arith;
    not_self = λ a. ground arith;
    follower_known = λ a h. ground arith;
    followee_known = λ a h. ground arith;
  };
  counted = record { followers = (refl, (refl, tt)); following = (refl, (refl, tt)) };
  open_once = λ a b. omega arith;
  severed = λ a b h. omega (arith, h);
}

-- The block of Bruno returns, and takes the follow away.
block_returns :
    ((block (at 3) ana 2 followed).0 ≡ ok tt) × ((block (at 3) ana 2 followed).1.follows ≡ [])
unfolding block sever find_profile ensure_profile insert_profile get_profile to_profile add_block
    remove_follow move_counters cancel_request when◌run◌otherwise◌ ◌>>=◌ live_profile refuses_block
block_returns = (refl, refl)

block-HasBlock_example : Post (λ _ e. HasBlock 1 2 e) (block (at 3) ana 2 followed)
block-HasBlock_example = block-HasBlock (at 3) ana 2 followed followed-IsConsistent

ana-known : ensure_profile ana blocked ≡ (ok (to_profile ana_row), blocked)
unfolding ensure_profile insert_profile get_profile to_profile ◌>>=◌
ana-known = refl

follow_in_db-hides_example : follow_in_db (at 3) ana 2 blocked ≡ (problem user_not_found, blocked)
follow_in_db-hides_example =
    follow_in_db-hides (at 3) ana 2 blocked blocked (to_profile ana_row) ana-known (inr refl)

follow_in_db-refuses_example : Post (λ _ _. ⊥) (follow_in_db (at 3) ana 2 blocked)
follow_in_db-refuses_example = follow_in_db-refuses (at 3) ana 2 blocked refl

follow_in_db-Established_example :
    Post (λ o e. Established 1 2 o e) (follow_in_db (at 3) ana 2 acquainted)
follow_in_db-Established_example = follow_in_db-Established (at 3) ana 2 acquainted

-- A limiter that counts the marks.
abbrev counting : Counts one_mark (RateKey.follow_rate 1) 60
counting = record { used = λ n. n; hit_number = λ n. refl; hit_counted = λ n. refl }

abbrev two_follows : List (Tick × ℕ)
two_follows = (at 3, 2) ∷ (at 4, 2) ∷ []

-- Ana may follow once.
abbrev ready : Session ℕ
ready = record { db = acquainted; marks = 0 }

follow-limited_example : AreLimited ana one_mark 1 60 counting 1 two_follows ready
follow-limited_example =
    follow-limited ana one_mark 1 60 counting two_follows ready (refl, (refl, tt))

abbrev muted : Db
muted = record acquainted { mutes = (record { muter_id = 2; muted_id = 1; created_at = 5 }) ∷ [] }

may_follow : refuses_follow 1 2 asked ≡ false
unfolding refuses_follow
may_follow = refl

approve-IsApproved_example :
    ((approve (at 5) bruno 4 asked).0 ≡ ok tt) × IsApproved 4 2 1 (approve (at 5) bruno 4 asked).1
approve-IsApproved_example = approve-IsApproved (at 5) bruno 4 asked open_row refl may_follow

-- Ana asked, Bruno opened his profile, and Ana followed him at once: the request is still open.
abbrev followed_since : Db
followed_since = record asked {
  follows = (record { follower_id = 1; followee_id = 2; created_at = 6 }) ∷ [];
}

approve-crashes_example : (approve (at 8) bruno 4 followed_since).0 ≡ crash
approve-crashes_example = approve-crashes (at 8) bruno 4 followed_since open_row refl refl
