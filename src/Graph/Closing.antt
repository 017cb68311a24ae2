-- ===== src/Graph/Closing.antt =====
-- Closing an account keeps the graph consistent: the counters of everybody it touched are
-- corrected, its own are zero, and nothing joins it to anybody.
use udesa_x_posts_api.Common.{ℕ, ◌≡◌, none, true, false, arith, inl, inr, Bool-cases, List}
use udesa_x_posts_api.Common.Rows.{exists, count-delete_le, update-unreached}
use udesa_x_posts_api.Common.Action.{◌>>=◌}
use udesa_x_posts_api.Common.Action.Rules.{Post}
use udesa_x_posts_api.Models.{ProfileVisibility}
use udesa_x_posts_api.Database.{Db, UserProfileRow, FollowRow}
use udesa_x_posts_api.Follows.{profile_id, pair_of}
use udesa_x_posts_api.FollowRequests.{open_pair}
use udesa_x_posts_api.Blocks.{block_pair}
use udesa_x_posts_api.UserDeletion.{
  live_id, closed_at, with_profile, close, follow_of, request_of, block_of, release_follows,
  release_blocks, release_mutes, release_likes, release_retweets, apply,
}
use udesa_x_posts_api.Graph.{AreCounted, AreKeyed, IsConsistent}
use udesa_x_posts_api.Graph.Apart.{IsApart-shrink}
use udesa_x_posts_api.Graph.Keys.{AreKeyed-new_profile, AreCounted-new_profile}
use udesa_x_posts_api.Graph.Releasing.{
  count-closed, released-counted, closed-followers, closed-following, released-keyed,
}

with_profile-keyed :
    (u : ℕ) (ps : List UserProfileRow) (fs : List FollowRow)
    → AreKeyed ps fs
    → AreKeyed (with_profile u ps) fs
with_profile-keyed u ps fs k = elim (Bool-cases (exists (profile_id u) ps)) [
  | inl there ↦ rw there k
  | inr new ↦ rw new (AreKeyed-new_profile ps fs u none ProfileVisibility.public new k)
]

with_profile-counted :
    (u : ℕ) (ps : List UserProfileRow) (fs : List FollowRow)
    → AreKeyed ps fs
    → AreCounted ps fs
    → AreCounted (with_profile u ps) fs
with_profile-counted u ps fs k c = elim (Bool-cases (exists (profile_id u) ps)) [
  | inl there ↦ rw there c
  | inr new ↦ rw new (AreCounted-new_profile ps fs u none ProfileVisibility.public new k c)
]

module _ (u at : ℕ) (d : Db) (v : IsConsistent d) where
  abbrev known_profiles : List UserProfileRow
  known_profiles = with_profile u d.profiles

  closed-keeps :
      exists (live_id u) known_profiles ≡ true → Post (λ _ e. IsConsistent e) (apply u at d)
  unfolding apply close release_follows release_blocks release_mutes release_likes release_retweets
      ◌>>=◌
  closed-keeps reached =
      let k = with_profile-keyed u d.profiles d.follows v.keyed in
      let c = with_profile-counted u d.profiles d.follows v.keyed v.counted in
      rw reached (record {
        holds = record {
          keyed =
              released-keyed u at known_profiles d.follows _
                (λ w. count-closed u at known_profiles d.follows w) k;
          counted =
              released-counted u at known_profiles d.follows _ k
                (closed-followers u at known_profiles d.follows k c reached)
                (closed-following u at known_profiles d.follows k c reached);
          open_once = λ x y. omega (
            arith,
            v.open_once x y,
            count-delete_le (open_pair x y) (request_of u) d.follow_requests,
          );
          severed = λ x y blocked.
              IsApart-shrink d.follows _ d.follow_requests _
                (λ p q. count-delete_le (pair_of p q) (follow_of u) d.follows)
                (λ p q. count-delete_le (open_pair p q) (request_of u) d.follow_requests) x y
                (v.severed x y
                  (omega (arith, blocked, count-delete_le (block_pair x y) (block_of u) d.blocks)));
        };
      })

  repeated-keeps :
      exists (live_id u) known_profiles ≡ false → Post (λ _ e. IsConsistent e) (apply u at d)
  unfolding apply close ◌>>=◌
  repeated-keeps unreached = rw unreached (
      rw (update-unreached (live_id u) (closed_at at) known_profiles unreached) (record {
        holds = record {
          keyed = with_profile-keyed u d.profiles d.follows v.keyed;
          counted = with_profile-counted u d.profiles d.follows v.keyed v.counted;
          open_once = v.open_once;
          severed = v.severed;
        };
      }))

  -- Closing an account keeps the graph consistent.
  pub apply-keeps : Post (λ _ e. IsConsistent e) (apply u at d)
  apply-keeps = elim (Bool-cases (exists (live_id u) known_profiles)) [
    | inl reached ↦ closed-keeps reached
    | inr unreached ↦ repeated-keeps unreached
  ]
