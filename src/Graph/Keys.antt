-- ===== src/Graph/Keys.antt =====
-- The keys of the profiles and the follows under each statement of FollowRepository.
use udesa_x_posts_api.Common.{ℕ, String, ◌≡◌, ◌≢◌, Option, true, false, List, ◌∷◌, arith}
use udesa_x_posts_api.Common.Int.{ℤ}
use udesa_x_posts_api.Common.Rows.{
  count, exists, update, delete, count-update, count-delete_le, All-update,
}
use udesa_x_posts_api.Models.{Account, ProfileVisibility}
use udesa_x_posts_api.Database.{UserProfileRow, FollowRow}
use udesa_x_posts_api.Follows.{
  profile_id, pair_of, new_profile, refresh, move_followers, move_following,
}
use udesa_x_posts_api.Graph.{
  follows_to, follows_from, FollowersMatch, FollowingMatch, AreCounted, AreKeyed,
}
use udesa_x_posts_api.Graph.Counters.{moved}

-- Profiles with the same identifiers keep the keys.
pub AreKeyed-same_ids :
    (ps qs : List UserProfileRow) (fs : List FollowRow)
    → ((u : ℕ) → count (profile_id u) qs ≡ count (profile_id u) ps)
    → AreKeyed ps fs
    → AreKeyed qs fs
AreKeyed-same_ids ps qs fs same k = record {
  profile_once = λ u. rw (same u) (k.profile_once u);
  follow_once = k.follow_once;
  not_self = k.not_self;
  follower_known = λ u e. k.follower_known u (ground (arith, same u));
  followee_known = λ u e. k.followee_known u (ground (arith, same u));
}

pub count-moved :
    (a b u : ℕ) (by : ℤ) (ps : List UserProfileRow)
    → count (profile_id u) (moved a b by ps) ≡ count (profile_id u) ps
count-moved a b u by ps = ground (
  arith,
  count-update (profile_id u) (profile_id a) (move_following by) (λ r h. ground arith)
      (update (profile_id b) (move_followers by) ps),
  count-update (profile_id u) (profile_id b) (move_followers by) (λ r h. ground arith) ps,
)

pub count-refresh :
    (account : Account) (u : ℕ) (ps : List UserProfileRow)
    → count (profile_id u) (update (profile_id account.id) (refresh account) ps)
      ≡ count (profile_id u) ps
count-refresh account u ps =
    count-update (profile_id u) (profile_id account.id) (refresh account) (λ r h. ground arith) ps

module _ (ps : List UserProfileRow) (fs : List FollowRow) where
  pub AreKeyed-follow :
      (a b now : ℕ)
      → a ≢ b
      → count (pair_of a b) fs ≡ 0
      → exists (profile_id a) ps ≡ true
      → exists (profile_id b) ps ≡ true
      → AreKeyed ps fs
      → AreKeyed ps ((record { follower_id = a; followee_id = b; created_at = now }) ∷ fs)
  AreKeyed-follow a b now distinct absent ka kb k = record {
    profile_once = k.profile_once;
    follow_once = λ u v. ground (arith, k.follow_once u v);
    not_self = λ u. ground (arith, k.not_self u);
    follower_known = λ u e. ground (arith, k.follower_known u e);
    followee_known = λ u e. ground (arith, k.followee_known u e);
  }

  pub AreKeyed-unfollow : (a b : ℕ) → AreKeyed ps fs → AreKeyed ps (delete (pair_of a b) fs)
  AreKeyed-unfollow a b k = record {
    profile_once = k.profile_once;
    follow_once =
        λ u v. omega (arith, k.follow_once u v, count-delete_le (pair_of u v) (pair_of a b) fs);
    not_self = λ u. omega (arith, k.not_self u, count-delete_le (pair_of u u) (pair_of a b) fs);
    follower_known = λ u e.
        omega (arith, k.follower_known u e, count-delete_le (follows_from u) (pair_of a b) fs);
    followee_known =
        λ u e. omega (arith, k.followee_known u e, count-delete_le (follows_to u) (pair_of a b) fs);
  }

  pub AreKeyed-new_profile :
      (u : ℕ) (handle : Option String) (visibility : ProfileVisibility)
      → exists (profile_id u) ps ≡ false
      → AreKeyed ps fs
      → AreKeyed (new_profile u handle visibility ∷ ps) fs
  AreKeyed-new_profile u handle visibility fresh k = record {
    profile_once = λ v. ground (arith, k.profile_once v);
    follow_once = k.follow_once;
    not_self = k.not_self;
    follower_known = λ v e. ground (arith, k.follower_known v);
    followee_known = λ v e. ground (arith, k.followee_known v);
  }

  pub AreCounted-new_profile :
      (u : ℕ) (handle : Option String) (visibility : ProfileVisibility)
      → exists (profile_id u) ps ≡ false
      → AreKeyed ps fs
      → AreCounted ps fs
      → AreCounted (new_profile u handle visibility ∷ ps) fs
  AreCounted-new_profile u handle visibility fresh k c = record {
    followers = (ground (arith, k.followee_known u fresh), c.followers);
    following = (ground (arith, k.follower_known u fresh), c.following);
  }

  pub AreCounted-refresh :
      (account : Account)
      → AreCounted ps fs
      → AreCounted (update (profile_id account.id) (refresh account) ps) fs
  AreCounted-refresh account c = record {
    followers =
        All-update (FollowersMatch fs) _ (profile_id account.id) (refresh account) (λ r h e. h)
          (λ r h e. h) ps c.followers;
    following =
        All-update (FollowingMatch fs) _ (profile_id account.id) (refresh account) (λ r h e. h)
          (λ r h e. h) ps c.following;
  }
