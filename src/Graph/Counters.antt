-- ===== src/Graph/Counters.antt =====
-- The follower and following counters under each statement of FollowRepository.
use udesa_x_posts_api.Common.{
  ℕ, ◌+◌, ◌≡◌, List, ◌∷◌, arith, ◌==◌, inl, inr, if◌then◌else◌, Bool-cases,
}
use udesa_x_posts_api.Common.Lists.{All-weaken}
use udesa_x_posts_api.Common.Int.{ℤ, pos, negsuc, +ℤ_one, +ℤ_minus_one}
use udesa_x_posts_api.Common.Rows.{
  count, update, delete, count-delete_within, count-delete_apart, All-update,
}
use udesa_x_posts_api.Database.{UserProfileRow, FollowRow}
use udesa_x_posts_api.Follows.{profile_id, pair_of, move_followers, move_following}
use udesa_x_posts_api.Graph.{follows_to, follows_from, FollowersMatch, FollowingMatch, AreCounted}

-- The profiles after the two statements of `move_counters`.
abbrev pub moved : ℕ → ℕ → ℤ → List UserProfileRow → List UserProfileRow
moved a b by ps =
    update (profile_id a) (move_following by) (update (profile_id b) (move_followers by) ps)

-- How many rows of a pair a profile's counters lose.
pub count-unfollow_to :
    (a b u : ℕ) (fs : List FollowRow)
    → count (follows_to u) (delete (pair_of a b) fs)
        + (if u == b then count (pair_of a b) fs else 0)
      ≡ count (follows_to u) fs
count-unfollow_to a b u fs = elim (Bool-cases (u == b)) [
  | inl same ↦ rw same (count-delete_within (follows_to u) (pair_of a b) (λ r h. ground arith) fs)
  | inr other ↦
      rw other
        (omega (arith, count-delete_apart (follows_to u) (pair_of a b) (λ r h. ground arith) fs))
]

pub count-unfollow_from :
    (a b u : ℕ) (fs : List FollowRow)
    → count (follows_from u) (delete (pair_of a b) fs)
        + (if u == a then count (pair_of a b) fs else 0)
      ≡ count (follows_from u) fs
count-unfollow_from a b u fs = elim (Bool-cases (u == a)) [
  | inl same ↦ rw same (count-delete_within (follows_from u) (pair_of a b) (λ r h. ground arith) fs)
  | inr other ↦
      rw other
        (omega (arith, count-delete_apart (follows_from u) (pair_of a b) (λ r h. ground arith) fs))
]

module _ (a b : ℕ) (ps : List UserProfileRow) (fs : List FollowRow) where
  -- One more follow, and one more in both counters.
  pub AreCounted-follow :
      (now : ℕ)
      → AreCounted ps fs
      → AreCounted
          (moved a b (pos 1) ps)
          ((record { follower_id = a; followee_id = b; created_at = now }) ∷ fs)
  AreCounted-follow now c = record {
    followers =
        All-update _ _ (profile_id a) (move_following (pos 1)) (λ r h e. h) (λ r h e. h) _
          (All-update (FollowersMatch fs) _ (profile_id b) (move_followers (pos 1))
            (λ r h e. ground (arith, +ℤ_one (count (follows_to r.id) fs))) (λ r h e. ground arith)
            ps c.followers);
    following =
        All-update (FollowingMatch fs) _ (profile_id a) (move_following (pos 1))
          (λ r h e. ground (arith, +ℤ_one (count (follows_from r.id) fs))) (λ r h e. ground arith) _
          (All-update _ _ (profile_id b) (move_followers (pos 1)) (λ r h e. h) (λ r h e. h) ps
            c.following);
  }

  -- One follow less, and one less in both counters.
  pub AreCounted-unfollow :
      count (pair_of a b) fs ≡ 1
      → AreCounted ps fs
      → AreCounted (moved a b (negsuc 0) ps) (delete (pair_of a b) fs)
  AreCounted-unfollow one c = record {
    followers =
        All-update _ _ (profile_id a) (move_following (negsuc 0)) (λ r h e. h) (λ r h e. h) _
          (All-update (FollowersMatch fs) _ (profile_id b) (move_followers (negsuc 0))
            (λ r h e. ground (
              arith,
              count-unfollow_to a b r.id fs,
              +ℤ_minus_one (count (follows_to r.id) (delete (pair_of a b) fs)),
            ))
            (λ r h e. ground (arith, count-unfollow_to a b r.id fs)) ps c.followers);
    following =
        All-update (FollowingMatch fs) _ (profile_id a) (move_following (negsuc 0))
          (λ r h e. ground (
            arith,
            count-unfollow_from a b r.id fs,
            +ℤ_minus_one (count (follows_from r.id) (delete (pair_of a b) fs)),
          ))
          (λ r h e. ground (arith, count-unfollow_from a b r.id fs)) _
          (All-update _ _ (profile_id b) (move_followers (negsuc 0)) (λ r h e. h) (λ r h e. h) ps
            c.following);
  }

  -- No row of the pair: the deletion changes no count.
  pub AreCounted-absent :
      count (pair_of a b) fs ≡ 0 → AreCounted ps fs → AreCounted ps (delete (pair_of a b) fs)
  AreCounted-absent none_there c = record {
    followers =
        All-weaken (FollowersMatch fs) _ (λ r h. ground (arith, count-unfollow_to a b r.id fs)) ps
          c.followers;
    following =
        All-weaken (FollowingMatch fs) _ (λ r h. ground (arith, count-unfollow_from a b r.id fs)) ps
          c.following;
  }
