-- ===== src/Graph/Releasing.antt =====
-- The profiles and the follows when an account closes: `close` and `release_follows` of
-- app/repositories/user_deletions.py, with the counters of the accounts on the other side.
use udesa_x_posts_api.Common.{
  ℕ, ◌+◌, ◌≡◌, refl, true, false, ◌&&◌, arith, ◌==◌, inl, inr, if◌then◌else◌, Bool-cases, List, ◌∙◌,
}
use udesa_x_posts_api.Common.Lists.{All}
use udesa_x_posts_api.Common.Int.{pos, greatest-pos}
use udesa_x_posts_api.Common.Rows.{
  count, exists, update, delete, count-delete_le, count-delete_all, count-delete_both, count-agree,
  count-update, All-update, All-of_count, All-both,
}
use udesa_x_posts_api.Database.{UserProfileRow, FollowRow}
use udesa_x_posts_api.Follows.{profile_id, pair_of}
use udesa_x_posts_api.UserDeletion.{
  live_id, closed_at, lower_followers, lower_following, followed_by, follower_of, follow_of,
}
use udesa_x_posts_api.Graph.{
  follows_to, follows_from, FollowersMatch, FollowingMatch, AreCounted, AreKeyed,
}
use udesa_x_posts_api.Graph.Keys.{AreKeyed-same_ids}

-- The profiles after the update of `close`, and after the two of `release_follows`.
abbrev pub closed_profiles : ℕ → ℕ → List UserProfileRow → List UserProfileRow
closed_profiles u at ps = update (live_id u) (closed_at at) ps

abbrev pub released_profiles : ℕ → List FollowRow → List UserProfileRow → List UserProfileRow
released_profiles u fs ps =
    update (follower_of u fs) lower_following (update (followed_by u fs) lower_followers ps)

module _ (u at : ℕ) (ps : List UserProfileRow) (fs : List FollowRow) where
  pub count-closed :
      (v : ℕ) → count (profile_id v) (closed_profiles u at ps) ≡ count (profile_id v) ps
  count-closed v = count-update (profile_id v) (live_id u) (closed_at at) (λ r h. refl) ps

  count-released :
      (v : ℕ) (qs : List UserProfileRow)
      → count (profile_id v) (released_profiles u fs qs) ≡ count (profile_id v) qs
  count-released v qs = ground (
    arith,
    count-update (profile_id v) (follower_of u fs) lower_following (λ r h. refl)
        (update (followed_by u fs) lower_followers qs),
    count-update (profile_id v) (followed_by u fs) lower_followers (λ r h. refl) qs,
  )

  -- Of the follows of another account, those that join it to the closed one go.
  count-release_to :
      (v : ℕ)
      → (v == u) ≡ false
      → count (follows_to v) (delete (follow_of u) fs) + count (pair_of u v) fs
        ≡ count (follows_to v) fs
  count-release_to v other = omega (
    arith,
    count-delete_both (follows_to v) (follow_of u) fs,
    count-agree (λ r. follows_to v r && follow_of u r) (pair_of u v) (λ r. ground arith) fs,
  )

  count-release_from :
      (v : ℕ)
      → (v == u) ≡ false
      → count (follows_from v) (delete (follow_of u) fs) + count (pair_of v u) fs
        ≡ count (follows_from v) fs
  count-release_from v other = omega (
    arith,
    count-delete_both (follows_from v) (follow_of u) fs,
    count-agree (λ r. follows_from v r && follow_of u r) (pair_of v u) (λ r. ground arith) fs,
  )

  -- Once closed, an account shows zero, and the others what they showed.
  abbrev Followers0 : UserProfileRow → Type 0
  Followers0 r = r.followers_count ≡ (if r.id == u then pos 0 else pos (count (follows_to r.id) fs))

  abbrev Following0 : UserProfileRow → Type 0
  Following0 r =
      r.following_count ≡ (if r.id == u then pos 0 else pos (count (follows_from r.id) fs))

  module _ (k : AreKeyed ps fs) (r : UserProfileRow) where
    lowered_followers :
        Followers0 r
        → followed_by u fs r ≡ true
        → FollowersMatch (delete (follow_of u) fs) (lower_followers r)
    lowered_followers h e = elim (Bool-cases (r.id == u)) [
      | inl same ↦ ground (arith, k.not_self u)
      | inr other ↦ ground (
        arith,
        greatest-pos (count (follows_to r.id) fs),
        count-release_to r.id other,
        k.follow_once u r.id,
      )
    ]

    kept_followers :
        Followers0 r → followed_by u fs r ≡ false → FollowersMatch (delete (follow_of u) fs) r
    kept_followers h e = elim (Bool-cases (r.id == u)) [
      | inl same ↦
          ground (arith, count-delete_all (follows_to r.id) (follow_of u) (λ x i. ground arith) fs)
      | inr other ↦ ground (arith, count-release_to r.id other)
    ]

    lowered_following :
        Following0 r
        → follower_of u fs r ≡ true
        → FollowingMatch (delete (follow_of u) fs) (lower_following r)
    lowered_following h e = elim (Bool-cases (r.id == u)) [
      | inl same ↦ ground (arith, k.not_self u)
      | inr other ↦ ground (
        arith,
        greatest-pos (count (follows_from r.id) fs),
        count-release_from r.id other,
        k.follow_once r.id u,
      )
    ]

    kept_following :
        Following0 r → follower_of u fs r ≡ false → FollowingMatch (delete (follow_of u) fs) r
    kept_following h e = elim (Bool-cases (r.id == u)) [
      | inl same ↦
          ground
            (arith, count-delete_all (follows_from r.id) (follow_of u) (λ x i. ground arith) fs)
      | inr other ↦ ground (arith, count-release_from r.id other)
    ]

  pub released-counted :
      (qs : List UserProfileRow)
      → AreKeyed ps fs
      → All Followers0 qs
      → All Following0 qs
      → AreCounted (released_profiles u fs qs) (delete (follow_of u) fs)
  released-counted qs k c0 g0 = record {
    followers =
        All-update _ _ (follower_of u fs) lower_following (λ r h e. h) (λ r h e. h) _
          (All-update Followers0 (FollowersMatch (delete (follow_of u) fs)) (followed_by u fs)
            lower_followers (λ r h e. lowered_followers k r h e) (λ r h e. kept_followers k r h e)
            qs c0);
    following =
        All-update Following0 (FollowingMatch (delete (follow_of u) fs)) (follower_of u fs)
          lower_following (λ r h e. lowered_following k r h e) (λ r h e. kept_following k r h e) _
          (All-update _ _ (followed_by u fs) lower_followers (λ r h e. h) (λ r h e. h) qs g0);
  }

  -- Every row of the account is the one that `close` reaches.
  All-live :
      AreKeyed ps fs
      → exists (live_id u) ps ≡ true
      → All (λ r. profile_id u r ≡ true → live_id u r ≡ true) ps
  All-live k e =
      All-of_count (profile_id u) (live_id u) (λ r h. ground arith) ps
        (ground (arith, k.profile_once u))

  pub closed-followers :
      AreKeyed ps fs
      → AreCounted ps fs
      → exists (live_id u) ps ≡ true
      → All Followers0 (closed_profiles u at ps)
  closed-followers k c e =
      All-update _ Followers0 (live_id u) (closed_at at) (λ r h i. ground arith)
        (λ r h i. ground (arith, h.1)) ps (All-both _ _ ps c.followers (All-live k e))

  pub closed-following :
      AreKeyed ps fs
      → AreCounted ps fs
      → exists (live_id u) ps ≡ true
      → All Following0 (closed_profiles u at ps)
  closed-following k c e =
      All-update _ Following0 (live_id u) (closed_at at) (λ r h i. ground arith)
        (λ r h i. ground (arith, h.1)) ps (All-both _ _ ps c.following (All-live k e))

  pub released-keyed :
      (qs : List UserProfileRow)
      → ((v : ℕ) → count (profile_id v) qs ≡ count (profile_id v) ps)
      → AreKeyed ps fs
      → AreKeyed (released_profiles u fs qs) (delete (follow_of u) fs)
  released-keyed qs same k =
      AreKeyed-same_ids ps _ (delete (follow_of u) fs) (λ v. count-released v qs ∙ same v)
        (record {
          profile_once = k.profile_once;
          follow_once = λ x y.
              omega (arith, k.follow_once x y, count-delete_le (pair_of x y) (follow_of u) fs);
          not_self =
              λ x. omega (arith, k.not_self x, count-delete_le (pair_of x x) (follow_of u) fs);
          follower_known = λ x e.
              omega
                (arith, k.follower_known x e, count-delete_le (follows_from x) (follow_of u) fs);
          followee_known = λ x e.
              omega (arith, k.followee_known x e, count-delete_le (follows_to x) (follow_of u) fs);
        })
