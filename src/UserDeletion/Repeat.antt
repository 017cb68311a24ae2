-- ===== src/UserDeletion/Repeat.antt =====
-- The event that closes an account may be delivered twice: the second delivery changes nothing.
use udesa_x_posts_api.Common.{
  ℕ, ◌≡◌, refl, ◌∙◌, Bool, true, false, List, arith, inl, inr, Bool-cases,
}
use udesa_x_posts_api.Common.Rows.{
  count, exists, update, update-unreached, count-update_none, count-update,
}
use udesa_x_posts_api.Common.Action.{ok, ◌>>=◌}
use udesa_x_posts_api.Database.{Db, UserProfileRow, FollowRow}
use udesa_x_posts_api.Follows.{profile_id}
use udesa_x_posts_api.UserDeletion.{
  live_id, closed_at, with_profile, close, lower_followers, lower_following, followed_by,
  follower_of, release_follows, release_blocks, release_mutes, release_likes, release_retweets,
  apply,
}

-- The account is on record and closed.
pub record IsClosed (u : ℕ) (d : Db) : Type 0 where
  pub known : exists (profile_id u) d.profiles ≡ true
  pub closed : exists (live_id u) d.profiles ≡ false

exists-with_profile :
    (u : ℕ) (ps : List UserProfileRow) → exists (profile_id u) (with_profile u ps) ≡ true
exists-with_profile u ps = elim (Bool-cases (exists (profile_id u) ps)) [
  | inl there ↦ rw there there
  | inr new ↦ rw new (ground arith)
]

module _ (u at : ℕ) (d : Db) where
  abbrev closed_rows : List UserProfileRow
  closed_rows = update (live_id u) (closed_at at) (with_profile u d.profiles)

  closed_rows-known :
      count (profile_id u) closed_rows ≡ count (profile_id u) (with_profile u d.profiles)
  closed_rows-known =
      count-update (profile_id u) (live_id u) (closed_at at) (λ r h. refl)
        (with_profile u d.profiles)

  closed_rows-closed : count (live_id u) closed_rows ≡ 0
  closed_rows-closed =
      count-update_none (live_id u) (live_id u) (closed_at at) (λ r h. h) (λ r h. ground arith)
        (with_profile u d.profiles)

  released_same :
      (p : UserProfileRow → Bool)
      → ((r : UserProfileRow) → p (lower_followers r) ≡ p r)
      → ((r : UserProfileRow) → p (lower_following r) ≡ p r)
      → (fs : List FollowRow)
      → count p (
          update
            (follower_of u fs)
            lower_following
            (update (followed_by u fs) lower_followers closed_rows))
        ≡ count p closed_rows
  released_same p a b fs =
      count-update p (follower_of u fs) lower_following (λ r h. b r) _
      ∙ count-update p (followed_by u fs) lower_followers (λ r h. a r) closed_rows

  -- After the call the account is closed, whatever it was before.
  pub apply-IsClosed : IsClosed u (apply u at d).1
  unfolding apply close release_follows release_blocks release_mutes release_likes release_retweets
      ◌>>=◌
  apply-IsClosed = elim (Bool-cases (exists (live_id u) (with_profile u d.profiles))) [
    | inl reached ↦ rw reached (record {
      known = ground (
        arith,
        released_same (profile_id u) (λ r. refl) (λ r. refl) d.follows,
        closed_rows-known,
        exists-with_profile u d.profiles,
      );
      closed =
          ground (
            arith,
            released_same (live_id u) (λ r. refl) (λ r. refl) d.follows,
            closed_rows-closed,
          );
    })
    | inr unreached ↦ rw unreached (record {
      known = ground (arith, closed_rows-known, exists-with_profile u d.profiles);
      closed = ground (arith, closed_rows-closed);
    })
  ]

  -- On a closed account the call reports that there was nothing to do, and does nothing.
  pub apply_closed : IsClosed u d → apply u at d ≡ (ok false, d)
  unfolding apply close ◌>>=◌
  apply_closed h =
      rw h.known
        (rw h.closed (rw (update-unreached (live_id u) (closed_at at) d.profiles h.closed)))

-- A second event for the account reports `False` and changes nothing, whenever it is dated.
pub apply-apply :
    (u at later : ℕ) (d : Db) → apply u later (apply u at d).1 ≡ (ok false, (apply u at d).1)
apply-apply u at later d = apply_closed u later (apply u at d).1 (apply-IsClosed u at d)
