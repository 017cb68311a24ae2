-- ===== src/Follows/Outcomes.antt =====
-- What a call of `FollowService.follow` and of `unfollow` leaves behind, and whom it refuses.
use udesa_x_posts_api.Common.{
  ℕ, ◌≡◌, refl, Option, none, some, true, false, ◌||◌, ◌&&◌, arith, inl, inr, Bool-cases, ◌⊎◌,
  Option-cases,
}
use udesa_x_posts_api.Common.Rows.{
  exists, find, find-some, find-holds, count-delete_all, count-update_none,
}
use udesa_x_posts_api.Common.Action.{ok, problem, ◌>>=◌}
use udesa_x_posts_api.Common.Action.Rules.{
  Post, post_pure, post_if, post_call, post_read, post_need, post_refuse, post_check, post_write,
  post_modify, post_expect,
}
use udesa_x_posts_api.Models.{Account, UserProfile, FollowRequest, FollowRequestStatus}
use udesa_x_posts_api.Database.{Db, Tick, FollowRequestRow}
use udesa_x_posts_api.Follows.{
  profile_id, pair_of, live_profile, find_profile, insert_profile, get_profile, ensure_profile,
  is_following, add_follow, remove_follow, move_counters,
}
use udesa_x_posts_api.Follows.Service.{
  user_not_found, establish, or_open, ask, follow_in_db, unfollow,
}
use udesa_x_posts_api.FollowRequests.{
  open_pair, request_of, to_request, find_pending, open_request, with_status, cancel_request,
}
use udesa_x_posts_api.Blocks.{block_pair, has_blocked}
use udesa_x_posts_api.Mutes.{is_muted}
use udesa_x_posts_api.Outbox.{add_event}

-- The bootstrap of a profile touches no other table.
pub ensure_profile-others :
    (account : Account) (d : Db)
    → Post (λ _ e. e ≡ record d { profiles = e.profiles }) (ensure_profile account d)
unfolding ensure_profile insert_profile get_profile
ensure_profile-others account d =
    let Q = λ (e : Db). e ≡ record d { profiles = e.profiles } in
    post_call (λ _ e. Q e) _ _ d
      (post_read _ _ d (
        post_if _ _ _ d (λ there. post_pure tt d refl)
          λ new. post_read _ _ d (post_check _ _ d λ free. post_modify _ d refl)))
      λ _ d1 v1.
        post_call (λ _ e. Q e) _ _ d1 (post_read _ _ d1 (post_expect _ d1 λ r h. v1))
          λ row d2 v2.
            post_read _ _ d2
              (post_check _ _ d2 λ free. post_write _ _ d2 (post_pure _ _ (rw v2 refl)))

-- An account that blocked the follower is answered exactly like one that is not there: the same
-- error, and nothing written but the follower's own profile.
pub follow_in_db-hides :
    (t : Tick) (follower : Account) (b : ℕ) (d d1 : Db) (p : UserProfile)
    → ensure_profile follower d ≡ (ok p, d1)
    → (live_profile (find (profile_id b) d1.profiles) ≡ none)
      ⊎ (exists (block_pair b follower.id) d1.blocks ≡ true)
    → follow_in_db t follower b d ≡ (problem user_not_found, d1)
unfolding follow_in_db find_profile has_blocked ◌>>=◌
follow_in_db-hides t follower b d d1 p known (inl missing) = rw known (rw missing refl)
follow_in_db-hides t follower b d d1 p known (inr blocked) =
    rw known (elim (Option-cases (live_profile (find (profile_id b) d1.profiles))) [
      | inl missing ↦ rw missing refl
      | inr (target, there) ↦ rw there (rw blocked refl)
    ])

-- Nobody follows an account from which a block separates them, whoever made it.
pub follow_in_db-refuses :
    (t : Tick) (follower : Account) (b : ℕ) (d : Db)
    → (exists (block_pair b follower.id) d.blocks || exists (block_pair follower.id b) d.blocks)
      ≡ true
    → Post (λ _ _. ⊥) (follow_in_db t follower b d)
unfolding follow_in_db find_profile has_blocked
follow_in_db-refuses t follower b d apart =
    post_call _ _ _ d (ensure_profile-others follower d) λ p d1 same. post_read _ _ d1 (
      post_need _ _ _ d1 λ target found. post_read _ _ d1 (
        post_refuse _ _ _ d1
          λ free. post_read _ _ d1 (post_refuse _ _ _ d1 λ free_back. ground (arith, same))))

-- What a call that returns has established: a relationship, or an open request.
abbrev pub Established : ℕ → ℕ → Option FollowRequest → Db → Type 0
Established a b none e = exists (pair_of a b) e.follows ≡ true
Established a b (some r) e =
    (r.target_id ≡ b) × (r.requester_id ≡ a) × (exists (open_pair a b) e.follow_requests ≡ true)

establish-Established :
    (t : Tick) (p : UserProfile) (a b : ℕ) (d : Db)
    → Post (λ _ e. Established a b none e) (establish t p a b d)
unfolding establish add_follow move_counters is_muted add_event
establish-Established t p a b d =
    post_call (λ _ e. exists (pair_of a b) e.follows ≡ true) _ _ d
      (post_read _ _ d (post_check _ _ d λ accepted. post_modify _ d (ground arith)))
      λ _ d1 there.
        post_call (λ _ e. exists (pair_of a b) e.follows ≡ true) _ _ d1
          (post_write _ _ d1 (post_modify _ _ there))
          λ _ d2 there2.
            post_read _ _ d2
              (post_if _ _ _ d2 (λ muted. post_pure tt d2 there2) λ heard. post_modify _ d2 there2)

found-Established :
    (a b : ℕ) (d : Db) (found : Option FollowRequestRow) (r : FollowRequest)
    → find (open_pair a b) d.follow_requests ≡ found
    → request_of found ≡ some r
    → Established a b (some r) d
unfolding request_of to_request
found-Established a b d none r e h = cc
found-Established a b d (some row) r e h =
    let pair = find-holds (open_pair a b) d.follow_requests row e in
    (
      ground (arith, pair),
      ground (arith, pair),
      ground (arith, find-some (open_pair a b) d.follow_requests row e),
    )

or_open-Established :
    (t : Tick) (a b : ℕ) (found : Option FollowRequest) (d : Db)
    → request_of (find (open_pair a b) d.follow_requests) ≡ found
    → Post (λ r e. Established a b (some r) e) (or_open t a b found d)
unfolding or_open open_request to_request
or_open-Established t a b none d e =
    post_read _ _ d
      (post_check _ _ d λ accepted. post_write _ _ d (post_pure _ _ (refl, refl, ground arith)))
or_open-Established t a b (some r) d e = post_pure r d (found-Established a b d _ r refl e)

-- A call that returns nothing has left the relationship in place, and one that returns a request
-- has left an open request of the follower for that account.
pub follow_in_db-Established :
    (t : Tick) (follower : Account) (b : ℕ) (d : Db)
    → Post (λ o e. Established follower.id b o e) (follow_in_db t follower b d)
unfolding follow_in_db find_profile has_blocked is_following ask find_pending
follow_in_db-Established t follower b d =
    post_call _ _ _ d (ensure_profile-others follower d) λ p d1 same. post_read _ _ d1 (
      post_need _ _ _ d1 λ target found. post_read _ _ d1 (
        post_refuse _ _ _ d1 λ free. post_read _ _ d1 (
          post_refuse _ _ _ d1 λ free_back. post_read _ _ d1 (
            post_if _ _ _ d1 (λ there. post_pure none d1 there)
              λ new.
                post_if _ _ _ d1
                  (λ asks.
                    post_call _ _ _ d1
                      (post_read _ _ d1 (or_open-Established t follower.id b _ d1 refl))
                      λ r d2 h. post_pure (some r) d2 h)
                  λ open_to_all.
                    post_call _ _ _ d1 (establish-Established t p follower.id b d1)
                      λ _ d2 h. post_pure none d2 h))))

-- `unfollow` always returns and leaves no relationship. Where there was one, the open requests of the
-- pair stay as they were, and otherwise none stays open.
unfollow-undoes :
    (follower : Account) (b : ℕ) (d : Db)
    → ((unfollow follower b d).0 ≡ ok tt)
      × (exists (pair_of follower.id b) (unfollow follower b d).1.follows ≡ false)
      × (exists (open_pair follower.id b) (unfollow follower b d).1.follow_requests ≡ (
          exists (pair_of follower.id b) d.follows
          && exists (open_pair follower.id b) d.follow_requests))
unfolding unfollow remove_follow cancel_request move_counters ◌>>=◌
unfollow-undoes follower b d =
    let none_left =
      count-delete_all (pair_of follower.id b) (pair_of follower.id b) (λ x h. h) d.follows in
    let closed =
      count-update_none (open_pair follower.id b) (open_pair follower.id b)
        (with_status FollowRequestStatus.cancelled) (λ r h. h) (λ r h. ground arith)
        d.follow_requests in
    elim (Bool-cases (exists (pair_of follower.id b) d.follows)) [
      | inl there ↦ rw there (refl, ground arith, refl)
      | inr absent ↦ rw absent (refl, ground arith, ground arith)
    ]
