-- ===== src/FollowRequests/Outcomes.antt =====
-- What answering a follow request leaves behind, and when an answer is refused.
use udesa_x_posts_api.Common.{
  ℕ, ◌≡◌, refl, Option, none, some, Bool, true, false, arith, Bool-cases, inl, inr,
}
use udesa_x_posts_api.Common.Rows.{exists, find, update, find-some, count-update_none}
use udesa_x_posts_api.Common.Action.{ok, problem, crash, ◌>>=◌}
use udesa_x_posts_api.Models.{Account, FollowRequestStatus}
use udesa_x_posts_api.Models.Equality.{is_open}
use udesa_x_posts_api.Database.{Db, Tick, FollowRequestRow}
use udesa_x_posts_api.Follows.{pair_of, refuses_follow, add_follow, move_counters, find_profile}
use udesa_x_posts_api.FollowRequests.{
  open_id, open_id_for, with_status, request_of, to_request, find_pending_by_id, resolve_request,
}
use udesa_x_posts_api.FollowRequests.Service.{follow_request_not_found, required, approve, reject}
use udesa_x_posts_api.Mutes.{is_muted, mute_pair}
use udesa_x_posts_api.Outbox.{add_event}

-- An answer to a request that is not open, or not aimed at the account, is refused.
abbrev pub IsAnswered : ℕ → ℕ → Db → Type 0
IsAnswered i owner d = exists (open_id_for i owner) d.follow_requests ≡ false

unanswered :
    (i owner : ℕ) (d : Db) (found : Option FollowRequestRow)
    → find (open_id_for i owner) d.follow_requests ≡ found
    → IsAnswered i owner d
    → request_of found ≡ none
unfolding request_of
unanswered i owner d none e h = refl
unanswered i owner d (some r) e h =
    ground (arith, find-some (open_id_for i owner) d.follow_requests r e)

-- Whoever answers a request that is not open, or that is aimed at another account, gets the same
-- error, and nothing changes.
answers-refuse :
    (t : Tick) (owner : Account) (i : ℕ) (d : Db)
    → IsAnswered i owner.id d
    → (approve t owner i d ≡ (problem follow_request_not_found, d))
      × (reject owner i d ≡ (problem follow_request_not_found, d))
unfolding approve reject required find_pending_by_id ◌>>=◌
answers-refuse t owner i d h =
    (rw (unanswered i owner.id d _ refl h) refl, rw (unanswered i owner.id d _ refl h) refl)

resolved-IsAnswered :
    (i owner : ℕ) (status : FollowRequestStatus) (d : Db)
    → is_open status ≡ false
    → IsAnswered i owner
        (record d { follow_requests = update (open_id i) (with_status status) d.follow_requests })
resolved-IsAnswered i owner status d closed = ground (
  arith,
  count-update_none (open_id_for i owner) (open_id i) (with_status status) (λ r h. ground arith)
      (λ r h. ground arith) d.follow_requests,
)

-- After an approval the requester follows the owner, and the request is answered for good.
pub record IsApproved (i owner requester : ℕ) (e : Db) : Type 0 where
  pub answered : IsAnswered i owner e
  pub follows : exists (pair_of requester owner) e.follows ≡ true

module _ (t : Tick) (owner : Account) (i : ℕ) (d : Db) (r : FollowRequestRow) where
  abbrev muted_requester : Bool
  muted_requester = exists (mute_pair owner.id r.requester_id) d.mutes

  -- Approving an open request aimed at the owner, of an account that may follow, returns; the
  -- requester then follows the owner and the request is answered.
  pub approve-IsApproved :
      find (open_id_for i owner.id) d.follow_requests ≡ some r
      → refuses_follow r.requester_id owner.id d ≡ false
      → ((approve t owner i d).0 ≡ ok tt)
        × IsApproved i owner.id r.requester_id (approve t owner i d).1
  unfolding approve required find_pending_by_id request_of to_request resolve_request refuses_follow
      add_follow move_counters is_muted find_profile add_event ◌>>=◌
  approve-IsApproved found accepted =
      let answered = resolved-IsAnswered i owner.id FollowRequestStatus.approved d refl in
      rw found (
        rw accepted (elim (Bool-cases muted_requester) [
          | inl muted ↦ rw muted (refl, record { answered = answered; follows = ground arith })
          | inr heard ↦ rw heard (refl, record { answered = answered; follows = ground arith })
        ]))

  -- Rejecting an open request aimed at the owner returns, leaves the follows as they were, and
  -- answers the request.
  reject-IsAnswered :
      find (open_id_for i owner.id) d.follow_requests ≡ some r
      → ((reject owner i d).0 ≡ ok tt)
        × IsAnswered i owner.id (reject owner i d).1
        × ((reject owner i d).1.follows ≡ d.follows)
  unfolding reject required find_pending_by_id request_of to_request resolve_request ◌>>=◌
  reject-IsAnswered found =
      rw found (refl, resolved-IsAnswered i owner.id FollowRequestStatus.rejected d refl, refl)

  -- Approving a request of an account that already follows the owner crashes: the follow is
  -- inserted a second time, and its primary key refuses it.
  pub approve-crashes :
      find (open_id_for i owner.id) d.follow_requests ≡ some r
      → exists (pair_of r.requester_id owner.id) d.follows ≡ true
      → (approve t owner i d).0 ≡ crash
  unfolding approve required find_pending_by_id request_of to_request resolve_request refuses_follow
      add_follow ◌>>=◌
  approve-crashes found already =
      let refused : refuses_follow r.requester_id owner.id d ≡ true = ground arith in
      rw found (rw refused refl)
