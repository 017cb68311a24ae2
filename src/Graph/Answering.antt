-- ===== src/Graph/Answering.antt =====
-- Unfollowing, answering a request, blocking and muting keep the graph consistent.
use native.Mathlib.Nat.{le_refl}
use udesa_x_posts_api.Common.{
  ℕ, ◌<◌, ◌≡◌, refl, Option, none, some, false, arith, inl, inr, Bool-cases,
}
use udesa_x_posts_api.Common.Rows.{count, exists, find, find-count, find-holds, update}
use udesa_x_posts_api.Common.Action.{◌>>=◌}
use udesa_x_posts_api.Common.Action.Rules.{
  Post, post_pure, post_if, post_call, post_read, post_require, post_write, post_modify,
}
use udesa_x_posts_api.Models.{Account, FollowRequest, FollowRequestStatus}
use udesa_x_posts_api.Models.Equality.{is_open}
use udesa_x_posts_api.Database.{Db, Tick, FollowRequestRow}
use udesa_x_posts_api.Follows.{pair_of, find_profile, remove_follow, move_counters}
use udesa_x_posts_api.Follows.Service.{unfollow}
use udesa_x_posts_api.FollowRequests.{
  open_pair, open_id, open_id_for, with_status, request_of, to_request, find_pending_by_id,
  resolve_request, cancel_request,
}
use udesa_x_posts_api.FollowRequests.Service.{required, approve, reject}
use udesa_x_posts_api.Blocks.{block_pair}
use udesa_x_posts_api.Mutes.{is_muted}
use udesa_x_posts_api.Graph.{IsConsistent}
use udesa_x_posts_api.Graph.Apart.{IsApart-shrink, count-close_id}
use udesa_x_posts_api.Graph.Statements.{
  add_follow-IsShort, move_counters-keeps, unfollowed-keeps, withdrawn-keeps,
}
use udesa_x_posts_api.Graph.Following.{add_event-keeps}

-- Unfollowing, or withdrawing the request, keeps the graph consistent.
pub unfollow-keeps :
    (follower : Account) (b : ℕ) (d : Db)
    → IsConsistent d
    → Post (λ _ e. IsConsistent e) (unfollow follower b d)
unfolding unfollow remove_follow move_counters cancel_request ◌>>=◌
unfollow-keeps follower b d v =
    let gone = unfollowed-keeps follower.id b d v in
    elim (Bool-cases (exists (pair_of follower.id b) d.follows)) [
      | inl there ↦ rw there (record { holds = rw there at gone })
      | inr absent ↦
          rw absent (record { holds = withdrawn-keeps follower.id b _ (rw absent at gone) })
    ]

-- An open request shows that no block separates the two accounts.
free_of_open :
    (a b : ℕ) (d : Db)
    → IsConsistent d
    → 0 < count (open_pair a b) d.follow_requests
    → (count (block_pair a b) d.blocks ≡ 0) × (count (block_pair b a) d.blocks ≡ 0)
free_of_open a b d v waiting = (
  ground (arith, (λ (h : 0 < count (block_pair a b) d.blocks). (v.severed a b h).no_request)),
  ground (arith, (λ (h : 0 < count (block_pair b a) d.blocks). (v.severed b a h).no_request_back)),
)

-- What `_required` hands on: an open request aimed at the owner.
pub record IsAnswerable (owner : ℕ) (r : FollowRequest) (d : Db) : Type 0 where
  pub consistent : IsConsistent d
  pub waiting : 0 < count (open_pair r.requester_id owner) d.follow_requests

answerable :
    (owner i : ℕ) (d : Db) (found : Option FollowRequestRow) (r : FollowRequest)
    → IsConsistent d
    → find (open_id_for i owner) d.follow_requests ≡ found
    → request_of found ≡ some r
    → IsAnswerable owner r d
unfolding request_of to_request
answerable owner i d none r v e h = cc
answerable owner i d (some row) r v e h = record {
  consistent = v;
  waiting =
      find-count (open_id_for i owner) (open_pair r.requester_id owner) d.follow_requests row e
        (ground (arith, find-holds (open_id_for i owner) d.follow_requests row e));
}

required-IsAnswerable :
    (owner : Account) (i : ℕ) (d : Db)
    → IsConsistent d
    → Post (λ r e. IsAnswerable owner.id r e) (required owner i d)
unfolding required find_pending_by_id
required-IsAnswerable owner i d v =
    post_read _ _ d (post_require _ _ d λ r h. answerable owner.id i d _ r v refl h)

resolved-keeps :
    (i : ℕ) (status : FollowRequestStatus) (d : Db)
    → is_open status ≡ false
    → IsConsistent d
    → IsConsistent
        (record d { follow_requests = update (open_id i) (with_status status) d.follow_requests })
resolved-keeps i status d closed v = record {
  keyed = v.keyed;
  counted = v.counted;
  open_once =
      λ x y. omega (arith, v.open_once x y, count-close_id i x y status d.follow_requests closed);
  severed = λ x y blocked.
      IsApart-shrink d.follows _ d.follow_requests _ (λ p q. le_refl _)
        (λ p q. count-close_id i p q status d.follow_requests closed) x y (v.severed x y blocked);
}

-- Approving keeps the graph consistent.
pub approve-keeps :
    (t : Tick) (owner : Account) (i : ℕ) (d : Db)
    → IsConsistent d
    → Post (λ _ e. IsConsistent e) (approve t owner i d)
unfolding approve resolve_request is_muted find_profile
approve-keeps t owner i d v = post_call _ _ _ d (required-IsAnswerable owner i d v) λ r d1 h.
    let free = free_of_open r.requester_id owner.id d1 h.consistent h.waiting in
    let v2 = resolved-keeps i FollowRequestStatus.approved d1 refl h.consistent in
    post_write _ _ d1 (
      post_call _ _ _ _ (add_follow-IsShort t r.requester_id owner.id _ v2 free.0 free.1)
        λ _ d3 short.
          post_call _ _ _ d3 (move_counters-keeps r.requester_id owner.id d3 short) λ _ d4 v4.
            post_read _ _ d4 (
              post_if _ _ _ d4 (λ muted. post_pure tt d4 v4)
                λ heard. post_read _ _ d4 (add_event-keeps t _ d4 v4)))

-- Rejecting keeps the graph consistent.
pub reject-keeps :
    (owner : Account) (i : ℕ) (d : Db)
    → IsConsistent d
    → Post (λ _ e. IsConsistent e) (reject owner i d)
unfolding reject resolve_request
reject-keeps owner i d v =
    post_call _ _ _ d (required-IsAnswerable owner i d v) λ r d1 h.
      post_modify _ d1 (resolved-keeps i FollowRequestStatus.rejected d1 refl h.consistent)
