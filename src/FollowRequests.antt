-- ===== src/FollowRequests.antt =====
-- FollowRequestRepository (app/repositories/follow_requests.py).
pub mod Service
pub mod Outcomes
use udesa_x_posts_api.Common.{ℕ, Option, none, some, Bool, ◌&&◌, ◌||◌, not, ◌∷◌, ◌==◌}
use udesa_x_posts_api.Common.Rows.{exists, find, update}
use udesa_x_posts_api.Common.Action.{Action, Result, ok, pure, gets, modify, crash_if, ◌>>=◌, ◌>>◌}
use udesa_x_posts_api.Models.{FollowRequest, FollowRequestStatus}
use udesa_x_posts_api.Models.Equality.{is_open}
use udesa_x_posts_api.Database.{Db, FollowRequestRow, Tick}
use udesa_x_posts_api.Follows.{profile_exists}

-- The conditions of the statements below: an open request of a pair, and an open one by its id.
abbrev pub open_pair : ℕ → ℕ → FollowRequestRow → Bool
open_pair a b r = r.requester_id == a && (r.target_id == b && is_open r.status)

abbrev pub open_id : ℕ → FollowRequestRow → Bool
open_id i r = r.id == i && is_open r.status

abbrev pub open_id_for : ℕ → ℕ → FollowRequestRow → Bool
open_id_for i b r = r.id == i && (r.target_id == b && is_open r.status)

abbrev pub request_id : ℕ → FollowRequestRow → Bool
request_id i r = r.id == i

unfoldable pub to_request : FollowRequestRow → FollowRequest
to_request r = record {
  requester_id = r.requester_id;
  target_id = r.target_id;
  id = r.id;
  status = r.status;
  created_at = r.created_at;
}

unfoldable pub request_of : Option FollowRequestRow → Option FollowRequest
request_of none = none
request_of (some r) = some (to_request r)

unfoldable pub find_pending : ℕ → ℕ → Action Db (Option FollowRequest)
find_pending a b = gets (λ d. request_of (find (open_pair a b) d.follow_requests))

abbrev pub new_request : Tick → ℕ → ℕ → FollowRequestRow
new_request t a b = record {
  id = t.row_id;
  requester_id = a;
  target_id = b;
  status = FollowRequestStatus.pending;
  created_at = t.now;
}

-- The primary key, `uq_follow_requests_open_pair` and the two foreign keys.
unfoldable pub refuses_request : Tick → ℕ → ℕ → Db → Bool
refuses_request t a b d =
    exists (request_id t.row_id) d.follow_requests
    || exists (open_pair a b) d.follow_requests
    || not (profile_exists a d)
    || not (profile_exists b d)

-- `FollowRequestRepository.open`
unfoldable pub open_request : Tick → ℕ → ℕ → Action Db FollowRequest
open_request t a b = do
  refused ← gets (refuses_request t a b)
  crash_if refused
  modify (λ d. record d { follow_requests = new_request t a b ∷ d.follow_requests })
  pure (to_request (new_request t a b))

unfoldable pub find_pending_by_id : ℕ → ℕ → Action Db (Option FollowRequest)
find_pending_by_id i b = gets (λ d. request_of (find (open_id_for i b) d.follow_requests))

abbrev pub with_status : FollowRequestStatus → FollowRequestRow → FollowRequestRow
with_status status r = record r { status = status }

-- `FollowRequestRepository.resolve`
unfoldable pub resolve_request : ℕ → FollowRequestStatus → Action Db (Unit {0})
resolve_request i status =
    modify (λ d. record d {
      follow_requests = update (open_id i) (with_status status) d.follow_requests;
    })

-- `FollowRequestRepository.cancel`: whether there was an open request to withdraw.
unfoldable pub cancel_request : ℕ → ℕ → Action Db Bool
cancel_request a b d = (
  ok (exists (open_pair a b) d.follow_requests),
  record d {
    follow_requests =
        update (open_pair a b) (with_status FollowRequestStatus.cancelled) d.follow_requests;
  },
)
