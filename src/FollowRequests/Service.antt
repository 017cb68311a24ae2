-- ===== src/FollowRequests/Service.antt =====
-- FollowRequestService (app/services/follow_requests.py).
use udesa_x_posts_api.Common.{ℕ, String, Option, none, some}
use udesa_x_posts_api.Common.Int.{pos}
use udesa_x_posts_api.Common.Action.{
  when◌run◌otherwise◌, ProblemError, Action, pure, require, ◌>>=◌, ◌>>◌,
}
use udesa_x_posts_api.Models.{Account, UserProfile, FollowRequest, FollowRequestStatus}
use udesa_x_posts_api.Database.{Db, Tick}
use udesa_x_posts_api.Follows.{find_profile, add_follow, move_counters}
use udesa_x_posts_api.FollowRequests.{find_pending_by_id, resolve_request}
use udesa_x_posts_api.Mutes.{is_muted}
use udesa_x_posts_api.Outbox.{follow_created, add_event}

abbrev pub follow_request_not_found : ProblemError
follow_request_not_found = record {
  status = 404;
  code = "follow-request-not-found";
  title = "No se pudo responder la solicitud";
  detail = "La solicitud no existe o ya fue respondida";
  retry_after = none;
}

-- `FollowRequestService._required`
unfoldable pub required : Account → ℕ → Action Db FollowRequest
required owner i = do
  request ← find_pending_by_id i owner.id
  require request follow_request_not_found

abbrev pub handle_of : Option UserProfile → Option String
handle_of none = none
handle_of (some p) = p.handle

unfoldable pub approve : Tick → Account → ℕ → Action Db (Unit {0})
approve t owner i = do
  request ← required owner i
  resolve_request i FollowRequestStatus.approved
  add_follow t request.requester_id owner.id
  move_counters request.requester_id owner.id (pos 1)
  muted ← is_muted owner.id request.requester_id
  when muted run pure tt otherwise do
    requester ← find_profile request.requester_id
    add_event t (follow_created t request.requester_id owner.id (handle_of requester))

unfoldable pub reject : Account → ℕ → Action Db (Unit {0})
reject owner i = do required owner i; resolve_request i FollowRequestStatus.rejected
