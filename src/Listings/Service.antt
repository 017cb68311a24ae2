-- ===== src/Listings/Service.antt =====
-- Who may read the lists of an account (app/services/follow_listings.py), and the listings of
-- app/services/blocks.py, mutes.py and follow_requests.py.
use udesa_x_posts_api.Common.{ℕ, Option, none, ◌&&◌, not, List, ◌==◌}
use udesa_x_posts_api.Common.Action.{ProblemError, Action, gets, require, raise_if, ◌>>=◌, ◌>>◌}
use udesa_x_posts_api.Models.{Account}
use udesa_x_posts_api.Models.Equality.{is_protected}
use udesa_x_posts_api.Database.{Db}
use udesa_x_posts_api.Follows.{ensure_profile, find_profile, is_following}
use udesa_x_posts_api.Blocks.{has_blocked}
use udesa_x_posts_api.Pagination.{default_page_size}
use udesa_x_posts_api.Pagination.Orders.{Cursor}
use udesa_x_posts_api.Listings.{
  AccountRow, FollowListItem, PendingFollowRequest, followers_of, following_of, blocked_by,
  muted_by, pending_for,
}

abbrev pub list_not_found : ProblemError
list_not_found = record {
  status = 404;
  code = "user-not-found";
  title = "No se pudo obtener la lista";
  detail = "La cuenta no existe";
  retry_after = none;
}

abbrev pub list_not_visible : ProblemError
list_not_visible = record {
  status = 403;
  code = "follow-list-not-visible";
  title = "No se pudo obtener la lista";
  detail = "Esta cuenta es protegida y no la seguís";
  retry_after = none;
}

-- `_authorize`
unfoldable pub authorize : ℕ → Account → Action Db (Unit {0})
authorize user viewer = do
  ensure_profile viewer
  found ← find_profile user
  target ← require found list_not_found
  blocked ← has_blocked user viewer.id
  raise_if blocked list_not_found
  following ← is_following viewer.id user
  raise_if (not (viewer.id == user) && (is_protected target.visibility && not following))
      list_not_visible

unfoldable pub list_followers :
    ℕ → Account → Option Cursor → Action Db (List FollowListItem × Option Cursor)
list_followers user viewer cursor = do
  authorize user viewer
  gets (followers_of user viewer.id cursor default_page_size)

unfoldable pub list_following :
    ℕ → Account → Option Cursor → Action Db (List FollowListItem × Option Cursor)
list_following user viewer cursor = do
  authorize user viewer
  gets (following_of user viewer.id cursor default_page_size)

unfoldable pub list_blocked : Account → Option Cursor → Action Db (List AccountRow × Option Cursor)
list_blocked owner cursor = do
  ensure_profile owner
  gets (blocked_by owner.id cursor default_page_size)

unfoldable pub list_muted : Account → Option Cursor → Action Db (List AccountRow × Option Cursor)
list_muted owner cursor = do ensure_profile owner; gets (muted_by owner.id cursor default_page_size)

unfoldable pub list_pending :
    Account → Option Cursor → Action Db (List PendingFollowRequest × Option Cursor)
list_pending owner cursor = do
  ensure_profile owner
  gets (pending_for owner.id cursor default_page_size)
