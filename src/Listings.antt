-- ===== src/Listings.antt =====
-- The listings of accounts: followers and followed accounts (app/repositories/follow_listings.py),
-- blocked and muted accounts (app/repositories/blocks.py and mutes.py) and pending requests
-- (app/repositories/follow_requests.py). The cursor of a call is the position that it decodes to.
pub mod Service
pub mod Followers
pub mod Scrolling
use udesa_x_posts_api.Common.{ℕ, String, Option, Bool, false, ◌&&◌, ◌||◌, List, [], ◌∷◌, map, ◌==◌}
use udesa_x_posts_api.Common.Rows.{select, gather}
use udesa_x_posts_api.Models.Equality.{is_open}
use udesa_x_posts_api.Database.{Db, UserProfileRow, FollowRow, FollowRequestRow, BlockRow, MuteRow}
use udesa_x_posts_api.Follows.{profile_id}
use udesa_x_posts_api.Pagination.{Listing, apply_cursor, page_of}
use udesa_x_posts_api.Pagination.Orders.{Cursor, by_cursor}

-- A row of a statement that joins the profile of the other account; also `BlockedAccount` and
-- `MutedAccount` (app/models/follow.py).
pub record AccountRow : Type 0 where
  pub id : ℕ
  pub handle : Option String
  pub created_at : ℕ

-- `FollowListItem` (app/models/follow.py).
pub record FollowListItem : Type 0 where
  pub id : ℕ
  pub handle : Option String
  pub followed_by_viewer : Bool
  pub created_at : ℕ

-- `PendingFollowRequest` (app/models/follow.py).
pub record PendingFollowRequest : Type 0 where
  pub id : ℕ
  pub requester_handle : Option String
  pub created_at : ℕ

-- The rows of a table that name another account, joined to its profile.
abbrev pub joined : {R : Type 0} → (R → ℕ) → (R → ℕ) → List R → Db → List AccountRow
joined other at rows d =
    gather
      (λ r.
        map (λ u. record { id = other r; handle = u.handle; created_at = at r })
          (select (profile_id (other r)) d.profiles))
      rows

abbrev pub newest_account : Listing
newest_account = record {
  Row = AccountRow;
  order = by_cursor;
  key = λ r. record { at = r.created_at; tiebreak = r.id };
  ascending = false;
}

abbrev pub newest_item : Listing
newest_item = record {
  Row = FollowListItem;
  order = by_cursor;
  key = λ r. record { at = r.created_at; tiebreak = r.id };
  ascending = false;
}

abbrev pub newest_request : Listing
newest_request = record {
  Row = PendingFollowRequest;
  order = by_cursor;
  key = λ r. record { at = r.created_at; tiebreak = r.id };
  ascending = false;
}

-- The two `account_filter`s, and the statements of `_list`.
unfoldable pub follower_rows : ℕ → Db → List AccountRow
follower_rows user d =
    joined (λ f. f.follower_id) (λ f. f.created_at)
      (select (λ (f : FollowRow). f.followee_id == user) d.follows) d

unfoldable pub following_rows : ℕ → Db → List AccountRow
following_rows user d =
    joined (λ f. f.followee_id) (λ f. f.created_at)
      (select (λ (f : FollowRow). f.follower_id == user) d.follows) d

abbrev pub contains : ℕ → List ℕ → Bool
contains a [] = false
contains a (b ∷ bs) = b == a || contains a bs

-- `_followed_by_viewer`
unfoldable pub followed_by_viewer : ℕ → List ℕ → Db → List ℕ
followed_by_viewer viewer ids d =
    map (λ f. f.followee_id)
      (select (λ (f : FollowRow). f.follower_id == viewer && contains f.followee_id ids) d.follows)

abbrev pub list_item : List ℕ → AccountRow → FollowListItem
list_item already_followed r = record {
  id = r.id;
  handle = r.handle;
  followed_by_viewer = contains r.id already_followed;
  created_at = r.created_at;
}

-- `_list`
unfoldable pub list_accounts :
    List AccountRow → ℕ → Option Cursor → ℕ → Db → List FollowListItem × Option Cursor
unfolding apply_cursor page_of followed_by_viewer
list_accounts rows viewer cursor limit d =
    let fetched = apply_cursor newest_account cursor limit rows in
    let already_followed = followed_by_viewer viewer (map (λ r. r.id) fetched) d in
    page_of newest_item limit (map (list_item already_followed) fetched)

unfoldable pub followers_of : ℕ → ℕ → Option Cursor → ℕ → Db → List FollowListItem × Option Cursor
unfolding list_accounts follower_rows
followers_of user viewer cursor limit d = list_accounts (follower_rows user d) viewer cursor limit d

unfoldable pub following_of : ℕ → ℕ → Option Cursor → ℕ → Db → List FollowListItem × Option Cursor
unfolding list_accounts following_rows
following_of user viewer cursor limit d =
    list_accounts (following_rows user d) viewer cursor limit d

-- `BlockRepository.blocked_by`
unfoldable pub blocked_by : ℕ → Option Cursor → ℕ → Db → List AccountRow × Option Cursor
unfolding apply_cursor page_of
blocked_by blocker cursor limit d = page_of newest_account limit (
    apply_cursor newest_account cursor limit (
      joined (λ b. b.blocked_id) (λ b. b.created_at)
        (select (λ (b : BlockRow). b.blocker_id == blocker) d.blocks) d))

-- `MuteRepository.muted_by`
unfoldable pub muted_by : ℕ → Option Cursor → ℕ → Db → List AccountRow × Option Cursor
unfolding apply_cursor page_of
muted_by muter cursor limit d = page_of newest_account limit (
    apply_cursor newest_account cursor limit (
      joined (λ m. m.muted_id) (λ m. m.created_at)
        (select (λ (m : MuteRow). m.muter_id == muter) d.mutes) d))

-- The statement of `pending_for`: a request and the handle of who asked.
unfoldable pub pending_rows : ℕ → Db → List PendingFollowRequest
pending_rows target d =
    gather
      (λ r.
        map (λ u. record { id = r.id; requester_handle = u.handle; created_at = r.created_at })
          (select (profile_id r.requester_id) d.profiles))
      (select (λ (r : FollowRequestRow). r.target_id == target && is_open r.status)
        d.follow_requests)

-- `FollowRequestRepository.pending_for`
unfoldable pub pending_for : ℕ → Option Cursor → ℕ → Db → List PendingFollowRequest × Option Cursor
unfolding apply_cursor page_of pending_rows
pending_for target cursor limit d =
    page_of newest_request limit (apply_cursor newest_request cursor limit (pending_rows target d))
