-- ===== src/Graph/Apart.antt =====
-- Blocked pairs stay apart, and a pair has one open request, under each statement.
use udesa_x_posts_api.Common.{
  ℕ, ◌≤◌, ◌≡◌, false, List, ◌∷◌, arith, ◌==◌, ◌&&◌, inl, inr, Bool-cases,
}
use udesa_x_posts_api.Common.Rows.{
  count, update, delete, count-delete_all, count-update_le, count-update_none,
}
use udesa_x_posts_api.Models.{FollowRequestStatus}
use udesa_x_posts_api.Models.Equality.{is_open}
use udesa_x_posts_api.Database.{FollowRow, FollowRequestRow, BlockRow, Tick}
use udesa_x_posts_api.Follows.{pair_of}
use udesa_x_posts_api.FollowRequests.{open_pair, open_id, with_status, new_request}
use udesa_x_posts_api.Blocks.{block_pair}
use udesa_x_posts_api.Graph.{IsApart, IsOpenOnce, BlocksSever}

-- Fewer follows and fewer open requests keep a pair apart.
pub IsApart-shrink :
    (fs gs : List FollowRow) (rs ts : List FollowRequestRow)
    → ((a b : ℕ) → count (pair_of a b) gs ≤ count (pair_of a b) fs)
    → ((a b : ℕ) → count (open_pair a b) ts ≤ count (open_pair a b) rs)
    → (a b : ℕ) → IsApart fs rs a b
    → IsApart gs ts a b
IsApart-shrink fs gs rs ts fewer closed a b h = record {
  no_follow = omega (arith, h.no_follow, fewer a b);
  no_follow_back = omega (arith, h.no_follow_back, fewer b a);
  no_request = omega (arith, h.no_request, closed a b);
  no_request_back = omega (arith, h.no_request_back, closed b a);
}

-- A request that leaves the open ones, by whichever condition it is found.
pub count-close_pair :
    (a b u v : ℕ) (rs : List FollowRequestRow)
    → count (open_pair u v) (update (open_pair a b) (with_status FollowRequestStatus.cancelled) rs)
      ≤ count (open_pair u v) rs
count-close_pair a b u v rs =
    count-update_le (open_pair u v) (open_pair a b) _ (λ r h e. ground arith) rs

pub count-close_id :
    (i u v : ℕ) (status : FollowRequestStatus) (rs : List FollowRequestRow)
    → is_open status ≡ false
    → count (open_pair u v) (update (open_id i) (with_status status) rs) ≤ count (open_pair u v) rs
count-close_id i u v status rs closed =
    count-update_le (open_pair u v) (open_id i) _ (λ r h e. ground arith) rs

pub count-close_self :
    (a b : ℕ) (rs : List FollowRequestRow)
    → count (open_pair a b) (update (open_pair a b) (with_status FollowRequestStatus.cancelled) rs)
      ≡ 0
count-close_self a b rs =
    count-update_none (open_pair a b) (open_pair a b) _ (λ r h. h) (λ r h. ground arith) rs

pub count-unfollow_self :
    (a b : ℕ) (fs : List FollowRow) → count (pair_of a b) (delete (pair_of a b) fs) ≡ 0
count-unfollow_self a b fs = count-delete_all (pair_of a b) (pair_of a b) (λ r h. h) fs

module _ (a b : ℕ) (bs : List BlockRow) (fs : List FollowRow) (rs : List FollowRequestRow) where
  -- A follow or a request may be added between two accounts that no block separates.
  pub BlocksSever-follow :
      (now : ℕ)
      → count (block_pair a b) bs ≡ 0
      → count (block_pair b a) bs ≡ 0
      → BlocksSever bs fs rs
      → BlocksSever bs ((record { follower_id = a; followee_id = b; created_at = now }) ∷ fs) rs
  BlocksSever-follow now free free_back h u v blocked = record {
    no_follow = ground (arith, (h u v blocked).no_follow);
    no_follow_back = ground (arith, (h u v blocked).no_follow_back);
    no_request = (h u v blocked).no_request;
    no_request_back = (h u v blocked).no_request_back;
  }

  pub BlocksSever-request :
      (t : Tick)
      → count (block_pair a b) bs ≡ 0
      → count (block_pair b a) bs ≡ 0
      → BlocksSever bs fs rs
      → BlocksSever bs fs (new_request t a b ∷ rs)
  BlocksSever-request t free free_back h u v blocked = record {
    no_follow = (h u v blocked).no_follow;
    no_follow_back = (h u v blocked).no_follow_back;
    no_request = ground (arith, (h u v blocked).no_request);
    no_request_back = ground (arith, (h u v blocked).no_request_back);
  }

  -- A new block, once nothing joins the two accounts.
  pub BlocksSever-block :
      (now : ℕ)
      → IsApart fs rs a b
      → BlocksSever bs fs rs
      → BlocksSever ((record { blocker_id = a; blocked_id = b; created_at = now }) ∷ bs) fs rs
  BlocksSever-block now apart h u v blocked = elim (Bool-cases (a == u && b == v)) [
    | inl same ↦ record {
      no_follow = ground (arith, apart.no_follow);
      no_follow_back = ground (arith, apart.no_follow_back);
      no_request = ground (arith, apart.no_request);
      no_request_back = ground (arith, apart.no_request_back);
    }
    | inr other ↦ h u v (ground arith)
  ]

  pub IsOpenOnce-request :
      (t : Tick)
      → count (open_pair a b) rs ≡ 0
      → IsOpenOnce rs
      → IsOpenOnce (new_request t a b ∷ rs)
  IsOpenOnce-request t absent h u v = ground (arith, h u v)
