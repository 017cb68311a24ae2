-- ===== src/Graph/Blocking.antt =====
-- Blocking, unblocking, muting and unmuting keep the graph consistent, and a block leaves nothing
-- that joins the two accounts.
use udesa_x_posts_api.Common.{
  ℕ, ◌<◌, ◌≡◌, refl, Bool, true, false, arith, inl, inr, Bool-cases, ◌∷◌,
}
use udesa_x_posts_api.Common.Rows.{count, exists, update, delete, count-delete_le}
use udesa_x_posts_api.Common.Action.{ok, pure, when◌run◌otherwise◌, ◌>>=◌, ◌>>◌}
use udesa_x_posts_api.Common.Action.Rules.{
  Post, post_pure, post_if, post_call, post_read, post_refuse, post_check, post_write, post_modify,
}
use udesa_x_posts_api.Models.{Account, FollowRequestStatus}
use udesa_x_posts_api.Database.{Db, Tick, BlockRow}
use udesa_x_posts_api.Follows.{pair_of, find_profile, remove_follow, move_counters}
use udesa_x_posts_api.FollowRequests.{open_pair, with_status, cancel_request}
use udesa_x_posts_api.Blocks.{block_pair, add_block, remove_block}
use udesa_x_posts_api.Blocks.Service.{sever, block, unblock}
use udesa_x_posts_api.Mutes.{add_mute, remove_mute}
use udesa_x_posts_api.Mutes.Service.{mute, unmute}
use udesa_x_posts_api.Graph.{IsConsistent, IsApart}
use udesa_x_posts_api.Graph.Apart.{
  count-close_self, count-close_pair, count-unfollow_self, BlocksSever-block,
}
use udesa_x_posts_api.Graph.Statements.{
  ensure_profile-keeps, unfollowed, unfollowed-keeps, withdrawn, withdrawn-keeps,
}

-- The graph after one round of the loop.
abbrev pub severed : ℕ → ℕ → Db → Db
severed a b d = withdrawn a b (unfollowed a b d)

pub sever_lem : (a b : ℕ) (d : Db) → sever a b d ≡ (ok tt, severed a b d)
unfolding sever remove_follow move_counters cancel_request ◌>>=◌
sever_lem a b d = elim (Bool-cases (exists (pair_of a b) d.follows)) [
  | inl there ↦ rw there
  | inr absent ↦ rw absent
]

severed-keeps : (a b : ℕ) (d : Db) → IsConsistent d → IsConsistent (severed a b d)
severed-keeps a b d v = withdrawn-keeps a b _ (unfollowed-keeps a b d v)

-- After both rounds nothing joins the two accounts.
severed-IsApart :
    (a b : ℕ) (d : Db)
    → let e = severed b a (severed a b d) in IsApart e.follows e.follow_requests a b
severed-IsApart a b d = record {
  no_follow = omega (
    arith,
    count-unfollow_self a b d.follows,
    count-delete_le (pair_of a b) (pair_of b a) (delete (pair_of a b) d.follows),
  );
  no_follow_back = count-unfollow_self b a (delete (pair_of a b) d.follows);
  no_request = omega (
    arith,
    count-close_self a b d.follow_requests,
    count-close_pair b a a b
        (update (open_pair a b) (with_status FollowRequestStatus.cancelled) d.follow_requests),
  );
  no_request_back =
      count-close_self b a
        (update (open_pair a b) (with_status FollowRequestStatus.cancelled) d.follow_requests);
}

-- A consistent graph with the block in it.
pub record HasBlock (a b : ℕ) (d : Db) : Type 0 where
  pub consistent : IsConsistent d
  pub blocked : 0 < count (block_pair a b) d.blocks

abbrev blocked_row : Tick → ℕ → ℕ → BlockRow
blocked_row t a b = record { blocker_id = a; blocked_id = b; created_at = t.now }

-- The new block, and then the two rounds.
sever_both-HasBlock :
    (t : Tick) (a b : ℕ) (d : Db)
    → IsConsistent d
    → Post
        (λ _ e. HasBlock a b e)
        ((sever a b >> sever b a) (record d { blocks = blocked_row t a b ∷ d.blocks }))
unfolding ◌>>=◌
sever_both-HasBlock t a b d v =
    let w = severed-keeps b a _ (severed-keeps a b d v) in
    rw sever_lem (
      rw sever_lem (record {
        holds = record {
          consistent = record {
            keyed = w.keyed;
            counted = w.counted;
            open_once = w.open_once;
            severed = BlocksSever-block a b d.blocks _ _ t.now (severed-IsApart a b d) w.severed;
          };
          blocked = ground arith;
        };
      }))

-- How `add_block` leaves the graph: as it was, with the block in it, or with the block just added.
abbrev Added : Tick → ℕ → ℕ → Bool → Db → Type 0
Added t a b false e = HasBlock a b e
Added t a b true e =
    (d : Db) × (IsConsistent d) × (e ≡ record d { blocks = blocked_row t a b ∷ d.blocks })

add_block-Added :
    (t : Tick) (a b : ℕ) (d : Db)
    → IsConsistent d
    → Post (λ c e. Added t a b c e) (add_block t a b d)
unfolding add_block
add_block-Added t a b d v = post_read _ _ d (
    post_if _ _ _ d (λ there. post_pure false d (record { consistent = v; blocked = ground arith }))
      λ new.
        post_read _ _ d
          (post_check _ _ d λ accepted. post_write _ _ d (post_pure true _ (d, v, refl))))

after_add-HasBlock :
    (t : Tick) (a b : ℕ) (added : Bool) (e : Db)
    → Added t a b added e
    → Post (λ _ x. HasBlock a b x) ((when added run (sever a b >> sever b a) otherwise pure tt) e)
unfolding when◌run◌otherwise◌
after_add-HasBlock t a b false e h = post_pure tt e h
after_add-HasBlock t a b true e (d, v, same) = rw same (sever_both-HasBlock t a b d v)

-- A block that returns keeps the graph consistent and is on record.
pub block-HasBlock :
    (t : Tick) (blocker : Account) (b : ℕ) (d : Db)
    → IsConsistent d
    → Post (λ _ e. HasBlock blocker.id b e) (block t blocker b d)
unfolding block find_profile
block-HasBlock t blocker b d v = post_refuse _ _ _ d λ not_self.
    post_call _ _ _ d (ensure_profile-keeps blocker d v) λ p d1 h. post_read _ _ d1 (
      post_refuse _ _ _ d1 λ found.
        post_call _ _ _ d1 (add_block-Added t blocker.id b d1 h.consistent)
          (λ added d2 h2. after_add-HasBlock t blocker.id b added d2 h2))

-- Lifting a block keeps the graph consistent.
pub unblock-keeps :
    (blocker : Account) (b : ℕ) (d : Db)
    → IsConsistent d
    → Post (λ _ e. IsConsistent e) (unblock blocker b d)
unfolding unblock remove_block
unblock-keeps blocker b d v = post_modify _ d (record {
  keyed = v.keyed;
  counted = v.counted;
  open_once = v.open_once;
  severed = λ x y blocked.
      v.severed x y (
        omega
          (arith, blocked, count-delete_le (block_pair x y) (block_pair blocker.id b) d.blocks));
})

-- Muting keeps the graph consistent.
pub mute-keeps :
    (t : Tick) (muter : Account) (b : ℕ) (d : Db)
    → IsConsistent d
    → Post (λ _ e. IsConsistent e) (mute t muter b d)
unfolding mute find_profile add_mute
mute-keeps t muter b d v = post_refuse _ _ _ d λ not_self.
    post_call _ _ _ d (ensure_profile-keeps muter d v) λ p d1 h.
      let w = h.consistent in
      post_read _ _ d1 (
        post_refuse _ _ _ d1 λ found. post_read _ _ d1 (
          post_if _ _ _ d1 (λ there. post_pure tt d1 w)
            λ new. post_read _ _ d1 (
              post_check _ _ d1 λ accepted. post_modify _ d1 (record {
                keyed = w.keyed;
                counted = w.counted;
                open_once = w.open_once;
                severed = w.severed;
              }))))

-- Lifting a mute keeps the graph consistent.
pub unmute-keeps :
    (muter : Account) (b : ℕ) (d : Db)
    → IsConsistent d
    → Post (λ _ e. IsConsistent e) (unmute muter b d)
unfolding unmute remove_mute
unmute-keeps muter b d v =
    post_modify _ d (record {
      keyed = v.keyed;
      counted = v.counted;
      open_once = v.open_once;
      severed = v.severed;
    })
