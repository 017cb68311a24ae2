-- ===== src/Blocks.antt =====
-- BlockRepository (app/repositories/blocks.py).
pub mod Service
use udesa_x_posts_api.Common.{ℕ, Bool, true, false, ◌&&◌, ◌||◌, not, ◌∷◌, ◌==◌}
use udesa_x_posts_api.Common.Rows.{exists, delete}
use udesa_x_posts_api.Common.Action.{
  when◌run◌otherwise◌, Action, pure, gets, modify, crash_if, ◌>>=◌, ◌>>◌,
}
use udesa_x_posts_api.Database.{Db, BlockRow, Tick}
use udesa_x_posts_api.Follows.{profile_exists}

abbrev pub block_pair : ℕ → ℕ → BlockRow → Bool
block_pair a b r = r.blocker_id == a && r.blocked_id == b

-- `ck_blocks_not_self` and the two foreign keys; a repeated pair is not refused.
unfoldable pub refuses_block : ℕ → ℕ → Db → Bool
refuses_block a b d = a == b || not (profile_exists a d) || not (profile_exists b d)

-- `BlockRepository.add`: `ON CONFLICT DO NOTHING`, and whether the block is new.
unfoldable pub add_block : Tick → ℕ → ℕ → Action Db Bool
add_block t a b = do
  there ← gets (λ d. exists (block_pair a b) d.blocks)
  when there run pure false otherwise do
    refused ← gets (refuses_block a b)
    crash_if refused
    modify (λ d. record d {
      blocks = (record { blocker_id = a; blocked_id = b; created_at = t.now }) ∷ d.blocks;
    })
    pure true

-- `BlockRepository.remove`
unfoldable pub remove_block : ℕ → ℕ → Action Db (Unit {0})
remove_block a b = modify (λ d. record d { blocks = delete (block_pair a b) d.blocks })

unfoldable pub has_blocked : ℕ → ℕ → Action Db Bool
has_blocked a b = gets (λ d. exists (block_pair a b) d.blocks)
