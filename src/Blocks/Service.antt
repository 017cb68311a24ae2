-- ===== src/Blocks/Service.antt =====
-- BlockService (app/services/blocks.py).
use udesa_x_posts_api.Common.{ℕ, none, is_some, not, ◌==◌}
use udesa_x_posts_api.Common.Int.{negsuc}
use udesa_x_posts_api.Common.Action.{
  when◌run◌otherwise◌, ProblemError, Action, pure, raise_if, ◌>>=◌, ◌>>◌,
}
use udesa_x_posts_api.Models.{Account}
use udesa_x_posts_api.Database.{Db, Tick}
use udesa_x_posts_api.Follows.{find_profile, ensure_profile, remove_follow, move_counters}
use udesa_x_posts_api.FollowRequests.{cancel_request}
use udesa_x_posts_api.Blocks.{add_block, remove_block}

abbrev pub cannot_block_yourself : ProblemError
cannot_block_yourself = record {
  status = 409;
  code = "cannot-block-yourself";
  title = "No se pudo bloquear la cuenta";
  detail = "No podés bloquearte a vos mismo";
  retry_after = none;
}

abbrev pub user_not_found : ProblemError
user_not_found = record {
  status = 404;
  code = "user-not-found";
  title = "No se pudo bloquear la cuenta";
  detail = "La cuenta que querés bloquear no existe";
  retry_after = none;
}

-- One round of the loop over the two directions.
unfoldable pub sever : ℕ → ℕ → Action Db (Unit {0})
sever a b = do
  removed ← remove_follow a b
  when removed run (move_counters a b (negsuc 0)) otherwise pure tt
  cancel_request a b
  pure tt

unfoldable pub block : Tick → Account → ℕ → Action Db (Unit {0})
block t blocker b = do
  raise_if (blocker.id == b) cannot_block_yourself
  ensure_profile blocker
  found ← find_profile b
  raise_if (not (is_some found)) user_not_found
  added ← add_block t blocker.id b
  when added run ((sever blocker.id b >> sever b blocker.id)) otherwise pure tt

unfoldable pub unblock : Account → ℕ → Action Db (Unit {0})
unblock blocker b = remove_block blocker.id b
