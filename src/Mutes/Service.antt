-- ===== src/Mutes/Service.antt =====
-- MuteService (app/services/mutes.py).
use udesa_x_posts_api.Common.{ℕ, none, is_some, not, ◌==◌}
use udesa_x_posts_api.Common.Action.{ProblemError, Action, raise_if, ◌>>=◌, ◌>>◌}
use udesa_x_posts_api.Models.{Account}
use udesa_x_posts_api.Database.{Db, Tick}
use udesa_x_posts_api.Follows.{find_profile, ensure_profile}
use udesa_x_posts_api.Mutes.{add_mute, remove_mute}

abbrev pub cannot_mute_yourself : ProblemError
cannot_mute_yourself = record {
  status = 409;
  code = "cannot-mute-yourself";
  title = "No se pudo silenciar la cuenta";
  detail = "No podés silenciarte a vos mismo";
  retry_after = none;
}

abbrev pub user_not_found : ProblemError
user_not_found = record {
  status = 404;
  code = "user-not-found";
  title = "No se pudo silenciar la cuenta";
  detail = "La cuenta que querés silenciar no existe";
  retry_after = none;
}

unfoldable pub mute : Tick → Account → ℕ → Action Db (Unit {0})
mute t muter b = do
  raise_if (muter.id == b) cannot_mute_yourself
  ensure_profile muter
  found ← find_profile b
  raise_if (not (is_some found)) user_not_found
  add_mute t muter.id b

unfoldable pub unmute : Account → ℕ → Action Db (Unit {0})
unmute muter b = remove_mute muter.id b
