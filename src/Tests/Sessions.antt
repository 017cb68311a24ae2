-- ===== src/Tests/Sessions.antt =====
-- Two sessions of the account 2, all of whose sessions were closed in the second 100: one token was
-- issued in that second and one after it, and the latter is of a moderator.
use package.text.Mathlib.Text.{◌==◌ as str_eq}
use udesa_x_posts_api.Common.{ℕ, ◌≡◌, ◌↔◌, refl, Option, none, some, true, String, if◌then◌else◌}
use udesa_x_posts_api.Common.Int.{pos}
use udesa_x_posts_api.Common.Action.{ok, problem}
use udesa_x_posts_api.Access.{
  Claims, Outside, get_claims, is_revoked, is_session_revoked, session_revoked, administrator,
  is_administrator, require_administrator,
}
use udesa_x_posts_api.Access.Live.{IsLive, administrator-IsLive}

abbrev issued : ℕ → Option String → Claims
issued iat role = record {
  sub = some "2";
  jti = "a";
  iat = iat;
  handle = some "bruno";
  profile_visibility = none;
  role = role;
}

abbrev services : Outside
services = record {
  decode = λ token.
      if str_eq token "old"
      then some (issued 100 none)
      else if str_eq token "new"
      then some (issued 101 (some "moderator"))
      else none;
  mget = λ a b. some (none, some "100");
  uuid = λ s. some 2;
  int = λ s. some (pos 100);
}

-- The token of the same second is refused.
old_session : get_claims services "old" ≡ problem session_revoked
unfolding get_claims is_revoked is_session_revoked
old_session = refl

new_session : administrator services "new" ≡ ok tt
unfolding administrator get_claims is_revoked is_session_revoked require_administrator
new_session = refl

administrator-IsLive_example :
    ((claims : Claims) → get_claims services "new" ≡ ok claims ↔ IsLive services "new" claims)
    × (administrator services "new" ≡ ok tt
        ↔ (claims : Claims) × IsLive services "new" claims × (is_administrator claims.role ≡ true))
administrator-IsLive_example = administrator-IsLive services "new"
