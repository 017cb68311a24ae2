-- ===== src/Access.antt =====
-- Who a request is from: app/security.py, the revocation marks of infrastructure/redis/revocations.py
-- and the dependencies `get_claims`, `get_current_user` and `require_administrator` of api/deps.py.
-- PyJWT, the Redis of users-api, and Python's `uuid` and `int` are arguments. The instants of a token
-- and of a mark are whole seconds.
pub mod Results
pub mod Live
use Prim.Native.String.{String}
use package.text.Mathlib.Text.{◌==◌ as str_eq}
use udesa_x_posts_api.Common.{
  ℕ, Option, none, some, is_some, Bool, true, false, ◌||◌, not, List, leb, if◌then◌else◌,
}
use udesa_x_posts_api.Common.Int.{ℤ, pos, negsuc}
use udesa_x_posts_api.Common.Action.{ProblemError, Result, ok, problem, crash}
use udesa_x_posts_api.Models.{ProfileVisibility, Account}

-- The claims of a token, `iat` and `jti` among those that `decode_access_token` requires.
pub record Claims : Type 0 where
  pub sub : Option String
  pub jti : String
  pub iat : ℕ
  pub handle : Option String
  pub profile_visibility : Option String
  pub role : Option String

-- `revoked_token_key` and `revoked_sessions_key`
pub data MarkKey : Type 0 where
  revoked_token_key : String → MarkKey
  revoked_sessions_key : ℕ → MarkKey

-- What this service calls: `jwt.decode` with its checks, where none is an invalid token; `mget` of
-- two keys, where none is an error of Redis; and the readers of Python.
pub record Outside : Type 0 where
  pub decode : String → Option Claims
  pub mget : MarkKey → MarkKey → Option (Option String × Option String)
  pub uuid : String → Option ℕ
  pub int : String → Option ℤ

abbrev pub invalid_token : ProblemError
invalid_token = record {
  status = 401;
  code = "invalid-token";
  title = "No se pudo autenticar la solicitud";
  detail = "El token no es válido";
  retry_after = none;
}

abbrev pub auth_unavailable : ProblemError
auth_unavailable = record {
  status = 503;
  code = "auth-unavailable";
  title = "No se pudo verificar la sesión";
  detail = "No pudimos verificar tu sesión en este momento. Probá de nuevo en unos minutos";
  retry_after = none;
}

abbrev pub session_revoked : ProblemError
session_revoked = record {
  status = 401;
  code = "session-revoked";
  title = "La sesión ya no es válida";
  detail = "Tu sesión se cerró. Iniciá sesión de nuevo";
  retry_after = none;
}

abbrev pub administrator_required : ProblemError
administrator_required = record {
  status = 403;
  code = "administrator-required";
  title = "No se pudo completar la acción";
  detail = "Solo un administrador puede ver esta información";
  retry_after = none;
}

-- `issued_at <= cutoff`
abbrev pub is_covered : ℕ → ℤ → Bool
is_covered issued_at (pos cutoff) = leb issued_at cutoff
is_covered issued_at (negsuc n) = false

unfoldable pub is_session_revoked : Bool → Option ℤ → ℕ → Bool
is_session_revoked token_marked none issued_at = token_marked
is_session_revoked token_marked (some cutoff) issued_at =
    token_marked || is_covered issued_at cutoff

infixl 5 ◌>>=◌
abbrev pub ◌>>=◌ : {A B : Type 0} → Result A → (A → Result B) → Result B
ok a >>= f = f a
problem e >>= f = problem e
crash >>= f = crash

-- A value whose absence is an exception that nobody catches.
abbrev pub expected : {A : Type 0} → Option A → Result A
expected none = crash
expected (some a) = ok a

abbrev pub or_problem : {A : Type 0} → Option A → ProblemError → Result A
or_problem none e = problem e
or_problem (some a) e = ok a

-- Whether a visibility is one of the two.
abbrev pub visibility_of : Option String → Option ProfileVisibility
visibility_of none = none
visibility_of (some s) =
    if str_eq s "public"
    then some ProfileVisibility.public
    else if str_eq s "protected"
    then some ProfileVisibility.protected
    else none

abbrev pub is_administrator : Option String → Bool
is_administrator none = false
is_administrator (some role) = str_eq role "moderator" || str_eq role "superadmin"

abbrev pub unless_revoked : Bool → Claims → Result Claims
unless_revoked true claims = problem session_revoked
unless_revoked false claims = ok claims

module _ (O : Outside) where
  abbrev pub read_cutoff : Option String → Result (Option ℤ)
  read_cutoff none = ok none
  read_cutoff (some raw) = do number ← expected (O.int raw); ok (some number)

  -- `RedisRevocationStore.is_revoked`, with the error of Redis as the one that `get_claims` makes of it.
  unfoldable pub is_revoked : String → ℕ → ℕ → Result Bool
  unfolding is_session_revoked
  is_revoked jti user_id issued_at = do
    (token_mark, raw) ←
        or_problem (O.mget (revoked_token_key jti) (revoked_sessions_key user_id)) auth_unavailable
    cutoff ← read_cutoff raw
    ok (is_session_revoked (is_some token_mark) cutoff issued_at)

  -- `uuid.UUID(claims["sub"])`
  abbrev pub user_of : Claims → Result ℕ
  user_of claims = do raw ← expected claims.sub; expected (O.uuid raw)

  unfoldable pub get_claims : String → Result Claims
  unfolding is_revoked
  get_claims token = do
    claims ← or_problem (O.decode token) invalid_token
    user_id ← user_of claims
    revoked ← is_revoked claims.jti user_id claims.iat
    unless_revoked revoked claims

  unfoldable pub get_current_user : Claims → Result Account
  get_current_user claims = do
    user_id ← user_of claims
    ok (record {
      id = user_id;
      handle = claims.handle;
      profile_visibility = visibility_of claims.profile_visibility;
    })

  unfoldable pub require_administrator : Claims → Result (Unit {0})
  require_administrator claims =
      if is_administrator claims.role then ok tt else problem administrator_required

  -- A request of a user, and one of an administrator, up to their endpoint.
  unfoldable pub current_user : String → Result Account
  unfolding get_claims get_current_user
  current_user token = do claims ← get_claims token; get_current_user claims

  unfoldable pub administrator : String → Result (Unit {0})
  unfolding get_claims require_administrator
  administrator token = do claims ← get_claims token; require_administrator claims
