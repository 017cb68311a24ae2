-- ===== src/Profiles.antt =====
-- ProfileService (app/services/profiles.py), with users-api and the signing of URLs as arguments. The
-- cursor of a call is the position that it decodes to.
pub mod Reading
use udesa_x_posts_api.Common.{ℕ, String, Option, none, some, Bool, ◌&&◌, ◌||◌, not, List, ◌==◌}
use udesa_x_posts_api.Common.Int.{ℤ}
use udesa_x_posts_api.Common.Action.{
  when◌run◌otherwise◌, ProblemError, Action, pure, raise, gets, require, raise_if, ◌>>=◌, ◌>>◌,
}
use udesa_x_posts_api.Models.{Account, UserProfile, ProfileVisibility}
use udesa_x_posts_api.Models.Equality.{is_protected}
use udesa_x_posts_api.Database.{Db}
use udesa_x_posts_api.Follows.{
  ensure_profile, find_profile, profile_is_deleted, create_profile_if_missing, is_following,
}
use udesa_x_posts_api.Blocks.{has_blocked}
use udesa_x_posts_api.Mutes.{is_muted}
use udesa_x_posts_api.Pagination.{default_page_size}
use udesa_x_posts_api.Pagination.Orders.{FeedCursor}
use udesa_x_posts_api.Activity.{ActivityItem, by_author}

-- `AccountDetails` and `Profile` (app/models/profile.py).
pub record AccountDetails : Type 0 where
  pub handle : String
  pub profile_visibility : ProfileVisibility
  pub display_name : Option String
  pub bio : Option String
  pub created_at : ℕ

pub record Profile : Type 0 where
  pub id : ℕ
  pub handle : Option String
  pub is_private : Bool
  pub followers_count : ℤ
  pub following_count : ℤ
  pub followed_by_viewer : Bool
  pub muted_by_viewer : Bool
  pub details : Option AccountDetails
  pub avatar_url : Option String
  pub cover_url : Option String

-- `UserDirectory.details_of` (app/repositories/user_directory.py): its answer, or
-- UserDirectoryUnavailableError.
pub data Lookup : Type 0 where
  unavailable : Lookup
  answered : Option AccountDetails → Lookup

pub record UserDirectory : Type 0 where
  pub details_of : ℕ → Lookup

abbrev pub profile_not_found : ProblemError
profile_not_found = record {
  status = 404;
  code = "user-not-found";
  title = "No se pudo obtener el perfil";
  detail = "La cuenta no existe";
  retry_after = none;
}

abbrev pub profile_unavailable : ProblemError
profile_unavailable = record {
  status = 503;
  code = "profile-unavailable";
  title = "No se pudo obtener el perfil";
  detail = "No se pudo comprobar la cuenta. Intentalo de nuevo.";
  retry_after = none;
}

abbrev pub account_is_private : ProblemError
account_is_private = record {
  status = 403;
  code = "account-is-private";
  title = "No se pudieron obtener las publicaciones";
  detail = "Esta cuenta es protegida y no la seguís";
  retry_after = none;
}

unfoldable pub blocked_between : ℕ → ℕ → Action Db Bool
blocked_between user viewer = do
  by_user ← has_blocked user viewer
  by_viewer ← has_blocked viewer user
  pure (by_user || by_viewer)

-- The end of `_visible_target`: an account that the graph does not have, with what users-api says.
unfoldable pub copy_account : ℕ → Lookup → Action Db (UserProfile × Option AccountDetails)
copy_account user Lookup.unavailable = raise profile_unavailable
copy_account user (Lookup.answered none) = raise profile_not_found
copy_account user (Lookup.answered (some details)) = do
  created ← create_profile_if_missing user (some details.handle) details.profile_visibility
  target ← require created profile_not_found
  pure (target, some details)

-- The details of `profile_of`: those already fetched, or those of users-api, which may not answer.
unfoldable pub details_or : Option AccountDetails → Lookup → Action Db (Option AccountDetails)
details_or (some details) answer = pure (some details)
details_or none Lookup.unavailable = pure none
details_or none (Lookup.answered none) = raise profile_not_found
details_or none (Lookup.answered (some details)) = pure (some details)

module _ (directory : UserDirectory) where
  unfoldable pub or_copy : ℕ → Option UserProfile → Action Db (UserProfile × Option AccountDetails)
  or_copy user (some target) = pure (target, none)
  or_copy user none = do
    deleted ← profile_is_deleted user
    raise_if deleted profile_not_found
    copy_account user (directory.details_of user)

  unfoldable pub visible_target : ℕ → Account → Action Db (UserProfile × Option AccountDetails)
  visible_target user viewer = do
    ensure_profile viewer
    blocked ← blocked_between user viewer.id
    raise_if blocked profile_not_found
    target ← find_profile user
    or_copy user target

  -- `profile_of`, with `signed_url_or_none`.
  unfoldable pub profile_of : (Option String → Option String) → ℕ → Account → Action Db Profile
  profile_of signed_url user viewer = do
    found ← visible_target user viewer
    details ← details_or found.1 (directory.details_of user)
    followed ← is_following viewer.id user
    muted ← is_muted viewer.id user
    pure (record {
      id = found.0.id;
      handle = found.0.handle;
      is_private = is_protected found.0.visibility;
      followers_count = found.0.followers_count;
      following_count = found.0.following_count;
      followed_by_viewer = followed;
      muted_by_viewer = muted;
      details = details;
      avatar_url = signed_url found.0.avatar_key;
      cover_url = signed_url found.0.cover_key;
    })

  -- `posts_of`; the images are attached after the read.
  unfoldable pub posts_of :
      ℕ → Account → Option FeedCursor → Action Db (List ActivityItem × Option FeedCursor)
  posts_of user viewer cursor = do
    found ← visible_target user viewer
    following ← is_following viewer.id user
    raise_if (is_protected found.0.visibility && (not (viewer.id == user) && not following))
        account_is_private
    gets (by_author user viewer.id cursor default_page_size)
