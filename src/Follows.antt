-- ===== src/Follows.antt =====
-- FollowRepository (app/repositories/follows.py): the profiles and the follows.
pub mod Service
pub mod Outcomes
pub mod Limits
pub mod Charging
use text.Mathlib.Text.{◌==◌ as str_eq}
use udesa_x_posts_api.Common.{
  ℕ, String, Option, none, some, is_some, Bool, true, false, ◌&&◌, ◌||◌, not, List, ◌∷◌, ◌==◌,
  if◌then◌else◌,
}
use udesa_x_posts_api.Common.Int.{ℤ, pos, ◌+ℤ◌}
use udesa_x_posts_api.Common.Rows.{exists, find, update, delete}
use udesa_x_posts_api.Common.Action.{
  when◌run◌otherwise◌, Action, Result, ok, pure, gets, expect, modify, crash_if, ◌>>=◌, ◌>>◌,
}
use udesa_x_posts_api.Models.{ProfileVisibility, Account, UserProfile}
use udesa_x_posts_api.Models.Equality.{same_visibility}
use udesa_x_posts_api.Database.{Db, UserProfileRow, FollowRow, Tick}

abbrev pub profile_id : ℕ → UserProfileRow → Bool
profile_id u r = r.id == u

abbrev pub pair_of : ℕ → ℕ → FollowRow → Bool
pair_of a b r = r.follower_id == a && r.followee_id == b

abbrev pub has_handle : Option String → UserProfileRow → Bool
has_handle none r = false
has_handle (some h) r = elim r.handle [ none ↦ false | some k ↦ str_eq k h ]

-- The foreign keys to `user_profiles`.
abbrev pub profile_exists : ℕ → Db → Bool
profile_exists u d = exists (profile_id u) d.profiles

unfoldable pub to_profile : UserProfileRow → UserProfile
to_profile r = record {
  id = r.id;
  handle = r.handle;
  visibility = r.visibility;
  followers_count = r.followers_count;
  following_count = r.following_count;
  avatar_key = r.avatar_key;
  cover_key = r.cover_key;
}

-- A closed account is answered like one that never existed.
unfoldable pub live_profile : Option UserProfileRow → Option UserProfile
live_profile none = none
live_profile (some r) = if is_some r.deleted_at then none else some (to_profile r)

unfoldable pub find_profile : ℕ → Action Db (Option UserProfile)
find_profile u = gets (λ d. live_profile (find (profile_id u) d.profiles))

unfoldable pub closed_profile : Option UserProfileRow → Bool
closed_profile none = false
closed_profile (some r) = is_some r.deleted_at

unfoldable pub profile_is_deleted : ℕ → Action Db Bool
profile_is_deleted u = gets (λ d. closed_profile (find (profile_id u) d.profiles))

abbrev pub or_public : Option ProfileVisibility → ProfileVisibility
or_public none = ProfileVisibility.public
or_public (some v) = v

abbrev pub new_profile : ℕ → Option String → ProfileVisibility → UserProfileRow
new_profile u handle visibility = record {
  id = u;
  handle = handle;
  visibility = visibility;
  followers_count = pos 0;
  following_count = pos 0;
  deleted_at = none;
  avatar_key = none;
  cover_key = none;
}

-- `INSERT … ON CONFLICT (id) DO NOTHING`; a handle that another row holds is refused.
unfoldable pub insert_profile : UserProfileRow → Action Db (Unit {0})
insert_profile r = do
  there ← gets (profile_exists r.id)
  when there run pure tt otherwise do
    taken ← gets (λ d. exists (has_handle r.handle) d.profiles)
    crash_if taken
    modify (λ d. record d { profiles = r ∷ d.profiles })

-- What `ensure_profile` writes back: a handle that was missing, and the token's visibility.
abbrev pub fills_handle : Account → UserProfileRow → Bool
fills_handle account r = not (is_some r.handle) && is_some account.handle

abbrev pub fresh_handle : Account → UserProfileRow → Option String
fresh_handle account r = if fills_handle account r then account.handle else r.handle

abbrev pub fresh_visibility : Option ProfileVisibility → ProfileVisibility → ProfileVisibility
fresh_visibility none stored = stored
fresh_visibility (some v) stored = if same_visibility stored v then stored else v

abbrev pub refresh : Account → UserProfileRow → UserProfileRow
refresh account r = record r {
  handle = fresh_handle account r;
  visibility = fresh_visibility account.profile_visibility r.visibility;
}

-- `session.get` after the insert; a row that is not there would be an AttributeError.
unfoldable pub get_profile : ℕ → Action Db UserProfileRow
get_profile u = do r ← gets (λ d. find (profile_id u) d.profiles); expect r

unfoldable pub ensure_profile : Account → Action Db UserProfile
ensure_profile account = do
  insert_profile (new_profile account.id account.handle (or_public account.profile_visibility))
  row ← get_profile account.id
  taken ← gets (λ d. fills_handle account row && exists (has_handle account.handle) d.profiles)
  crash_if taken
  modify (λ d. record d { profiles = update (profile_id account.id) (refresh account) d.profiles })
  pure (to_profile (refresh account row))

-- `create_profile_if_missing`, for an account whose visibility is known.
unfoldable pub create_profile_if_missing :
    ℕ → Option String → ProfileVisibility → Action Db (Option UserProfile)
create_profile_if_missing u handle visibility = do
  insert_profile (new_profile u handle visibility)
  find_profile u

unfoldable pub is_following : ℕ → ℕ → Action Db Bool
is_following a b = gets (λ d. exists (pair_of a b) d.follows)

-- The primary key, `ck_follows_not_self` and the two foreign keys of `follows`.
unfoldable pub refuses_follow : ℕ → ℕ → Db → Bool
refuses_follow a b d =
    a == b || exists (pair_of a b) d.follows || not (profile_exists a d) || not (profile_exists b d)

unfoldable pub add_follow : Tick → ℕ → ℕ → Action Db (Unit {0})
add_follow t a b = do
  refused ← gets (refuses_follow a b)
  crash_if refused
  modify (λ d. record d {
    follows = (record { follower_id = a; followee_id = b; created_at = t.now }) ∷ d.follows;
  })

-- The deletion, and whether its `rowcount` is above zero.
unfoldable pub remove_follow : ℕ → ℕ → Action Db Bool
remove_follow a b d =
    (ok (exists (pair_of a b) d.follows), record d { follows = delete (pair_of a b) d.follows })

abbrev pub move_followers : ℤ → UserProfileRow → UserProfileRow
move_followers by r = record r { followers_count = r.followers_count +ℤ by }

abbrev pub move_following : ℤ → UserProfileRow → UserProfileRow
move_following by r = record r { following_count = r.following_count +ℤ by }

-- Two UPDATE statements, the followee's first.
unfoldable pub move_counters : ℕ → ℕ → ℤ → Action Db (Unit {0})
move_counters a b by =
    modify (λ d. record d { profiles = update (profile_id b) (move_followers by) d.profiles })
    >> modify (λ d. record d { profiles = update (profile_id a) (move_following by) d.profiles })
