-- ===== src/Images/ProfileImages.antt =====
-- The photo and the cover of a profile (app/services/profile_images.py and
-- app/repositories/profile_images.py). The storage (app/repositories/image_storage.py) is an
-- argument; its files are the part of the session that a rollback does not restore.
use udesa_x_posts_api.Common.{ℕ, String, ◌<>◌, Option, none, some, Bool, if◌then◌else◌, ltb}
use udesa_x_posts_api.Common.Rows.{find, update}
use udesa_x_posts_api.Common.Action.{
  ProblemError, Result, ok, problem, crash, Action, pure, gets, require, raise_if, modify, ◌>>=◌,
  ◌>>◌,
}
use udesa_x_posts_api.Models.{Account}
use udesa_x_posts_api.Database.{Db, UserProfileRow}
use udesa_x_posts_api.Follows.{profile_id, ensure_profile}
use udesa_x_posts_api.RateLimiter.{Session, on_db}
use udesa_x_posts_api.Images.{
  Bytes, IncomingImage, header, detect_format, image_too_large, image_format_not_supported,
  profile_title, ProfileImageKind, avatar, cover,
}

-- `ImageStorage`: each call is done, or raises ImageStorageError.
pub record ImageStorage : Type 1 where
  pub State : Type 0
  pub put : String → Bytes → String → State → Bool × State
  pub delete : String → State → Bool × State
  pub url_for : String → State → Option String

-- The columns of `_COLUMNS`, and the kind that each one is of.
pub data ImageColumn : Type 0 where
  avatar_key cover_key : ImageColumn

abbrev pub kind_of : ImageColumn → ProfileImageKind
kind_of ImageColumn.avatar_key = avatar
kind_of ImageColumn.cover_key = cover

abbrev pub column_of : ImageColumn → UserProfileRow → Option String
column_of ImageColumn.avatar_key r = r.avatar_key
column_of ImageColumn.cover_key r = r.cover_key

abbrev pub with_column : ImageColumn → Option String → UserProfileRow → UserProfileRow
with_column ImageColumn.avatar_key key r = record r { avatar_key = key }
with_column ImageColumn.cover_key key r = record r { cover_key = key }

abbrev pub key_in : ImageColumn → Option UserProfileRow → Option String
key_in column none = none
key_in column (some r) = column_of column r

-- `lock_key` and `set_key`; the lock is taken by the database.
unfoldable pub lock_key : ℕ → ImageColumn → Action Db (Option String)
lock_key user column = gets (λ d. key_in column (find (profile_id user) d.profiles))

unfoldable pub set_key : ℕ → ImageColumn → Option String → Action Db (Unit {0})
set_key user column key =
    modify
      (λ d. record d { profiles = update (profile_id user) (with_column column key) d.profiles })

abbrev pub images_unavailable : ProblemError
images_unavailable = record {
  status = 503;
  code = "images-unavailable";
  title = "No se pudieron procesar las imágenes";
  detail = "No pudimos guardar o leer las imágenes en este momento. Probá de nuevo más tarde.";
  retry_after = none;
}

-- `ProfileImageChange`
pub record ProfileImageChange : Type 0 where
  pub url : String
  pub previous_key : Option String

module _ (S : ImageStorage) where
  -- A call of the storage whose error becomes the 503.
  unfoldable pub put_file : String → Bytes → String → Action (Session S.State) (Unit {0})
  put_file key bytes mime s =
      let (done, files) = S.put key bytes mime s.marks in
      (if done then ok tt else problem images_unavailable, record s { marks = files })

  unfoldable pub sign : String → Action (Session S.State) String
  sign key s = require (S.url_for key s.marks) images_unavailable s

  -- `discard`: a failure is only logged.
  unfoldable pub discard : Option String → Session S.State → Session S.State
  discard none s = s
  discard (some key) s = record s { marks = (S.delete key s.marks).1 }

  -- The `except` of `replace`: the new file does not stay.
  unfoldable pub or_discard :
      {A : Type 0} → String → Result A × Session S.State → Result A × Session S.State
  unfolding discard
  or_discard key (ok a, s) = (ok a, s)
  or_discard key (problem e, s) = (problem e, discard (some key) s)
  or_discard key (crash, s) = (crash, discard (some key) s)

  -- The row, once the file is up.
  unfoldable pub point_at : ℕ → ImageColumn → String → Action (Session S.State) ProfileImageChange
  point_at user column key = do
    previous ← on_db (lock_key user column)
    on_db (set_key user column (some key))
    url ← sign key
    pure (record { url = url; previous_key = previous })

  unfoldable pub upload :
      ℕ → ImageColumn → String → Bytes → String → Action (Session S.State) ProfileImageChange
  upload user column key bytes mime = do
    put_file key bytes mime
    λ s. or_discard key (point_at user column key s)

  -- `replace`; `key_for` is the text of the key with a fresh identifier, before the extension.
  unfoldable pub replace :
      String → Account → ImageColumn → IncomingImage → Action (Session S.State) ProfileImageChange
  replace key_for owner column image = do
    raise_if (ltb (kind_of column).max_bytes image.size)
        (image_too_large (kind_of column).too_large_detail profile_title)
    found ← require (detect_format (header image)) (image_format_not_supported profile_title)
    on_db (ensure_profile owner)
    upload owner.id column (key_for <> "." <> found.extension) image.file.bytes found.mime_type

  unfoldable pub clear_if : ℕ → ImageColumn → Option String → Action (Session S.State) (Unit {0})
  clear_if user column none = pure tt
  clear_if user column (some key) = on_db (set_key user column none)

  -- `remove`: the key is left for `discard`, which runs after the commit.
  unfoldable pub remove : Account → ImageColumn → Action (Session S.State) (Option String)
  remove owner column = do
    previous ← on_db (lock_key owner.id column)
    clear_if owner.id column previous
    pure previous
