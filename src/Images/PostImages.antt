-- ===== src/Images/PostImages.antt =====
-- The images of posts: app/services/post_images.py, and the images
-- of `PostService.create` (app/services/posts.py). The texts of the keys and the identifiers of the
-- rows, which Python and the database make up, come with each image.
use udesa_x_posts_api.Common.{
  ℕ, String, ◌<>◌, Option, none, some, Bool, true, false, ◌&&◌, List, [], ◌∷◌, ltb, if◌then◌else◌,
  length,
}
use udesa_x_posts_api.Common.Action.{
  Result, ok, problem, crash, Action, pure, gets, raise_if, continue, ◌>>=◌, ◌>>◌,
}
use udesa_x_posts_api.Models.{Account, Post, PostWithAuthor}
use udesa_x_posts_api.Database.{PostLanguage, Tick}
use udesa_x_posts_api.Follows.{ensure_profile}
use udesa_x_posts_api.Posts.{create_post}
use udesa_x_posts_api.Posts.Content.{sanitize}
use udesa_x_posts_api.Posts.Service.{is_blank, max_content_length, post_is_blank, post_too_long}
use udesa_x_posts_api.RateLimiter.{Session, on_db}
use udesa_x_posts_api.Images.{
  IncomingImage, ImageFormat, header, detect_format, max_images, max_image_bytes, too_many_images,
  image_too_large, image_format_not_supported, post_image_detail, post_title,
}
use udesa_x_posts_api.Images.PostMedia.{NewMedia, StoredMedia, add_media, media_of}
use udesa_x_posts_api.Images.ProfileImages.{ImageStorage, put_file, sign, discard}

-- `PostImage` (app/models/post.py).
pub record PostImage : Type 0 where
  pub id : ℕ
  pub url : String
  pub position : ℕ

-- What is made up for an image: the text of its key before the extension, and the id of its row.
pub record Fresh : Type 0 where
  pub name : String
  pub id : ℕ

-- An image with its format: one round of the loop of `save`.
pub record Upload : Type 0 where
  pub image : IncomingImage
  pub kind : ImageFormat
  pub fresh : Fresh

abbrev pub key_of : Upload → String
key_of u = u.fresh.name <> "." <> u.kind.extension

abbrev pub new_media : Upload → NewMedia
new_media u = record {
  id = u.fresh.id;
  key = key_of u;
  mime_type = u.kind.mime_type;
  size_bytes = u.image.size;
}

-- `PostService._formats_of`
abbrev pub format_of : Option ImageFormat → Result ImageFormat
format_of none = problem (image_format_not_supported post_title)
format_of (some kind) = ok kind

abbrev pub checked : IncomingImage → Result ImageFormat
checked image =
    if ltb max_image_bytes image.size
    then problem (image_too_large post_image_detail post_title)
    else format_of (detect_format (header image))

abbrev pub with_kind :
    IncomingImage → Fresh → Result ImageFormat → Result (List Upload) → Result (List Upload)
with_kind image fresh (problem e) rest = problem e
with_kind image fresh crash rest = crash
with_kind image fresh (ok kind) (ok uploads) =
    ok (record { image = image; kind = kind; fresh = fresh } ∷ uploads)
with_kind image fresh (ok kind) (problem e) = problem e
with_kind image fresh (ok kind) crash = crash

-- The loop, with what is made up for each image.
abbrev pub each_format : List (IncomingImage × Fresh) → Result (List Upload)
each_format [] = ok []
each_format (i ∷ images) = with_kind i.0 i.1 (checked i.0) (each_format images)

unfoldable pub formats_of : List (IncomingImage × Fresh) → Result (List Upload)
unfolding header detect_format
formats_of images =
    if ltb max_images (length images) then problem too_many_images else each_format images

-- A post as `attach` gives it.
pub record AttachedPost : Type 0 where
  pub post : PostWithAuthor
  pub author_avatar_url : Option String
  pub images : List PostImage

abbrev pub continue_media : Upload → Result (List NewMedia) → Result (List NewMedia)
continue_media u (ok media) = ok (new_media u ∷ media)
continue_media u (problem e) = problem e
continue_media u crash = crash

abbrev pub is_empty : List (IncomingImage × Fresh) → Bool
is_empty [] = true
is_empty (i ∷ images) = false

module _ (S : ImageStorage) where
  -- The uploads of `save`: the rows to write, or an error, and the keys that are up by then.
  abbrev pub uploaded :
      Upload
      → Result (Unit {0}) × Session S.State
      → (Session S.State → (Result (List NewMedia) × List String) × Session S.State)
      → (Result (List NewMedia) × List String) × Session S.State
  uploaded u (problem e, s) rest = ((problem e, []), s)
  uploaded u (crash, s) rest = ((crash, []), s)
  uploaded u (ok done, s) rest =
      let ((media, keys), s') = rest s in ((continue_media u media, key_of u ∷ keys), s')

  unfoldable pub upload_all :
      List Upload → Session S.State → (Result (List NewMedia) × List String) × Session S.State
  unfolding put_file
  upload_all [] s = ((ok [], []), s)
  upload_all (u ∷ uploads) s =
      uploaded u (put_file S (key_of u) u.image.file.bytes u.kind.mime_type s) (upload_all uploads)

  abbrev pub and_image :
      StoredMedia
      → Action (Session S.State) (List PostImage)
      → Action (Session S.State) (List PostImage)
  and_image r rest = do
    url ← sign S r.key
    images ← rest
    pure (record { id = r.id; url = url; position = r.position } ∷ images)

  -- `_present`
  unfoldable pub present : List StoredMedia → Action (Session S.State) (List PostImage)
  unfolding sign ◌>>=◌
  present [] = pure []
  present (r ∷ rows) = and_image r (present rows)

  -- `_discard`: a failure is passed over.
  unfoldable pub discard_all : List String → Session S.State → Session S.State
  unfolding discard
  discard_all [] s = s
  discard_all (key ∷ keys) s = discard_all keys (discard S (some key) s)

  -- The `except` of `save`.
  unfoldable pub or_discard_all :
      {A : Type 0} → List String → Result A × Session S.State → Result A × Session S.State
  unfolding discard_all
  or_discard_all keys (ok a, s) = (ok a, s)
  or_discard_all keys (problem e, s) = (problem e, discard_all keys s)
  or_discard_all keys (crash, s) = (crash, discard_all keys s)

  -- The rest of the `try`, once the files are up.
  unfoldable pub record_media : ℕ → ℕ → List NewMedia → Action (Session S.State) (List PostImage)
  unfolding add_media
  record_media now post media = do stored ← on_db (add_media now post media); present stored

  unfoldable pub save : ℕ → ℕ → List Upload → Action (Session S.State) (List PostImage)
  unfolding upload_all or_discard_all record_media
  save now post uploads s =
      let ((media, keys), s') = upload_all uploads s in
      or_discard_all keys (continue media (record_media now post) s')

  abbrev pub images_shown : Bool → ℕ → Action (Session S.State) (List PostImage)
  images_shown true post = pure []
  images_shown false post = do rows ← on_db (gets (media_of post)); present rows

  -- `signed_url_or_none`
  abbrev pub avatar_url : Option String → S.State → Option String
  avatar_url none files = none
  avatar_url (some key) files = S.url_for key files

  abbrev pub attach_one : PostWithAuthor → Action (Session S.State) AttachedPost
  attach_one post = do
    images ← images_shown post.deleted post.id
    url ← gets (λ s. avatar_url post.author_avatar_key s.marks)
    pure (record { post = post; author_avatar_url = url; images = images })

  abbrev pub and_attached :
      Action (Session S.State) AttachedPost
      → Action (Session S.State) (List AttachedPost)
      → Action (Session S.State) (List AttachedPost)
  and_attached first rest = do a ← first; more ← rest; pure (a ∷ more)

  -- `attach`
  unfoldable pub attach : List PostWithAuthor → Action (Session S.State) (List AttachedPost)
  unfolding media_of present ◌>>=◌
  attach [] = pure []
  attach (post ∷ posts) = and_attached (attach_one post) (attach posts)

  abbrev pub save_if_any : ℕ → Post → List Upload → Action (Session S.State) (Post × List PostImage)
  save_if_any now post [] = pure (post, [])
  save_if_any now post (u ∷ uploads) = do
    images ← save now post.id (u ∷ uploads)
    pure (post, images)

  -- `PostService.create` of a post that is no reply, from the profile on. The language detector is an
  -- argument.
  unfoldable pub create_with_images :
      (List ℕ → PostLanguage)
      → Tick
      → Account
      → List ℕ
      → List (IncomingImage × Fresh)
      → Action (Session S.State) (Post × List PostImage)
  unfolding save formats_of
  create_with_images detect t author content images = do
    on_db (ensure_profile author)
    raise_if (is_blank (sanitize content) && is_empty images) post_is_blank
    raise_if (ltb max_content_length (length (sanitize content))) post_too_long
    uploads ← λ s. (formats_of images, s)
    post ← on_db (create_post t author.id (sanitize content) (detect (sanitize content)) none)
    save_if_any t.now post uploads
