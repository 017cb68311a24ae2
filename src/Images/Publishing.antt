-- ===== src/Images/Publishing.antt =====
-- A post published with images is shown with them (app/services/post_images.py).
use udesa_x_posts_api.Common.{
  ℕ, suc, String, Option, ◌≡◌, refl, sym, ap, ◌∙◌, some, true, false, List, [], ◌∷◌, ◌++◌, map,
}
use mathlib.Core.Path.{subst}
use udesa_x_posts_api.Common.Lists.{All}
use udesa_x_posts_api.Common.Rows.{count, exists}
use udesa_x_posts_api.Common.Action.{ok, pure, gets, modify, crash_if, require, continue, ◌>>=◌}
use udesa_x_posts_api.RateLimiter.{Session, on_db}
use udesa_x_posts_api.Images.{Bytes}
use udesa_x_posts_api.Images.ProfileImages.{ImageStorage, put_file, sign}
use udesa_x_posts_api.Images.Uploading.{record_media-marks}
use udesa_x_posts_api.Images.Attaching.{of_post, record_media-shown, ok_part}
use udesa_x_posts_api.Images.PostMedia.{media_rows, refuses_media, stored_media, add_media}
use udesa_x_posts_api.Images.PostImages.{
  PostImage, Upload, key_of, new_media, upload_all, present, or_discard_all, record_media, save,
  images_shown,
}

-- A storage that does what it is asked: a file that was put is there, and the others stay.
pub record Works (S : ImageStorage) : Type 0 where
  pub file : String → S.State → Option Bytes
  pub puts :
      (key : String) (b : Bytes) (mime : String) (s : S.State) → (S.put key b mime s).0 ≡ true
  pub stores :
      (key : String) (b : Bytes) (mime : String) (s : S.State)
      → file key (S.put key b mime s).1 ≡ some b
  pub keeps :
      (key i : String) (b : Bytes) (mime : String) (s : S.State)
      → (i ≡ key → ⊥)
      → file i (S.put key b mime s).1 ≡ file i s
  pub url : String → S.State → String
  pub signs : (key : String) (s : S.State) → S.url_for key s ≡ some (url key s)

-- A key that no upload has.
abbrev pub IsOther : String → List Upload → Type 0
IsOther key = All (λ u. key ≡ key_of u → ⊥)

-- Every upload has a key of its own.
abbrev pub HaveOwnKeys : List Upload → Type 0
HaveOwnKeys [] = Unit
HaveOwnKeys (u ∷ uploads) = IsOther (key_of u) uploads × HaveOwnKeys uploads

module _ (S : ImageStorage) (w : Works S) where
  -- The images of uploads, in their order, each signed under the key that its file has.
  abbrev pub images_of : S.State → ℕ → List Upload → List PostImage
  images_of files i [] = []
  images_of files i (u ∷ uploads) =
      record { id = u.fresh.id; url = w.url (key_of u) files; position = i }
      ∷ images_of files (suc i) uploads

  -- The file of each upload is there, with its bytes.
  abbrev pub AreStored : S.State → List Upload → Type 0
  AreStored files = All (λ u. w.file (key_of u) files ≡ some u.image.file.bytes)

  abbrev after_put : Upload → Session S.State → Session S.State
  after_put u s = record s {
    marks = (S.put (key_of u) u.image.file.bytes u.kind.mime_type s.marks).1;
  }

  upload_all-works :
      (uploads : List Upload) (s : Session S.State)
      → ((upload_all S uploads s).0.0 ≡ ok (map new_media uploads))
        × ((upload_all S uploads s).1.db ≡ s.db)
  unfolding upload_all put_file
  upload_all-works [] s = (refl, refl)
  upload_all-works (u ∷ uploads) s =
      let (media, same) = upload_all-works uploads (after_put u s) in
      rw (w.puts (key_of u) u.image.file.bytes u.kind.mime_type s.marks) (rw media refl, same)

  upload_all-none : (s : Session S.State) → (upload_all S [] s).1 ≡ s
  unfolding upload_all
  upload_all-none s = refl

  upload_all-put :
      (u : Upload) (uploads : List Upload) (s : Session S.State)
      → (upload_all S (u ∷ uploads) s).1 ≡ (upload_all S uploads (after_put u s)).1
  unfolding upload_all put_file
  upload_all-put u uploads s =
      rw (w.puts (key_of u) u.image.file.bytes u.kind.mime_type s.marks) refl

  upload_all-keeps :
      (key : String) (uploads : List Upload) (s : Session S.State)
      → IsOther key uploads
      → w.file key (upload_all S uploads s).1.marks ≡ w.file key s.marks
  upload_all-keeps key [] s h = ap (λ t. w.file key t.marks) (upload_all-none s)
  upload_all-keeps key (u ∷ uploads) s (other, h) =
      ap (λ t. w.file key t.marks) (upload_all-put u uploads s)
      ∙ (upload_all-keeps key uploads (after_put u s) h
          ∙ w.keeps (key_of u) key u.image.file.bytes u.kind.mime_type s.marks other)

  upload_all-stores :
      (uploads : List Upload) (s : Session S.State)
      → HaveOwnKeys uploads
      → AreStored (upload_all S uploads s).1.marks uploads
  upload_all-stores [] s h = tt
  upload_all-stores (u ∷ uploads) s (own, h) =
      subst (λ (t : Session S.State). AreStored t.marks (u ∷ uploads))
        (sym (upload_all-put u uploads s))
        (
          upload_all-keeps (key_of u) uploads (after_put u s) own
              ∙ w.stores (key_of u) u.image.file.bytes u.kind.mime_type s.marks,
          upload_all-stores uploads (after_put u s) h,
        )

  present-works :
      (now post i : ℕ) (uploads : List Upload) (s : Session S.State)
      → (present S (map stored_media (media_rows now post i (map new_media uploads))) s).0
        ≡ ok (images_of s.marks i uploads)
  unfolding present sign require pure continue ◌>>=◌
  present-works now post i [] s = refl
  present-works now post i (u ∷ uploads) s =
      rw (w.signs (key_of u) s.marks) (rw (present-works now post (suc i) uploads s) refl)

  record_media-works :
      (now post : ℕ) (uploads : List Upload) (t : Session S.State)
      → exists (refuses_media t.db) (media_rows now post 0 (map new_media uploads)) ≡ false
      → (record_media S now post (map new_media uploads) t).0 ≡ ok (images_of t.marks 0 uploads)
  unfolding record_media add_media on_db gets crash_if modify pure continue ◌>>=◌
  record_media-works now post uploads t fits =
      let media = map new_media uploads in
      rw fits (
        present-works now post 0 uploads
          (record t { db = record t.db { media = media_rows now post 0 media ++ t.db.media } }))

  -- With a storage that works, where no two images have the same key, and where the database has no
  -- images of the post yet and accepts the new rows, saving the images stores the bytes of each under
  -- its key and returns them in the order given, each with its identifier, its place and the URL of
  -- its own file, and the post is then shown with exactly those.
  pub save-shown :
      (now post : ℕ) (uploads : List Upload) (s : Session S.State)
      → HaveOwnKeys uploads
      → count (of_post post) s.db.media ≡ 0
      → exists (refuses_media s.db) (media_rows now post 0 (map new_media uploads)) ≡ false
      → (s' : Session S.State) × (save S now post uploads s
          ≡ (ok (images_of s'.marks 0 uploads), s'))
        × (images_shown S false post s' ≡ (ok (images_of s'.marks 0 uploads), s'))
        × AreStored s'.marks uploads
  unfolding save or_discard_all continue
  save-shown now post uploads s own none_yet fits =
      let up = upload_all S uploads s in
      let media = map new_media uploads in
      let (done, same) = upload_all-works uploads s in
      let s' = (record_media S now post media up.1).1 in
      let kept : s'.marks ≡ up.1.marks = record_media-marks S now post media up.1 in
      let stored : (record_media S now post media up.1).0 ≡ ok (images_of s'.marks 0 uploads) =
        rw kept (record_media-works now post uploads up.1 (rw same fits)) in
      let whole =
        ok_part (record_media S now post media up.1) (images_of s'.marks 0 uploads) stored in
      (
        s',
        (rw done (rw whole refl)),
        record_media-shown S now post media up.1 s' (images_of s'.marks 0 uploads)
            (rw same none_yet) whole,
        rw kept (upload_all-stores uploads s own),
      )
