-- ===== src/Images/Uploading.antt =====
-- The files that the uploads of a post leave, and those that stay after they are discarded
-- (app/services/post_images.py).
use udesa_x_posts_api.Common.{
  ℕ, String, ◌≡◌, refl, ◌∙◌, ap, true, false, ◌⊎◌, inl, inr, List, [], ◌∷◌, ◌++◌, map, Bool-cases,
  Option-cases,
}
use mathlib.Core.Path.{subst}
use udesa_x_posts_api.Common.Rows.{exists}
use udesa_x_posts_api.Common.Action.{
  Result, ok, problem, crash, pure, gets, modify, crash_if, require, continue, ◌>>=◌,
}
use udesa_x_posts_api.Pagination.Lists.{never}
use udesa_x_posts_api.RateLimiter.{Session, on_db}
use udesa_x_posts_api.Images.{Bytes}
use udesa_x_posts_api.Images.ProfileImages.{ImageStorage, put_file, sign, discard}
use udesa_x_posts_api.Images.Replacing.{IsStorage, delete_all, IsLoose, undeleted}
use udesa_x_posts_api.Images.PostMedia.{
  NewMedia, StoredMedia, media_rows, refuses_media, stored_media, add_media,
}
use udesa_x_posts_api.Images.PostImages.{
  Upload, key_of, upload_all, present, discard_all, record_media,
}

-- A key is one of some keys.
abbrev pub In : String → List String → Type 0
In i [] = ⊥
In i (key ∷ keys) = (i ≡ key) ⊎ In i keys

-- A file that was put is the one of the key, or one of those put after it, or it was there.
among :
    {P Q : Type 0} (i key : String) (keys : List String)
    → In i keys ⊎ P
    → (P → (i ≡ key) ⊎ Q)
    → In i (key ∷ keys) ⊎ Q
among i key keys (inl k) f = inl (inr k)
among i key keys (inr h) f = elim (f h) [ inl same ↦ inl (inl same) | inr old ↦ inr old ]

-- A file that was put, or something that stays so.
or_put : {P Q H E : Type 0} → H ⊎ P → (P → E ⊎ Q) → E ⊎ (H ⊎ Q)
or_put (inl half) f = inr (inl half)
or_put (inr p) f = elim (f p) [ inl same ↦ inl same | inr q ↦ inr (inr q) ]

pub or_else : {H P Q : Type 0} → H ⊎ P → (P → Q) → H ⊎ Q
or_else (inl half) f = inl half
or_else (inr p) f = inr (f p)

pub after_before : {A B C : Type 0} → A ⊎ B → (B → C) → A ⊎ C
after_before (inl a) f = inl a
after_before (inr b) f = inr (f b)

kept :
    {M A B : Type 0} (r : Result A) (f : A → B) (s : Session M)
    → (continue r (λ a. pure (f a)) s).1 ≡ s
unfolding continue pure
kept (ok a) f s = refl
kept (problem e) f s = refl
kept crash f s = refl

module _ (S : ImageStorage) where
  -- Signing reads only.
  pub present-state : (rows : List StoredMedia) (s : Session S.State) → (present S rows s).1 ≡ s
  unfolding present sign require ◌>>=◌
  present-state [] s = refl
  present-state (r ∷ rows) s = elim (Option-cases (S.url_for r.key s.marks)) [
    | inl fails ↦ rw fails refl
    | inr (url, works) ↦ rw works (
        kept (present S rows s).0
          (λ images. record { id = r.id; url = url; position = r.position } ∷ images)
          (present S rows s).1
        ∙ present-state rows s)
  ]

  pub record_media-marks :
      (now post : ℕ) (media : List NewMedia) (s : Session S.State)
      → (record_media S now post media s).1.marks ≡ s.marks
  unfolding record_media add_media on_db gets crash_if modify pure ◌>>=◌
  record_media-marks now post media s =
      elim (Bool-cases (exists (refuses_media s.db) (media_rows now post 0 media))) [
        | inl refused ↦ rw refused refl
        | inr fits ↦ rw fits (
            ap (λ t. t.marks)
              (present-state (map stored_media (media_rows now post 0 media)) (record s {
                db = record s.db { media = media_rows now post 0 media ++ s.db.media };
              })))
      ]

  -- A put of the file failed, and nothing was done to the storage since.
  abbrev pub IsHalf : String → S.State → Type 0
  IsHalf i files =
      (t : S.State) × (b : Bytes) × (mime : String) × ((S.put i b mime t).0 ≡ false)
      × (files ≡ (S.put i b mime t).1)

  module _ (law : IsStorage S) where
    pub upload_all-only :
        (uploads : List Upload) (s : Session S.State) (i : String)
        → law.has i (upload_all S uploads s).1.marks ≡ true
        → In i (upload_all S uploads s).0.1
          ⊎ (IsHalf i (upload_all S uploads s).1.marks ⊎ (law.has i s.marks ≡ true))
    unfolding upload_all put_file
    upload_all-only [] s i there = inr (inr there)
    upload_all-only (u ∷ uploads) s i there =
        let bytes = u.image.file.bytes in
        let mime = u.kind.mime_type in
        let t : Session S.State = record s { marks = (S.put (key_of u) bytes mime s.marks).1 } in
        elim (Bool-cases (S.put (key_of u) bytes mime s.marks).0) [
          | inr fails ↦
              rw fails (elim (law.put_only (key_of u) i bytes mime s.marks (rw fails at there)) [
                | inr old ↦ inr (inr old)
                | inl new ↦ inr (inl (s.marks, bytes, mime, (rw new fails), (rw new refl)))
              ])
          | inl stored ↦ rw stored (
              among i (key_of u) (upload_all S uploads t).0.1
                (upload_all-only uploads t i (rw stored at there))
                (λ p. or_put p (law.put_only (key_of u) i bytes mime s.marks)))
        ]

    pub discard_all-only :
        (keys : List String) (s : Session S.State) (i : String)
        → law.has i (discard_all S keys s).marks ≡ true
        → law.has i s.marks ≡ true
    unfolding discard_all discard
    discard_all-only [] s i there = there
    discard_all-only (key ∷ keys) s i there =
        law.delete_only key i s.marks
          (discard_all-only keys (record s { marks = (S.delete key s.marks).1 }) i there)

    pub discard_all-marks :
        (keys : List String) (s : Session S.State)
        → (discard_all S keys s).marks ≡ delete_all S keys s.marks
    unfolding discard_all discard
    discard_all-marks [] s = refl
    discard_all-marks (key ∷ keys) s =
        discard_all-marks keys (record s { marks = (S.delete key s.marks).1 })

    -- A file that is still there is one whose deletion failed.
    pub discard_all-IsLoose :
        (keys : List String) (s : Session S.State) (i : String)
        → In i keys
        → law.has i (discard_all S keys s).marks ≡ true
        → IsLoose S i (discard_all S keys s).marks
    unfolding discard_all discard
    discard_all-IsLoose [] s i k there = never k
    discard_all-IsLoose (key ∷ keys) s i (inr k) there =
        discard_all-IsLoose keys (record s { marks = (S.delete key s.marks).1 }) i k there
    discard_all-IsLoose (key ∷ keys) s i (inl same) there =
        let t : Session S.State = record s { marks = (S.delete key s.marks).1 } in
        let still : law.has key (S.delete key s.marks).1 ≡ true =
          subst (λ j. law.has j (S.delete key s.marks).1 ≡ true) same
            (discard_all-only keys t i there) in
        elim (Bool-cases (S.delete key s.marks).0) [
          | inl deleted ↦ cc (still, law.deletes key s.marks deleted)
          | inr fails ↦ undeleted s.marks keys (rw same fails) (rw same (discard_all-marks keys t))
        ]
