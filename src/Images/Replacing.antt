-- ===== src/Images/Replacing.antt =====
-- A replacement of a photo or cover that fails leaves no file behind, but for one that the storage
-- fails to delete, or leaves as its put fails.
use udesa_x_posts_api.Common.{
  List, [], ◌∷◌, ℕ, String, ◌<>◌, ◌≡◌, refl, Option, none, some, Bool, true, false, ◌⊎◌, inl, inr,
  Bool-cases, Option-cases,
}
use udesa_x_posts_api.Common.Action.{
  ProblemError, Result, ok, problem, crash, Action, require, raise_if, continue, ◌>>=◌,
}
use udesa_x_posts_api.Models.{Account}
use udesa_x_posts_api.RateLimiter.{Session, on_db}
use udesa_x_posts_api.Images.{
  Bytes, IncomingImage, header, detect_format, image_format_not_supported, profile_title,
}
use udesa_x_posts_api.Images.ProfileImages.{
  ImageStorage, ImageColumn, lock_key, set_key, ProfileImageChange, put_file, sign, discard,
  or_discard, point_at, upload, replace,
}

-- What the service relies on: a put brings no file but its own, also where it fails, and a deletion
-- brings none, and takes its file away where it does not fail.
pub record IsStorage (S : ImageStorage) : Type 0 where
  pub has : String → S.State → Bool
  pub put_only :
      (key i : String) (b : Bytes) (mime : String) (s : S.State)
      → has i (S.put key b mime s).1 ≡ true
      → (i ≡ key) ⊎ (has i s ≡ true)
  pub deletes :
      (key : String) (s : S.State) → (S.delete key s).0 ≡ true → has key (S.delete key s).1 ≡ false
  pub delete_only :
      (key i : String) (s : S.State) → has i (S.delete key s).1 ≡ true → has i s ≡ true

impossible : {A : Type 0} {b : Bool} → b ≡ true → b ≡ false → A
impossible h k = cc

or_before : {A B C : Type 0} → A ⊎ B → (B → C) → A ⊎ C
or_before (inl a) f = inl a
or_before (inr b) f = inr (f b)

-- Deletions in turn, whether they fail or not.
abbrev pub delete_all : (S : ImageStorage) → List String → S.State → S.State
delete_all S [] files = files
delete_all S (key ∷ keys) files = delete_all S keys (S.delete key files).1

-- A file that the storage left there: its deletion was tried and failed, or its put failed half way;
-- with what was deleted after that.
pub data IsLoose (S : ImageStorage) (key : String) (files : S.State) : Type 0 where
  undeleted :
      (at_deletion : S.State) (rest : List String)
      → (S.delete key at_deletion).0 ≡ false
      → files ≡ delete_all S rest (S.delete key at_deletion).1
      → IsLoose S key files
  half_put :
      (at_put : S.State) (b : Bytes) (mime : String) (rest : List String)
      → (S.put key b mime at_put).0 ≡ false
      → files ≡ delete_all S rest (S.put key b mime at_put).1
      → IsLoose S key files

module _ (S : ImageStorage) (law : IsStorage S) (before : S.State) where
  -- Every file that is there was there before.
  abbrev pub HasNothingNew : S.State → Type 0
  HasNothingNew s = (i : String) → law.has i s ≡ true → law.has i before ≡ true

  -- Every file that is there was there before, or is one that the storage left.
  abbrev pub HasLoose : S.State → Type 0
  HasLoose s = (i : String) → law.has i s ≡ true → (law.has i before ≡ true) ⊎ IsLoose S i s

  -- The call returned, or it left no new file but those that the storage left.
  abbrev pub IsClean : {A : Type 0} → Result A × Session S.State → Type 0
  IsClean {A = A} (r, s) = ((a : A) × (r ≡ ok a)) ⊎ HasLoose s.marks

  pub none_loose : (s : S.State) → HasNothingNew s → HasLoose s
  none_loose s h i there = inl (h i there)

  IsClean-then :
      {A B : Type 0} (r : Result A) (s : Session S.State) (f : A → Action (Session S.State) B)
      → HasNothingNew s.marks
      → ((a : A) (t : Session S.State) → HasNothingNew t.marks → IsClean (f a t))
      → IsClean (continue r f s)
  unfolding continue
  IsClean-then (ok a) s f h rest = rest a s h
  IsClean-then (problem e) s f h rest = inr (none_loose s.marks h)
  IsClean-then crash s f h rest = inr (none_loose s.marks h)

  taken_away :
      (key : String) (s : S.State)
      → ((i : String) → law.has i s ≡ true → (i ≡ key) ⊎ (law.has i before ≡ true))
      → HasLoose (S.delete key s).1
  taken_away key s h i there = elim (h i (law.delete_only key i s there)) [
    | inr old ↦ inl old
    | inl new ↦ elim (Bool-cases (S.delete key s).0) [
      | inl deleted ↦ impossible (rw new at there) (law.deletes key s deleted)
      | inr fails ↦ inr (undeleted s [] (rw new fails) (rw new refl))
    ]
  ]

  pub IsClean-bind :
      {A B : Type 0} (m : Action (Session S.State) A) (f : A → Action (Session S.State) B)
      (s : Session S.State)
      → HasNothingNew (m s).1.marks
      → ((a : A) (t : Session S.State) → HasNothingNew t.marks → IsClean (f a t))
      → IsClean ((m >>= f) s)
  unfolding ◌>>=◌
  IsClean-bind m f s h rest = IsClean-then (m s).0 (m s).1 f h rest

  required :
      {A : Type 0} (o : Option A) (e : ProblemError) (s : Session S.State)
      → HasNothingNew s.marks
      → HasNothingNew (require o e s).1.marks
  unfolding require
  required none e s h = h
  required (some a) e s h = h

  discarded :
      (key : String) (r : Result ProfileImageChange) (s : Session S.State)
      → ((i : String) → law.has i s.marks ≡ true → (i ≡ key) ⊎ (law.has i before ≡ true))
      → IsClean (or_discard S key (r, s))
  unfolding or_discard discard
  discarded key (ok a) s h = inl (a, refl)
  discarded key (problem e) s h = inr (λ i there. taken_away key s.marks h i there)
  discarded key crash s h = inr (λ i there. taken_away key s.marks h i there)

  point_at-marks :
      (user : ℕ) (column : ImageColumn) (key : String) (s : Session S.State)
      → (point_at S user column key s).1.marks ≡ s.marks
  unfolding point_at on_db lock_key set_key sign require ◌>>=◌
  point_at-marks user column key s = elim (Option-cases (S.url_for key s.marks)) [
    | inl fails ↦ rw fails refl
    | inr (url, works) ↦ rw works refl
  ]

  upload-IsClean :
      (user : ℕ) (column : ImageColumn) (key : String) (b : Bytes) (mime : String)
      (s : Session S.State)
      → HasNothingNew s.marks
      → IsClean (upload S user column key b mime s)
  unfolding upload put_file ◌>>=◌
  upload-IsClean user column key b mime s h = elim (Bool-cases (S.put key b mime s.marks).0) [
    | inr fails ↦ rw fails (
        inr (λ i there. elim (law.put_only key i b mime s.marks there) [
          | inr old ↦ inl (h i old)
          | inl new ↦ inr (half_put s.marks b mime [] (rw new fails) (rw new refl))
        ]))
    | inl stored ↦
        let t : Session S.State = record s { marks = (S.put key b mime s.marks).1 } in
        let pointed = point_at S user column key t in
        rw stored (
          discarded key pointed.0 pointed.1 (λ i there.
            or_before
              (law.put_only key i b mime s.marks (rw (point_at-marks user column key t) at there))
              (h i)))
  ]

  -- A replacement of a photo or cover returns, or leaves no file that was not there before, unless the
  -- storage failed to delete that file as it was told to, or left it there as its put failed: also where the file is too large or of another
  -- format, where the put or the profile fails, and where the new file cannot be signed.
  pub replace-IsClean :
      (key_for : String) (owner : Account) (column : ImageColumn) (image : IncomingImage)
      (s : Session S.State)
      → HasNothingNew s.marks
      → IsClean (replace S key_for owner column image s)
  unfolding replace on_db raise_if
  replace-IsClean key_for owner column image s h = IsClean-bind _ _ s h (λ _ t k.
      IsClean-bind _ _ t
        (required (detect_format (header image)) (image_format_not_supported profile_title) t k)
        (λ found u l. IsClean-bind _ _ u l (λ _ v m.
          upload-IsClean owner.id column (key_for <> "." <> found.extension) image.file.bytes
            found.mime_type v m)))
