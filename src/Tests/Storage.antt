-- ===== src/Tests/Storage.antt =====
-- A storage that holds files by key and can sign none, and one that can and keeps their bytes.
use text.Mathlib.Text.{◌==◌ as str_eq}
use text.Mathlib.TextEquality.{eq_iff}
use text.Mathlib.TextPositions.{eq_refl}
use udesa_x_posts_api.Common.{
  String, ◌≡◌, refl, Option, none, some, Bool, true, false, List, [], ◌∷◌, inl, inr, Bool-cases,
  if◌then◌else◌,
}
use udesa_x_posts_api.Pagination.Lists.{never}
use udesa_x_posts_api.RateLimiter.{Session}
use udesa_x_posts_api.Common.Action.{ok}
use udesa_x_posts_api.Database.{PostLanguage}
use udesa_x_posts_api.Images.{Bytes, IncomingImage, jpeg}
use udesa_x_posts_api.Images.PostImages.{Fresh, Upload, save, images_shown, create_with_images}
use udesa_x_posts_api.Images.Saving.{create_with_images-IsClean}
use udesa_x_posts_api.Images.Publishing.{Works, images_of, AreStored, save-shown}
use udesa_x_posts_api.Images.ProfileImages.{ImageStorage, ImageColumn, replace}
use udesa_x_posts_api.Images.Replacing.{IsStorage, IsClean, replace-IsClean}
use udesa_x_posts_api.Tests.{at, ana, acquainted}

abbrev shelf : ImageStorage
shelf = record {
  State = String → Bool;
  put = λ key bytes mime files. (true, λ i. if str_eq i key then true else files i);
  delete = λ key files. (true, λ i. if str_eq i key then false else files i);
  url_for = λ key files. none;
}

abbrev shelf_law : IsStorage shelf
shelf_law = record {
  has = λ i files. files i;
  put_only = λ key i b mime files h. elim (Bool-cases (str_eq i key)) [
    | inl same ↦ inl ((eq_iff i key).0 same)
    | inr other ↦ inr (rw other at h)
  ];
  deletes = λ key files h. rw (eq_refl key) refl;
  delete_only = λ key i files h. elim (Bool-cases (str_eq i key)) [
    | inl same ↦ cc
    | inr other ↦ rw other at h
  ];
}

abbrev session : Session (String → Bool)
session = record { db = acquainted; marks = λ i. false }

abbrev photo : IncomingImage
photo = record { file = record { bytes = 0xFF ∷ 0xD8 ∷ 0xFF ∷ []; closed = false }; size = 3 }

-- The URL cannot be signed, and the photo is gone again.
replace-IsClean_example :
    IsClean shelf shelf_law
      (λ i. false)
      (replace shelf "profiles/1/avatar/7" ana ImageColumn.avatar_key photo session)
replace-IsClean_example =
    replace-IsClean shelf shelf_law (λ i. false) "profiles/1/avatar/7" ana ImageColumn.avatar_key
      photo session (λ i h. h)

abbrev photos : List (IncomingImage × Fresh)
photos =
    (photo, record { name = "posts/9/a"; id = 31 })
    ∷ (photo, record { name = "posts/9/b"; id = 32 })
    ∷ []

-- The storage signs no file, and both are gone again.
create_with_images-IsClean_example :
    IsClean shelf shelf_law
      (λ i. false)
      (create_with_images shelf (λ text. PostLanguage.other) (at 9) ana [] photos session)
create_with_images-IsClean_example =
    create_with_images-IsClean shelf shelf_law (λ i. false) (λ text. PostLanguage.other) (at 9) ana
      [] photos session (λ i h. h)

abbrev uploads : List Upload
uploads =
    record { image = photo; kind = jpeg; fresh = record { name = "posts/7/a"; id = 31 } }
    ∷ record { image = photo; kind = jpeg; fresh = record { name = "posts/7/b"; id = 32 } }
    ∷ []

-- A storage of bytes, which signs each key with itself.
abbrev cabinet : ImageStorage
cabinet = record {
  State = String → Option Bytes;
  put = λ key bytes mime files. (true, λ i. if str_eq i key then some bytes else files i);
  delete = λ key files. (true, λ i. if str_eq i key then none else files i);
  url_for = λ key files. some key;
}

cabinet-Works : Works cabinet
cabinet-Works = record {
  file = λ key files. files key;
  puts = λ key b mime s. refl;
  stores = λ key b mime s. rw (eq_refl key) refl;
  keeps = λ key i b mime s other. elim (Bool-cases (str_eq i key)) [
    | inl same ↦ never (other ((eq_iff i key).0 same))
    | inr apart ↦ rw apart refl
  ];
  url = λ key s. key;
  signs = λ key s. refl;
}

two_keys : ◌≡◌ {A = String} "posts/7/a.jpg" "posts/7/b.jpg" → ⊥
two_keys same = cc ((eq_iff "posts/7/a.jpg" "posts/7/b.jpg").1 same)

abbrev opened : Session (String → Option Bytes)
opened = record { db = acquainted; marks = λ i. none }

save-shown_example :
    (s' : Session (String → Option Bytes)) × (save cabinet 9 7 uploads opened
      ≡ (ok (images_of cabinet cabinet-Works s'.marks 0 uploads), s'))
    × (images_shown cabinet false 7 s'
        ≡ (ok (images_of cabinet cabinet-Works s'.marks 0 uploads), s'))
    × AreStored cabinet cabinet-Works s'.marks uploads
save-shown_example =
    save-shown cabinet cabinet-Works 9 7 uploads opened ((two_keys, tt), (tt, tt)) refl refl
