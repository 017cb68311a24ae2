-- ===== src/Images/Attaching.antt =====
-- The images that are saved with a post are the ones that it is shown with
-- (app/services/post_images.py and app/repositories/post_media.py).
use udesa_x_posts_api.Common.{
  ℕ, suc, ◌≡◌, refl, sym, ◌∙◌, ap, Bool, false, List, [], ◌∷◌, ◌++◌, map, ◌==◌, ltb, arith,
  Bool-cases, inl, inr, ==_refl,
}
use mathlib.Core.Path.{subst}
use mathlib.Core.List.{append-nil}
use udesa_x_posts_api.Common.Rows.{select, count, exists}
use udesa_x_posts_api.Common.Action.{Result, ok, crash, pure, gets, modify, crash_if, ◌>>=◌}
use udesa_x_posts_api.Database.{Db, MediaRow}
use udesa_x_posts_api.RateLimiter.{Session, on_db}
use udesa_x_posts_api.Listings.Followers.{select-none}
use udesa_x_posts_api.Images.ProfileImages.{ImageStorage}
use udesa_x_posts_api.Images.Uploading.{present-state}
use udesa_x_posts_api.Images.PostMedia.{
  NewMedia, media_rows, refuses_media, stored_media, add_media, by_position, media_of,
}
use udesa_x_posts_api.Images.PostImages.{PostImage, present, record_media, images_shown}

abbrev pub of_post : ℕ → MediaRow → Bool
of_post post r = r.post_id == post

select-append :
    {A : Type 0} (p : A → Bool) (xs ys : List A) → select p (xs ++ ys) ≡ select p xs ++ select p ys
select-append p [] ys = refl
select-append p (x ∷ xs) ys = elim (Bool-cases (p x)) [
  | inl keeps ↦ rw keeps (rw (select-append p xs ys) refl)
  | inr drops ↦ rw drops (select-append p xs ys)
]

module _ (now post : ℕ) where
  select-own :
      (i : ℕ) (media : List NewMedia)
      → select (of_post post) (media_rows now post i media) ≡ media_rows now post i media
  select-own i [] = refl
  select-own i (m ∷ media) = rw (==_refl post) (rw (select-own (suc i) media) refl)

  -- The rows of a post are in order as they are written.
  by_position-rows :
      (i : ℕ) (media : List NewMedia)
      → by_position (media_rows now post i media) ≡ media_rows now post i media
  unfolding by_position
  by_position-rows i [] = refl
  by_position-rows i (m ∷ []) = refl
  by_position-rows i (m ∷ n ∷ media) =
      rw (by_position-rows (suc i) (n ∷ media))
        (let later : ltb (suc i) i ≡ false = ground arith in rw later refl)

  -- What is read back is what was written.
  media_of-rows :
      (media : List NewMedia) (d : Db)
      → count (of_post post) d.media ≡ 0
      → media_of post (record d { media = media_rows now post 0 media ++ d.media })
        ≡ map stored_media (media_rows now post 0 media)
  unfolding media_of
  media_of-rows media d h =
      rw (select-append (of_post post) (media_rows now post 0 media) d.media) (
        rw (select-none (of_post post) d.media h) (
          rw (append-nil (select (of_post post) (media_rows now post 0 media)))
            (rw (select-own 0 media) (rw (by_position-rows 0 media) refl))))

pub ok_part : {A T : Type 0} (p : Result A × T) (a : A) → p.0 ≡ ok a → p ≡ (ok a, p.1)
ok_part (r, t) a h = rw h refl

crashed :
    {A T : Type 0} {B : Type 0} (t u : T) (a : A) → ◌≡◌ {A = Result A × T} (crash, t) (ok a, u) → B
crashed t u a h = cc

module _ (S : ImageStorage) where
  pub record_media-shown :
      (now post : ℕ) (media : List NewMedia) (t t' : Session S.State) (images : List PostImage)
      → count (of_post post) t.db.media ≡ 0
      → record_media S now post media t ≡ (ok images, t')
      → images_shown S false post t' ≡ (ok images, t')
  unfolding record_media add_media on_db gets crash_if modify pure ◌>>=◌
  record_media-shown now post media t t' images none_yet h =
      let rows = map stored_media (media_rows now post 0 media) in
      let u : Session S.State = record t {
        db = record t.db { media = media_rows now post 0 media ++ t.db.media };
      } in
      elim (Bool-cases (exists (refuses_media t.db) (media_rows now post 0 media))) [
        | inl refused ↦ crashed t t' images (rw refused at h)
        | inr fits ↦
            let shown : present S rows u ≡ (ok images, t') = rw fits at h in
            let same : u ≡ t' = sym (present-state S rows u) ∙ ap (λ x. x.1) shown in
            subst (λ x. images_shown S false post x ≡ (ok images, t')) same
              (rw (media_of-rows now post media t.db none_yet) shown)
      ]
