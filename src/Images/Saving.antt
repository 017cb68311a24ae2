-- ===== src/Images/Saving.antt =====
-- What is left of the images of a post that is refused (app/services/post_images.py).
use udesa_x_posts_api.Common.{ℕ, String, ◌≡◌, refl, ◌∙◌, ap, true, ◌⊎◌, inl, inr, List, [], ◌∷◌}
use udesa_x_posts_api.Common.Action.{Result, ok, problem, crash, pure, raise_if, continue, ◌>>=◌}
use udesa_x_posts_api.Models.{Account, Post}
use udesa_x_posts_api.Database.{PostLanguage, Tick}
use udesa_x_posts_api.RateLimiter.{Session, on_db}
use udesa_x_posts_api.Images.{IncomingImage}
use udesa_x_posts_api.Images.ProfileImages.{ImageStorage}
use udesa_x_posts_api.Images.Replacing.{
  IsStorage, delete_all, half_put, HasNothingNew, HasLoose, IsClean, IsClean-bind,
}
use udesa_x_posts_api.Images.PostMedia.{NewMedia}
use udesa_x_posts_api.Images.PostImages.{
  PostImage, Upload, upload_all, discard_all, or_discard_all, record_media, save, save_if_any,
  Fresh, create_with_images,
}
use udesa_x_posts_api.Images.Uploading.{
  In, or_else, after_before, IsHalf, record_media-marks, upload_all-only, discard_all-only,
  discard_all-marks, discard_all-IsLoose,
}

module _ (S : ImageStorage) (law : IsStorage S) (before : S.State) where
  -- All files are those of before, or of the keys.
  none_new :
      (keys : List String) (s : Session S.State)
      → ((i : String)
          → law.has i s.marks ≡ true
          → In i keys ⊎ (IsHalf S i s.marks ⊎ (law.has i before ≡ true)))
      → HasLoose S law before (discard_all S keys s).marks
  none_new keys s h i there = elim (h i (discard_all-only S law keys s i there)) [
    | inr (inr old) ↦ inl old
    | inr (inl (t, b, mime, fails, same)) ↦ inr (
        half_put t b mime keys fails (discard_all-marks S law keys s ∙ ap (delete_all S keys) same))
    | inl new ↦ inr (discard_all-IsLoose S law keys s i new there)
  ]

  settled :
      (keys : List String) (r : Result (List PostImage)) (s : Session S.State)
      → ((i : String)
          → law.has i s.marks ≡ true
          → In i keys ⊎ (IsHalf S i s.marks ⊎ (law.has i before ≡ true)))
      → IsClean S law before (or_discard_all S keys (r, s))
  unfolding or_discard_all
  settled keys (ok images) s h = inl (images, refl)
  settled keys (problem e) s h = inr (none_new keys s h)
  settled keys crash s h = inr (none_new keys s h)

  continued :
      (now post : ℕ) (media : Result (List NewMedia)) (s : Session S.State)
      → (continue media (record_media S now post) s).1.marks ≡ s.marks
  unfolding continue
  continued now post (ok media) s = record_media-marks S now post media s
  continued now post (problem e) s = refl
  continued now post crash s = refl

  -- Saving the images of a post returns, or leaves no file that was not there before, but those that
  -- the storage left: also where some of the files are up when the storage fails, where the database refuses the rows, and
  -- where an image cannot be signed.
  save-IsClean :
      (now post : ℕ) (uploads : List Upload) (s : Session S.State)
      → HasNothingNew S law before s.marks
      → IsClean S law before (save S now post uploads s)
  unfolding save
  save-IsClean now post uploads s h =
      let up = upload_all S uploads s in
      let rest = continue up.0.0 (record_media S now post) up.1 in
      settled up.0.1 rest.0 rest.1 (λ i there.
        after_before
          (upload_all-only S law uploads s i (rw (continued now post up.0.0 up.1) at there))
          (λ p. rw (continued now post up.0.0 up.1) (or_else p (h i))))

  -- What is done after a call that only adds the post to its result.
  with_post :
      (post : Post) (r : Result (List PostImage)) (s : Session S.State)
      → IsClean S law before {A = List PostImage} (r, s)
      → IsClean S law before {A = Post × List PostImage}
          (continue r (λ images. pure (post, images)) s)
  unfolding continue pure
  with_post post (ok images) s (inl h) = inl ((post, images), refl)
  with_post post (ok images) s (inr h) = inl ((post, images), refl)
  with_post post (problem e) s (inl (a, h)) = cc
  with_post post (problem e) s (inr h) = inr h
  with_post post crash s (inl (a, h)) = cc
  with_post post crash s (inr h) = inr h

  pure-IsClean :
      {A : Type 0} (a : A) (s : Session S.State)
      → HasNothingNew S law before s.marks
      → IsClean S law before (pure a s)
  unfolding pure
  pure-IsClean a s h = inl (a, refl)

  saved-IsClean :
      (now : ℕ) (post : Post) (uploads : List Upload) (s : Session S.State)
      → HasNothingNew S law before s.marks
      → IsClean S law before (save_if_any S now post uploads s)
  unfolding ◌>>=◌
  saved-IsClean now post [] s h = pure-IsClean (post, []) s h
  saved-IsClean now post (u ∷ uploads) s h =
      let saved = save S now post.id (u ∷ uploads) s in
      with_post post saved.0 saved.1 (save-IsClean now post.id (u ∷ uploads) s h)

  -- Publishing a post with images returns, or leaves no file that was not there before, unless the
  -- storage failed to delete that file as it was told to, or left it there as its put failed: whichever check refuses it, and wherever the
  -- database fails, or the storage as it puts or signs a file.
  pub create_with_images-IsClean :
      (detect : List ℕ → PostLanguage) (t : Tick) (author : Account) (content : List ℕ)
      (images : List (IncomingImage × Fresh)) (s : Session S.State)
      → HasNothingNew S law before s.marks
      → IsClean S law before (create_with_images S detect t author content images s)
  unfolding create_with_images on_db raise_if
  create_with_images-IsClean detect t author content images s h =
      IsClean-bind S law before _ _ s h (λ _ a ha. IsClean-bind S law before _ _ a ha (λ _ b hb.
        IsClean-bind S law before _ _ b hb (λ _ c hc.
          IsClean-bind S law before _ _ c hc (λ uploads e he.
            IsClean-bind S law before _ _ e he
              (λ post f hf. saved-IsClean t.now post uploads f hf)))))
