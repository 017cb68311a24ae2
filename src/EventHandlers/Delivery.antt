-- ===== src/EventHandlers/Delivery.antt =====
-- A message that the queue delivers again leaves everything as the first delivery did.
use udesa_x_posts_api.Common.{
  ℕ, ◌≡◌, refl, Option, none, some, Bool, true, false, inl, inr, Bool-cases,
}
use udesa_x_posts_api.Common.Rows.{exists}
use udesa_x_posts_api.Common.Action.{ok, pure, transaction, settle, ◌>>=◌}
use udesa_x_posts_api.Database.{Db, FeedLanguage}
use udesa_x_posts_api.UserDeletion.{
  live_id, with_profile, close, release_follows, release_blocks, release_mutes, release_likes,
  release_retweets, apply,
}
use udesa_x_posts_api.UserDeletion.Repeat.{apply-apply}
use udesa_x_posts_api.FeedLanguage.{apply_language}
use udesa_x_posts_api.FeedLanguage.Order.{apply_language-apply_language}
use udesa_x_posts_api.EventHandlers.{
  IncomingEvent, user_deleted, preferences_changed, ack, handle, apply_preferences,
}

apply_returns : (u at : ℕ) (d : Db) → (closed : Bool) × ((apply u at d).0 ≡ ok closed)
unfolding apply close release_follows release_blocks release_mutes release_likes release_retweets
    ◌>>=◌
apply_returns u at d = elim (Bool-cases (exists (live_id u) (with_profile u d.profiles))) [
  | inl reached ↦ rw reached (true, refl)
  | inr unreached ↦ rw unreached (false, refl)
]

pub handle-apply :
    (u at : ℕ) (d : Db) → handle (some (user_deleted u at)) d ≡ (ok ack, (apply u at d).1)
unfolding handle transaction settle ◌>>=◌
handle-apply u at d = rw (apply_returns u at d).1 refl

pub handle-apply_language :
    (u : ℕ) (l : FeedLanguage) (at : ℕ) (d : Db)
    → handle (some (preferences_changed u (some l) at)) d ≡ (ok ack, (apply_language u l at d).1)
unfolding handle apply_preferences apply_language transaction settle ◌>>=◌
handle-apply_language u l at d = refl

-- The second delivery of a message, whatever it holds, has the outcome of the first one and changes
-- nothing.
pub handle-handle : (e : Option IncomingEvent) (d : Db) → handle e (handle e d).1 ≡ handle e d
unfolding handle apply_preferences pure
handle-handle none d = refl
handle-handle (some (user_deleted u at)) d =
    rw (handle-apply u at d)
      (rw (handle-apply u at (apply u at d).1) (rw (apply-apply u at at d) refl))
handle-handle (some (preferences_changed u none at)) d = refl
handle-handle (some (preferences_changed u (some l) at)) d = rw (handle-apply_language u l at d) (
    rw (handle-apply_language u l at (apply_language u l at d).1)
      (rw (apply_language-apply_language u l at d) refl))
