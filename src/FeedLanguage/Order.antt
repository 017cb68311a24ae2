-- ===== src/FeedLanguage/Order.antt =====
-- The order in which the events about one account arrive does not matter.
use udesa_x_posts_api.Common.{ℕ, ◌≡◌, refl, false, List, [], ◌∷◌, arith, ◌==◌, inl, inr, Bool-cases}
use udesa_x_posts_api.Common.Rows.{
  count, exists, update, count-update, update-unreached, count-within_le, count-update_none,
}
use udesa_x_posts_api.Common.Action.{ok}
use udesa_x_posts_api.Database.{Db, FeedLanguage, FeedPreferenceRow}
use udesa_x_posts_api.FeedLanguage.{preference_of, older_than, chosen_at, kept, apply_language}

module _ (u : ℕ) (l1 l2 : FeedLanguage) (t1 t2 : ℕ) (apart : (t1 == t2) ≡ false) where
  update-update :
      (rows : List FeedPreferenceRow)
      → update (older_than u t2) (chosen_at l2 t2) (update (older_than u t1) (chosen_at l1 t1) rows)
        ≡ update
            (older_than u t1)
            (chosen_at l1 t1)
            (update (older_than u t2) (chosen_at l2 t2) rows)
  update-update [] = refl
  update-update (r ∷ rows) = ground (arith, update-update rows)

unreached_older :
    (u at : ℕ) (l : FeedLanguage) (rows : List FeedPreferenceRow)
    → exists (preference_of u) rows ≡ false
    → update (older_than u at) (chosen_at l at) rows ≡ rows
unreached_older u at l rows h =
    update-unreached (older_than u at) (chosen_at l at) rows (
      ground
        (arith, count-within_le (preference_of u) (older_than u at) (λ r i. ground arith) rows))

exists-chosen :
    (u at : ℕ) (l : FeedLanguage) (rows : List FeedPreferenceRow)
    → exists (preference_of u) (update (older_than u at) (chosen_at l at) rows)
      ≡ exists (preference_of u) rows
exists-chosen u at l rows =
    ground
      (arith, count-update (preference_of u) (older_than u at) (chosen_at l at) (λ r h. refl) rows)

kept-kept :
    (u : ℕ) (l1 l2 : FeedLanguage) (t1 t2 : ℕ) (rows : List FeedPreferenceRow)
    → (t1 == t2) ≡ false
    → kept u l2 t2 (kept u l1 t1 rows) ≡ kept u l1 t1 (kept u l2 t2 rows)
kept-kept u l1 l2 t1 t2 rows apart = elim (Bool-cases (exists (preference_of u) rows)) [
  | inl there ↦ rw there (
      rw (exists-chosen u t1 l1 rows)
        (rw (exists-chosen u t2 l2 rows) (rw there (update-update u l1 l2 t1 t2 apart rows))))
  | inr new ↦
      ground (arith, new, unreached_older u t1 l1 rows new, unreached_older u t2 l2 rows new)
]

-- Two changes of different instants leave the same table in either order.
pub apply_language_comm :
    (u : ℕ) (l1 l2 : FeedLanguage) (t1 t2 : ℕ) (d : Db)
    → (t1 == t2) ≡ false
    → (apply_language u l2 t2 (apply_language u l1 t1 d).1).1
      ≡ (apply_language u l1 t1 (apply_language u l2 t2 d).1).1
unfolding apply_language
apply_language_comm u l1 l2 t1 t2 d apart =
    rw (kept-kept u l1 l2 t1 t2 d.feed_preferences apart) refl

kept-stale :
    (u at : ℕ) (l : FeedLanguage) (rows : List FeedPreferenceRow)
    → count (older_than u at) (update (older_than u at) (chosen_at l at) rows) ≡ 0
kept-stale u at l rows =
    count-update_none (older_than u at) (older_than u at) (chosen_at l at) (λ r h. h)
      (λ r h. ground arith) rows

-- The same event delivered twice is no news, and changes nothing.
pub apply_language-apply_language :
    (u : ℕ) (l : FeedLanguage) (at : ℕ) (d : Db)
    → apply_language u l at (apply_language u l at d).1 ≡ (ok false, (apply_language u l at d).1)
unfolding apply_language
apply_language-apply_language u l at d =
    elim (Bool-cases (exists (preference_of u) d.feed_preferences)) [
      | inl there ↦
          let stale = kept-stale u at l d.feed_preferences in
          rw there (
            rw (exists-chosen u at l d.feed_preferences) (
              rw there (
                rw stale (
                  rw
                    (update-unreached (older_than u at) (chosen_at l at)
                      (update (older_than u at) (chosen_at l at) d.feed_preferences)
                      (ground (arith, stale)))
                    refl))))
      | inr new ↦
          let none_older =
            count-within_le (preference_of u) (older_than u at) (λ r i. ground arith)
              d.feed_preferences in
          rw new (rw (unreached_older u at l d.feed_preferences new) (ground (arith, none_older)))
    ]
