-- ===== src/Activity/Scrolling.antt =====
-- A reader who scrolls the feed to its end.
use udesa_x_posts_api.Common.{
  ℕ, zero, suc, ◌≡◌, refl, Option, none, some, Bool, List, [], ◌∷◌, ◌++◌, map, length, sym,
}
use udesa_x_posts_api.Common.Rows.{count}
use udesa_x_posts_api.Database.{Db}
use udesa_x_posts_api.Pagination.{walk}
use udesa_x_posts_api.Pagination.Orders.{FeedCursor}
use udesa_x_posts_api.Pagination.Sorted.{IsOrdered}
use udesa_x_posts_api.Pagination.Walk.{walk-shows_all}
use udesa_x_posts_api.Activity.{
  ActivityRow, ActivityItem, activity_item, feed_rows, newest_activity, for_viewer, page_after,
}
use udesa_x_posts_api.Activity.Positions.{AreKeyed, feed_rows-AreDistinct}

pub map-append :
    {A B : Type 0} (f : A → B) (xs ys : List A) → map f (xs ++ ys) ≡ map f xs ++ map f ys
map-append f [] ys = refl
map-append f (x ∷ xs) ys = rw (map-append f xs ys) refl

shown_pages :
    {A B K : Type 0} (f : A → B) (next : Option K) (xs : List A) (r : K → List B) (w : K → List A)
    → ((c : K) → r c ≡ map f (w c))
    → elim next as (λ x. List B) [ none ↦ map f xs | some c ↦ map f xs ++ r c ]
      ≡ map f (elim next as (λ x. List A) [ none ↦ xs | some c ↦ xs ++ w c ])
shown_pages f none xs r w h = refl
shown_pages f (some c) xs r w h = rw (h c) (sym (map-append f xs (w c)))

-- The items that a reader sees on at most so many pages, who asks for the next page with the cursor
-- of the last one.
unfoldable pub scroll : ℕ → ℕ → ℕ → Option FeedCursor → Db → List ActivityItem
unfolding for_viewer
scroll zero viewer limit cursor d = []
scroll (suc n) viewer limit cursor d =
    let (items, next) = for_viewer viewer cursor limit d in
    elim next [ none ↦ items | some c ↦ items ++ scroll n viewer limit (some c) d ]

module _ (viewer : ℕ) (limit : ℕ) (d : Db) where
  scroll-walk :
      (n : ℕ) (cursor : Option FeedCursor)
      → scroll n viewer limit cursor d
        ≡ map (activity_item viewer d) (walk newest_activity n limit cursor (feed_rows viewer d))
  unfolding scroll walk for_viewer
  scroll-walk zero cursor = refl
  scroll-walk (suc n) cursor =
      let (rows, next) = page_after cursor limit (feed_rows viewer d) in
      shown_pages (activity_item viewer d) next rows (λ c. scroll n viewer limit (some c) d)
        (λ c. walk newest_activity n limit (some c) (feed_rows viewer d))
        (λ c. scroll-walk n (some c))

-- A reader who scrolls the feed, with a page size above zero, for as many pages as the feed has rows
-- and one more, sees the items of rows that are in order, newest first, and that are exactly the rows
-- of the feed, each as often as it is there: where the keys of the tables hold, once, at a position
-- of its own.
pub scroll-shows_all :
    (viewer limit : ℕ) (d : Db)
    → AreKeyed d
    → (seen : List ActivityRow) × ((scroll
            (suc (length (feed_rows viewer d)))
            viewer
            (suc limit)
            none
            d
          ≡ map (activity_item viewer d) seen)
        × ((IsOrdered newest_activity seen)
            × ((p : ActivityRow → Bool) → count p seen ≡ count p (feed_rows viewer d))))
scroll-shows_all viewer limit d keyed =
    let rows = feed_rows viewer d in
    (
      walk newest_activity (suc (length rows)) (suc limit) none rows,
      (
        scroll-walk viewer (suc limit) d (suc (length rows)) none,
        walk-shows_all newest_activity limit rows (feed_rows-AreDistinct viewer d keyed),
      ),
    )
