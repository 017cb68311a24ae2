-- ===== src/Tests/Pages.antt =====
-- A listing walked page by page.
use udesa_x_posts_api.Common.{ℕ, suc, ◌≡◌, refl, none, false, Bool, List, [], ◌∷◌, length}
use udesa_x_posts_api.Common.Rows.{count}
use udesa_x_posts_api.Pagination.{Listing, walk, page_of, apply_cursor, order_by}
use udesa_x_posts_api.Pagination.Orders.{by_cursor}
use udesa_x_posts_api.Pagination.Sorted.{IsOrdered}
use udesa_x_posts_api.Pagination.Walk.{walk-shows_all}

-- Newest first, like the feed; a row is its two columns.
abbrev newest_first : Listing
newest_first = record {
  Row = ℕ × ℕ;
  order = by_cursor;
  key = λ r. record { at = r.0; tiebreak = r.1 };
  ascending = false;
}

abbrev stored : List (ℕ × ℕ)
stored = (3, 1) ∷ (5, 2) ∷ (3, 4) ∷ (9, 3) ∷ []

walked : walk newest_first 5 2 none stored ≡ (9, 3) ∷ (5, 2) ∷ (3, 4) ∷ (3, 1) ∷ []
unfolding walk page_of apply_cursor order_by
walked = refl

walk-shows_all_example :
    let seen = walk newest_first (suc (length stored)) 2 none stored in
    (IsOrdered newest_first seen) × ((p : ℕ × ℕ → Bool) → count p seen ≡ count p stored)
walk-shows_all_example = walk-shows_all newest_first 1 stored (
  ((refl, refl), ((refl, refl), ((refl, refl), tt))),
  (((refl, refl), ((refl, refl), tt)), (((refl, refl), tt), (tt, tt))),
)
