-- ===== src/Listings/Scrolling.antt =====
-- A reader who scrolls the list of followers to its end.
use udesa_x_posts_api.Common.{
  ℕ, zero, suc, ◌≡◌, refl, sym, ◌∙◌, Option, none, some, true, List, [], ◌∷◌, ◌++◌, map, ◌==◌,
  ==→eq, arith, length, take,
}
use udesa_x_posts_api.Common.Int.{pos}
use udesa_x_posts_api.Common.Rows.{count, find, find-holds, All-find}
use udesa_x_posts_api.Common.Joins.{length-map}
use udesa_x_posts_api.Database.{Db, UserProfileRow}
use udesa_x_posts_api.Follows.{profile_id, pair_of}
use udesa_x_posts_api.Pagination.{walk, page_of, apply_cursor, last_of, cursor_at}
use udesa_x_posts_api.Pagination.Orders.{Cursor}
use udesa_x_posts_api.Pagination.Walk.{walk-shows_all}
use udesa_x_posts_api.Graph.{IsConsistent, follows_to, FollowersMatch}
use udesa_x_posts_api.Listings.{
  AccountRow, FollowListItem, newest_account, newest_item, follower_rows, list_item,
  followed_by_viewer, list_accounts, followers_of,
}
use udesa_x_posts_api.Listings.Followers.{
  ids_of, distinct_of, count_every, count_ids, length-ids, count-follower_rows,
  length-follower_rows,
}

abbrev shown_ids : List FollowListItem → List ℕ
shown_ids = map (λ i. i.id)

-- What a page shows, and what the pages after it show, if there are any.
abbrev and_more : {A : Type 0} → List A → Option Cursor → (Cursor → List A) → List A
and_more xs none more = xs
and_more xs (some c) more = xs ++ more c

-- The accounts that a reader sees on at most so many pages of followers, who asks for the next page
-- with the cursor of the last one.
unfoldable pub scroll_followers : ℕ → ℕ → ℕ → ℕ → Option Cursor → Db → List ℕ
scroll_followers zero user viewer limit cursor d = []
scroll_followers (suc n) user viewer limit cursor d =
    let fetched = followers_of user viewer cursor limit d in
    and_more (shown_ids fetched.0) fetched.1 (λ c. scroll_followers n user viewer limit (some c) d)

module _ (already : List ℕ) where
  take_items :
      (n : ℕ) (rows : List AccountRow)
      → take n (map (list_item already) rows) ≡ map (list_item already) (take n rows)
  take_items zero rows = refl
  take_items (suc n) [] = refl
  take_items (suc n) (r ∷ rows) = rw (take_items n rows) refl

  last_item :
      (rows : List AccountRow)
      → cursor_at newest_item (last_of newest_item (map (list_item already) rows))
        ≡ cursor_at newest_account (last_of newest_account rows)
  last_item [] = refl
  last_item (r ∷ []) = refl
  last_item (r ∷ s ∷ rows) = last_item (s ∷ rows)

  -- A page of items is the items of a page, with the same cursor.
  page_of-items :
      (limit : ℕ) (rows : List AccountRow)
      → page_of newest_item limit (map (list_item already) rows) ≡ (
        map (list_item already) (page_of newest_account limit rows).0,
        (page_of newest_account limit rows).1,
      )
  unfolding page_of
  page_of-items limit rows =
      rw (length-map (list_item already) rows)
        (rw (take_items limit rows) (rw (last_item (take limit rows)) refl))

  item_ids : (rows : List AccountRow) → shown_ids (map (list_item already) rows) ≡ ids_of rows
  item_ids [] = refl
  item_ids (r ∷ rows) = rw (item_ids rows) refl

ids_append : (xs ys : List AccountRow) → ids_of (xs ++ ys) ≡ ids_of xs ++ ids_of ys
ids_append [] ys = refl
ids_append (x ∷ xs) ys = rw (ids_append xs ys) refl

shown_pages :
    (next : Option Cursor) (xs : List AccountRow) (r : Cursor → List ℕ)
    (w : Cursor → List AccountRow)
    → ((c : Cursor) → r c ≡ ids_of (w c))
    → and_more (ids_of xs) next r
      ≡ ids_of (elim next as (λ x. List AccountRow) [ none ↦ xs | some c ↦ xs ++ w c ])
shown_pages none xs r w h = refl
shown_pages (some c) xs r w h = rw (h c) (sym (ids_append xs (w c)))

module _ (user viewer limit : ℕ) (d : Db) where
  -- What a call fetches, and the accounts of it that the viewer follows.
  abbrev fetched : Option Cursor → List AccountRow
  fetched cursor = apply_cursor newest_account cursor limit (follower_rows user d)

  abbrev already : Option Cursor → List ℕ
  already cursor = followed_by_viewer viewer (map (λ r. r.id) (fetched cursor)) d

  abbrev page : Option Cursor → List AccountRow × Option Cursor
  page cursor = page_of newest_account limit (fetched cursor)

  followers_of-page :
      (cursor : Option Cursor)
      → followers_of user viewer cursor limit d
        ≡ (map (list_item (already cursor)) (page cursor).0, (page cursor).1)
  unfolding followers_of list_accounts
  followers_of-page cursor = page_of-items (already cursor) limit (fetched cursor)

  scroll_followers-walk :
      (n : ℕ) (cursor : Option Cursor)
      → scroll_followers n user viewer limit cursor d
        ≡ ids_of (walk newest_account n limit cursor (follower_rows user d))
  unfolding scroll_followers walk
  scroll_followers-walk zero cursor = refl
  scroll_followers-walk (suc n) cursor =
      rw (followers_of-page cursor, scroll_followers)
        ((rw (item_ids (already cursor) (page cursor).0) (
          shown_pages (page cursor).1 (page cursor).0
            (λ c. scroll_followers n user viewer limit (some c) d)
            (λ c. walk newest_account n limit (some c) (follower_rows user d))
            (λ c. scroll_followers-walk n (some c)))))

-- On a consistent graph, a reader who scrolls the followers of an account, with a page size above
-- zero, for as many pages as there are rows and one more, sees as many accounts as the counter of the
-- profile shows, and each account once if it follows and not at all if it does not.
pub scroll_followers-counts :
    (user viewer limit : ℕ) (d : Db) (r : UserProfileRow)
    → IsConsistent d
    → find (profile_id user) d.profiles ≡ some r
    → (r.followers_count
        ≡ pos (
            length (
              scroll_followers
                (suc (length (follower_rows user d)))
                user
                viewer
                (suc limit)
                none
                d)))
      × ((a : ℕ)
          → count
              (λ b. b == a)
              (scroll_followers
                (suc (length (follower_rows user d)))
                user
                viewer
                (suc limit)
                none
                d)
            ≡ count (pair_of a user) d.follows)
scroll_followers-counts user viewer limit d r v found =
    let rows = follower_rows user d in
    let seen = walk newest_account (suc (length rows)) (suc limit) none rows in
    let (order, same) = walk-shows_all newest_account limit rows (
      distinct_of rows
        (λ a. omega (arith, count-follower_rows user d v a, v.keyed.follow_once a user))) in
    let as_many : length seen ≡ count (follows_to user) d.follows =
      sym (count_every seen)
      ∙ same (λ x. true)
      ∙ count_every rows
      ∙ length-follower_rows user d v in
    let counted : r.followers_count ≡ pos (count (follows_to r.id) d.follows) =
      All-find (FollowersMatch d.follows) (profile_id user) d.profiles r v.counted.followers
        found in
    let named : r.id ≡ user = ==→eq r.id user (find-holds (profile_id user) d.profiles r found) in
    rw (scroll_followers-walk user viewer (suc limit) d (suc (length rows)) none) (
      rw (length-ids seen) (rw as_many (rw named at counted)),
      λ a. sym (count_ids a seen) ∙ same (λ x. x.id == a) ∙ count-follower_rows user d v a,
    )
