-- ===== src/Pagination.antt =====
-- Cursor pagination (app/pagination.py): the keyset condition, the stable order, the row past the
-- page, and the cursor of the next page. The columns that order a listing are a key under an order,
-- and a cursor is the key of the row that a page ended on.
pub mod Orders
pub mod Encoding
pub mod Decoding
pub mod Sorted
pub mod Lists
pub mod Walk
use udesa_x_posts_api.Common.{
  ℕ, zero, suc, ◌≡◌, Option, none, some, Bool, true, false, List, [], ◌∷◌, ◌++◌, ltb, if◌then◌else◌,
  length, take,
}
use udesa_x_posts_api.Common.Rows.{select}

abbrev pub default_page_size : ℕ
default_page_size = 20

-- How SQL compares rows of some columns: a strict order that is total on rows that differ.
pub record Order : Type 1 where
  pub Key : Type 0
  pub lt : Key → Key → Bool
  pub same : Key → Key → Bool
  pub irrefl : (a : Key) → lt a a ≡ false
  pub trans : (a b c : Key) → lt a b ≡ true → lt b c ≡ true → lt a c ≡ true
  pub total : (a b : Key) → same a b ≡ false → lt a b ≡ false → lt b a ≡ true

-- A listing: the columns that order it, and the direction it is walked in.
pub record Listing : Type 1 where
  pub Row : Type 0
  pub order : Order
  pub key : Row → order.Key
  pub ascending : Bool

module _ (m : Listing) where
  open m use {Row, order, key, ascending}

  -- Further along than the cursor, in the direction of the listing.
  abbrev pub is_further : order.Key → order.Key → Bool
  is_further c k = if ascending then order.lt c k else order.lt k c

  abbrev pub is_past : Option order.Key → Row → Bool
  is_past none r = true
  is_past (some c) r = is_further c (key r)

  -- The place of a row under `ORDER BY`.
  abbrev pub insert : Row → List Row → List Row
  insert r [] = r ∷ []
  insert r (x ∷ xs) =
      let rest = insert r xs in if is_further (key r) (key x) then r ∷ x ∷ xs else x ∷ rest

  unfoldable pub order_by : List Row → List Row
  order_by [] = []
  order_by (r ∷ rows) = insert r (order_by rows)

  -- `apply_cursor`
  unfoldable pub apply_cursor : Option order.Key → ℕ → List Row → List Row
  unfolding order_by
  apply_cursor cursor limit rows = take (suc limit) (order_by (select (is_past cursor) rows))

  -- `page[-1]`
  abbrev pub last_of : List Row → Option Row
  last_of [] = none
  last_of (r ∷ []) = some r
  last_of (r ∷ x ∷ xs) = last_of (x ∷ xs)

  abbrev pub cursor_at : Option Row → Option order.Key
  cursor_at none = none
  cursor_at (some r) = some (key r)

  -- `page_of`
  unfoldable pub page_of : ℕ → List Row → List Row × Option order.Key
  page_of limit rows = (
    take limit rows,
    if ltb limit (length rows) then cursor_at (last_of (take limit rows)) else none,
  )

  -- A client that follows the cursors, at most so many times.
  unfoldable pub walk : ℕ → ℕ → Option order.Key → List Row → List Row
  walk zero limit cursor rows = []
  walk (suc n) limit cursor rows =
      let fetched = page_of limit (apply_cursor cursor limit rows) in
      elim fetched.1 [ none ↦ fetched.0 | some next ↦ fetched.0 ++ walk n limit (some next) rows ]
