-- ===== src/Pagination/Walk.antt =====
-- A client that follows the cursors sees every row of the listing once, in order.
use udesa_x_posts_api.Common.{
  ℕ, zero, suc, ◌≤◌, ◌<◌, ◌≡◌, refl, sym, ◌∙◌, Option, none, some, Bool, true, List, [], ◌∷◌, arith,
  ltb, inl, inr, if◌then◌else◌, Bool-cases, length, take, drop,
}
use udesa_x_posts_api.Common.Lists.{All}
use udesa_x_posts_api.Common.Rows.{select, count}
use udesa_x_posts_api.Pagination.{
  Listing, cursor_at, is_past, order_by, apply_cursor, last_of, page_of, walk,
}
use udesa_x_posts_api.Pagination.Sorted.{
  goes_before, IsOrdered, AreDistinct, further_asym, further_irrefl, further_trans,
  order_by-IsOrdered, select-order_by, length-order_by, count-order_by,
}
use udesa_x_posts_api.Pagination.Lists.{
  never, take-take, take_all, take-drop, length-drop, more_than, All-select, All-select_of,
  select-select, select_every,
}

module _ (m : Listing) where
  open m use {Row}

  select-IsOrdered : (p : Row → Bool) (xs : List Row) → IsOrdered m xs → IsOrdered m (select p xs)
  select-IsOrdered p [] v = tt
  select-IsOrdered p (x ∷ xs) v = elim (Bool-cases (p x)) [
    | inl keeps ↦ rw keeps (All-select_of _ p xs v.0, select-IsOrdered p xs v.1)
    | inr drops ↦ rw drops (select-IsOrdered p xs v.1)
  ]

  -- The last row of a page: what holds of all rows holds of it, and what comes after it is what the
  -- page left.
  record IsLast (n : ℕ) (rest : List Row) (x : Row) : Type 1 where
    last : last_of m (take (suc n) rest) ≡ some x
    member : (P : Row → Type 0) → All P rest → P x
    after : select (goes_before m x) rest ≡ drop (suc n) rest

  page-IsLast :
      (n : ℕ) (rest : List Row)
      → IsOrdered m rest
      → suc n ≤ length rest
      → (x : Row) × IsLast n rest x
  page-IsLast n [] v h = never (omega (arith, h))
  page-IsLast zero (x ∷ xs) v h = (
    x,
    record {
      last = refl;
      member = λ P all. all.0;
      after = rw (further_irrefl m (m.key x)) (select_every (goes_before m x) xs v.0);
    },
  )
  page-IsLast (suc n) (x ∷ []) v h = never (omega (arith, h))
  page-IsLast (suc n) (x ∷ y ∷ ys) v h =
      let (z, found) = page-IsLast n (y ∷ ys) v.1 (omega (arith, h)) in
      (
        z,
        record {
          last = found.last;
          member = λ P all. found.member P all.1;
          after =
              rw
                (further_asym m (m.key x) (m.key z)
                  (found.member (λ w. goes_before m x w ≡ true) v.0))
                found.after;
        },
      )

  module _ (k : ℕ) (rows : List Row) (distinct : AreDistinct m rows) where
    abbrev ordered : List Row
    ordered = order_by m rows

    fetched-rest :
        (cursor : Option m.order.Key) (rest : List Row)
        → select (is_past m cursor) ordered ≡ rest
        → apply_cursor m cursor (suc k) rows ≡ take (suc (suc k)) rest
    unfolding apply_cursor
    fetched-rest cursor rest h = rw (select-order_by m (is_past m cursor) rows distinct) (rw h refl)

    All-past : (xs : List Row) → All (λ r. is_past m none r ≡ true) xs
    All-past [] = tt
    All-past (x ∷ xs) = (refl, All-past xs)

    within :
        (cursor : Option m.order.Key) (x : Row)
        → is_past m cursor x ≡ true
        → (r : Row) → goes_before m x r ≡ true
        → is_past m cursor r ≡ true
    within none x h r k = refl
    within (some c) x h r k = further_trans m c (m.key x) (m.key r) h k

    next_rest :
        (cursor : Option m.order.Key) (rest : List Row) (x : Row)
        → select (is_past m cursor) ordered ≡ rest
        → IsLast k rest x
        → select (goes_before m x) ordered ≡ drop (suc k) rest
    next_rest cursor rest x h found =
        let past : is_past m cursor x ≡ true =
          found.member (λ r. is_past m cursor r ≡ true)
            (rw h at (All-select (is_past m cursor) ordered)) in
        sym (select-select (is_past m cursor) (goes_before m x) (within cursor x past) ordered)
        ∙ rw h found.after

    rest-IsOrdered :
        (cursor : Option m.order.Key) (rest : List Row)
        → select (is_past m cursor) ordered ≡ rest
        → IsOrdered m rest
    rest-IsOrdered cursor rest h =
        rw h at (select-IsOrdered (is_past m cursor) ordered (order_by-IsOrdered m rows distinct))

    -- The page and its cursor, in terms of what lies past the cursor before.
    page-rest :
        (cursor : Option m.order.Key) (rest : List Row)
        → select (is_past m cursor) ordered ≡ rest
        → page_of m (suc k) (apply_cursor m cursor (suc k) rows) ≡ (
          take (suc k) rest,
          if ltb (suc k) (length rest) then cursor_at m (last_of m (take (suc k) rest)) else none,
        )
    unfolding page_of
    page-rest cursor rest h =
        rw (fetched-rest cursor rest h)
          (rw (more_than (suc k) rest) (rw (take-take (suc k) rest) refl))

    -- From a cursor on, the walk sees what lies past the cursor.
    walk-rest :
        (fuel : ℕ) (cursor : Option m.order.Key) (rest : List Row)
        → select (is_past m cursor) ordered ≡ rest
        → length rest < fuel
        → walk m fuel (suc k) cursor rows ≡ rest
    unfolding walk
    walk-rest zero cursor rest h enough = never (omega (arith, enough))
    walk-rest (suc fuel) cursor rest h enough = elim (Bool-cases (ltb (suc k) (length rest))) [
      | inl more ↦
          let (x, found) = page-IsLast k rest (rest-IsOrdered cursor rest h) (ground arith) in
          let here : page_of m (suc k) (apply_cursor m cursor (suc k) rows)
              ≡ (take (suc k) rest, some (m.key x)) =
            rw (page-rest cursor rest h) (rw more (rw found.last refl)) in
          rw (here, walk)
            (rw
              (walk-rest fuel (some (m.key x)) (drop (suc k) rest) (next_rest cursor rest x h found)
                (omega (arith, enough, length-drop k rest (ground arith))))
              (rw here (take-drop (suc k) rest)))
      | inr all ↦
          let here : page_of m (suc k) (apply_cursor m cursor (suc k) rows)
              ≡ (take (suc k) rest, none) =
            rw (page-rest cursor rest h) (rw all refl) in
          rw (here, walk) (rw here (take_all (suc k) rest (ground arith)))
    ]

    -- On rows that differ in their columns, with a page size above zero, as many requests as there
    -- are rows and one more show every row once, in the order of the listing.
    pub walk-shows_all :
        let seen = walk m (suc (length rows)) (suc k) none rows in
        (IsOrdered m seen) × ((p : Row → Bool) → count p seen ≡ count p rows)
    walk-shows_all =
        let all_seen : walk m (suc (length rows)) (suc k) none rows ≡ ordered =
          walk-rest (suc (length rows)) none ordered (select_every _ ordered (All-past ordered))
            (omega (arith, length-order_by m rows)) in
        rw all_seen (order_by-IsOrdered m rows distinct, λ p. count-order_by m p rows)
