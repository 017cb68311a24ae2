-- ===== src/Pagination/Sorted.antt =====
-- The order of a listing is total on rows that differ in their columns, and conditions commute with it.
use udesa_x_posts_api.Common.{
  suc, ◌+◌, length, ◌≡◌, refl, Bool, true, false, List, [], ◌∷◌, arith, inl, inr, if◌then◌else◌,
  Bool-cases, sym,
}
use udesa_x_posts_api.Common.Lists.{All, All-weaken}
use udesa_x_posts_api.Common.Rows.{select, count}
use udesa_x_posts_api.Pagination.{Listing, is_further, insert, order_by}

module _ (m : Listing) where
  open m use {Row, order, key, ascending}

  pub further_irrefl : (a : order.Key) → is_further m a a ≡ false
  further_irrefl a = ground (arith, order.irrefl a)

  pub further_trans :
      (a b c : order.Key)
      → is_further m a b ≡ true
      → is_further m b c ≡ true
      → is_further m a c ≡ true
  further_trans a b c h k = ground (arith, order.trans a b c, order.trans c b a)

  pub further_asym : (a b : order.Key) → is_further m a b ≡ true → is_further m b a ≡ false
  further_asym a b h = ground (arith, further_trans a b a, further_irrefl a)

  abbrev pub goes_before : Row → Row → Bool
  goes_before x y = is_further m (key x) (key y)

  -- Every row comes before all that follow it.
  abbrev pub IsOrdered : List Row → Type 0
  IsOrdered [] = Unit
  IsOrdered (x ∷ xs) = All (λ y. goes_before x y ≡ true) xs × IsOrdered xs

  -- No two rows agree in all columns.
  abbrev pub AreApart : Row → Row → Type 0
  AreApart x y = (order.same (key x) (key y) ≡ false) × (order.same (key y) (key x) ≡ false)

  abbrev pub AreDistinct : List Row → Type 0
  AreDistinct [] = Unit
  AreDistinct (x ∷ xs) = All (AreApart x) xs × AreDistinct xs

  goes_before_total : (x y : Row) → AreApart x y → goes_before x y ≡ false → goes_before y x ≡ true
  goes_before_total x y h k =
      ground (arith, order.total (key x) (key y), order.total (key y) (key x), h.0, h.1)

  All-insert : (P : Row → Type 0) (r : Row) (xs : List Row) → P r → All P xs → All P (insert m r xs)
  All-insert P r [] h k = (h, tt)
  All-insert P r (x ∷ xs) h k = elim (Bool-cases (goes_before r x)) [
    | inl first ↦ rw first (h, k)
    | inr later ↦ rw later (k.0, All-insert P r xs h k.1)
  ]

  pub All-order_by : (P : Row → Type 0) (rows : List Row) → All P rows → All P (order_by m rows)
  unfolding order_by
  All-order_by P [] h = tt
  All-order_by P (r ∷ rows) h = All-insert P r (order_by m rows) h.0 (All-order_by P rows h.1)

  insert-IsOrdered :
      (r : Row) (xs : List Row) → All (AreApart r) xs → IsOrdered xs → IsOrdered (insert m r xs)
  insert-IsOrdered r [] h v = (tt, tt)
  insert-IsOrdered r (x ∷ xs) h v = elim (Bool-cases (goes_before r x)) [
    | inl first ↦
        rw first
          ((first, All-weaken _ _ (λ y k. further_trans (key r) (key x) (key y) first k) xs v.0), v)
    | inr later ↦ rw later (
      All-insert (λ y. goes_before x y ≡ true) r xs (goes_before_total r x h.0 later) v.0,
      insert-IsOrdered r xs h.1 v.1,
    )
  ]

  -- Rows that differ come out in order.
  pub order_by-IsOrdered : (rows : List Row) → AreDistinct rows → IsOrdered (order_by m rows)
  unfolding order_by
  order_by-IsOrdered [] h = tt
  order_by-IsOrdered (r ∷ rows) h =
      insert-IsOrdered r (order_by m rows) (All-order_by (AreApart r) rows h.0)
        (order_by-IsOrdered rows h.1)

  insert_first :
      (r : Row) (p : Row → Bool) (xs : List Row)
      → All (λ y. goes_before r y ≡ true) xs
      → insert m r (select p xs) ≡ r ∷ select p xs
  insert_first r p [] h = refl
  insert_first r p (x ∷ xs) h = elim (Bool-cases (p x)) [
    | inl keeps ↦ rw keeps (rw h.0 refl)
    | inr drops ↦ rw drops (insert_first r p xs h.1)
  ]

  select-insert :
      (p : Row → Bool) (r : Row) (xs : List Row)
      → IsOrdered xs
      → select p (insert m r xs) ≡ (if p r then insert m r (select p xs) else select p xs)
  select-insert p r [] v = refl
  select-insert p r (x ∷ xs) v = elim (Bool-cases (goes_before r x)) [
    | inl first ↦ rw first (elim (Bool-cases (p r)) [
      | inl keeps ↦ rw keeps (
          sym (
            insert_first r p (x ∷ xs) (
              first,
              All-weaken _ _ (λ y k. further_trans (key r) (key x) (key y) first k) xs v.0,
            )))
      | inr drops ↦ rw drops refl
    ])
    | inr later ↦ rw later (elim (Bool-cases (p x)) [
      | inl keeps ↦ rw keeps (
          rw (select-insert p r xs v.1) (elim (Bool-cases (p r)) [
            | inl there ↦ rw there (rw later refl)
            | inr gone ↦ rw gone refl
          ]))
      | inr drops ↦ rw drops (select-insert p r xs v.1)
    ])
  ]

  -- A condition before the order is the condition after it.
  pub select-order_by :
      (p : Row → Bool) (rows : List Row)
      → AreDistinct rows
      → order_by m (select p rows) ≡ select p (order_by m rows)
  unfolding order_by
  select-order_by p [] h = refl
  select-order_by p (r ∷ rows) h =
      rw (select-insert p r (order_by m rows) (order_by-IsOrdered rows h.1))
        (elim (Bool-cases (p r)) [
          | inl keeps ↦ rw keeps (rw (select-order_by p rows h.1) refl)
          | inr drops ↦ rw drops (select-order_by p rows h.1)
        ])

  length-insert : (r : Row) (xs : List Row) → length (insert m r xs) ≡ suc (length xs)
  length-insert r [] = refl
  length-insert r (x ∷ xs) = ground (arith, length-insert r xs)

  pub length-order_by : (rows : List Row) → length (order_by m rows) ≡ length rows
  unfolding order_by
  length-order_by [] = refl
  length-order_by (r ∷ rows) =
      ground (arith, length-insert r (order_by m rows), length-order_by rows)

  count-insert :
      (p : Row → Bool) (r : Row) (xs : List Row)
      → count p (insert m r xs) ≡ (if p r then 1 else 0) + count p xs
  count-insert p r [] = refl
  count-insert p r (x ∷ xs) = ground (arith, count-insert p r xs)

  pub count-order_by : (p : Row → Bool) (rows : List Row) → count p (order_by m rows) ≡ count p rows
  unfolding order_by
  count-order_by p [] = refl
  count-order_by p (r ∷ rows) =
      ground (arith, count-insert p r (order_by m rows), count-order_by p rows)
