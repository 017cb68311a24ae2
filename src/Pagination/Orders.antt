-- ===== src/Pagination/Orders.antt =====
-- The orders of the listings: an instant and an identifier (`Cursor` of app/pagination.py), a count
-- before them (`CountCursor`), and the position of an activity (`FeedCursor` of
-- app/feed_pagination.py).
use udesa_x_posts_api.Common.{ℕ, ◌≡◌, Bool, true, false, ◌&&◌, ◌||◌, arith, ◌==◌, ltb}
use udesa_x_posts_api.Pagination.{Order}

pub record Cursor : Type 0 where
  pub at : ℕ
  pub tiebreak : ℕ

pub record CountCursor : Type 0 where
  pub count : ℕ
  pub at : ℕ
  pub tiebreak : ℕ

pub record FeedCursor : Type 0 where
  pub at : ℕ
  pub post_id : ℕ
  pub kind : ℕ
  pub actor_id : ℕ

-- Whether the first column decides, and if it does not, what the others say.
abbrev pub then_lt : ℕ → ℕ → Bool → Bool
then_lt a b rest = ltb a b || (a == b && rest)

abbrev pub cursor_lt : Cursor → Cursor → Bool
cursor_lt a b = then_lt a.at b.at (ltb a.tiebreak b.tiebreak)

abbrev pub count_lt : CountCursor → CountCursor → Bool
count_lt a b = then_lt a.count b.count (then_lt a.at b.at (ltb a.tiebreak b.tiebreak))

abbrev pub activity_lt : FeedCursor → FeedCursor → Bool
activity_lt a b =
    then_lt a.at b.at
      (then_lt a.post_id b.post_id (then_lt a.kind b.kind (ltb a.actor_id b.actor_id)))

pub cursor_trans :
    (a b c : Cursor) → cursor_lt a b ≡ true → cursor_lt b c ≡ true → cursor_lt a c ≡ true
cursor_trans a b c h k = ground arith

pub count_trans :
    (a b c : CountCursor) → count_lt a b ≡ true → count_lt b c ≡ true → count_lt a c ≡ true
count_trans a b c h k = ground arith

pub activity_trans :
    (a b c : FeedCursor) → activity_lt a b ≡ true → activity_lt b c ≡ true → activity_lt a c ≡ true
activity_trans a b c h k = ground arith

abbrev pub same_cursor : Cursor → Cursor → Bool
same_cursor a b = a.at == b.at && a.tiebreak == b.tiebreak

abbrev pub same_count : CountCursor → CountCursor → Bool
same_count a b = a.count == b.count && (a.at == b.at && a.tiebreak == b.tiebreak)

abbrev pub same_activity : FeedCursor → FeedCursor → Bool
same_activity a b =
    a.at == b.at && (a.post_id == b.post_id && (a.kind == b.kind && a.actor_id == b.actor_id))

pub cursor_total :
    (a b : Cursor) → same_cursor a b ≡ false → cursor_lt a b ≡ false → cursor_lt b a ≡ true
cursor_total a b h k = ground arith

pub count_total :
    (a b : CountCursor) → same_count a b ≡ false → count_lt a b ≡ false → count_lt b a ≡ true
count_total a b h k = ground arith

pub activity_total :
    (a b : FeedCursor)
    → same_activity a b ≡ false
    → activity_lt a b ≡ false
    → activity_lt b a ≡ true
activity_total a b h k = ground arith

pub cursor_irrefl : (a : Cursor) → cursor_lt a a ≡ false
cursor_irrefl a = ground arith

pub count_irrefl : (a : CountCursor) → count_lt a a ≡ false
count_irrefl a = ground arith

pub activity_irrefl : (a : FeedCursor) → activity_lt a a ≡ false
activity_irrefl a = ground arith

abbrev pub by_cursor : Order
by_cursor = record {
  Key = Cursor;
  lt = cursor_lt;
  same = same_cursor;
  irrefl = cursor_irrefl;
  trans = cursor_trans;
  total = cursor_total;
}

abbrev pub by_count : Order
by_count = record {
  Key = CountCursor;
  lt = count_lt;
  same = same_count;
  irrefl = count_irrefl;
  trans = count_trans;
  total = count_total;
}

abbrev pub by_activity : Order
by_activity = record {
  Key = FeedCursor;
  lt = activity_lt;
  same = same_activity;
  irrefl = activity_irrefl;
  trans = activity_trans;
  total = activity_total;
}
