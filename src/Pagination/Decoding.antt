-- ===== src/Pagination/Decoding.antt =====
-- A cursor that goes out as text comes back as it was (app/pagination.py, app/feed_pagination.py).
use udesa_x_posts_api.Common.{
  ℕ, ◌≤◌, ◌≡◌, refl, some, true, false, List, [], ◌∷◌, ◌++◌, ◌==◌, arith,
}
use udesa_x_posts_api.Common.Lists.{All}
use udesa_x_posts_api.Common.Int.{pos}
use udesa_x_posts_api.Common.Action.{ok}
use udesa_x_posts_api.Pagination.Orders.{Cursor, CountCursor, FeedCursor}
use udesa_x_posts_api.Pagination.Encoding.{
  aware, Formats, bar, split, encode_cursor, decode_cursor, encode_count, decode_count,
  encode_activity, decode_activity,
}

abbrev pub HasNoBar : List ℕ → Type 0
HasNoBar = All (λ c. (c == bar) ≡ false)

-- What Python documents of its formats: each is read back, and none writes a bar.
pub record AreFaithful (F : Formats) : Type 0 where
  pub bytes_back : (xs : List ℕ) → F.b64decode (F.b64encode xs) ≡ some xs
  pub bytes_back_strict : (xs : List ℕ) → F.b64decode_strict (F.b64encode xs) ≡ some xs
  pub time_back : (t : ℕ) → F.in_utc t ≡ true → F.fromisoformat (F.isoformat t) ≡ some (aware t)
  pub time_barless : (t : ℕ) → HasNoBar (F.isoformat t)
  pub id_back : (u : ℕ) → F.uuid (F.uuid_text u) ≡ some u
  pub id_barless : (u : ℕ) → HasNoBar (F.uuid_text u)
  pub number_back : (n : ℕ) → F.int (F.int_text n) ≡ some (pos n)
  pub number_barless : (n : ℕ) → HasNoBar (F.int_text n)

split-bar : (xs ys : List ℕ) → HasNoBar xs → split (xs ++ bar ∷ ys) ≡ xs ∷ split ys
split-bar [] ys h = refl
split-bar (x ∷ xs) ys h = rw h.0 (rw (split-bar xs ys h.1) refl)

split-last : (xs : List ℕ) → HasNoBar xs → split xs ≡ xs ∷ []
split-last [] h = refl
split-last (x ∷ xs) h = rw h.0 (rw (split-last xs h.1) refl)

module _ (F : Formats) (law : AreFaithful F) where
  split_two : (xs ys : List ℕ) → HasNoBar xs → HasNoBar ys → split (xs ++ bar ∷ ys) ≡ xs ∷ ys ∷ []
  split_two xs ys h k = rw (split-bar xs ys h) (rw (split-last ys k) refl)

  pub decode_cursor-encode_cursor :
      (c : Cursor) → F.in_utc c.at ≡ true → decode_cursor F (encode_cursor F c) ≡ ok c
  unfolding decode_cursor encode_cursor
  decode_cursor-encode_cursor c u =
      rw (law.bytes_back (F.isoformat c.at ++ bar ∷ F.uuid_text c.tiebreak)) (
        rw
          (split_two (F.isoformat c.at) (F.uuid_text c.tiebreak) (law.time_barless c.at)
            (law.id_barless c.tiebreak))
          (rw (law.time_back c.at u) (rw (u) (rw (law.id_back c.tiebreak) refl))))

  decode_count-encode_count :
      (c : CountCursor)
      → F.in_utc c.at ≡ true
      → decode_count F (encode_count F c)
        ≡ ok (record { count = pos c.count; at = aware c.at; tiebreak = c.tiebreak })
  unfolding decode_count encode_count
  decode_count-encode_count c u =
      let rest = F.isoformat c.at ++ bar ∷ F.uuid_text c.tiebreak in
      rw (law.bytes_back (F.int_text c.count ++ bar ∷ rest)) (
        rw (split-bar (F.int_text c.count) rest (law.number_barless c.count)) (
          rw
            (split_two (F.isoformat c.at) (F.uuid_text c.tiebreak) (law.time_barless c.at)
              (law.id_barless c.tiebreak))
            (rw (law.number_back c.count)
              (rw (law.time_back c.at u) (rw (law.id_back c.tiebreak) refl)))))

  decode_activity-encode_activity :
      (c : FeedCursor)
      → F.in_utc c.at ≡ true
      → c.kind ≤ 1
      → decode_activity F (encode_activity F c) ≡ ok c
  unfolding decode_activity encode_activity
  decode_activity-encode_activity c u h =
      let last = F.int_text c.kind ++ bar ∷ F.uuid_text c.actor_id in
      let rest = F.uuid_text c.post_id ++ bar ∷ last in
      let either : (c.kind == 0) ≡ false → (c.kind == 1) ≡ true = λ e. ground (arith, e) in
      rw (law.bytes_back_strict (F.isoformat c.at ++ bar ∷ rest)) (
        rw (split-bar (F.isoformat c.at) rest (law.time_barless c.at)) (
          rw (split-bar (F.uuid_text c.post_id) last (law.id_barless c.post_id)) (
            rw
              (split_two (F.int_text c.kind) (F.uuid_text c.actor_id) (law.number_barless c.kind)
                (law.id_barless c.actor_id))
              (rw (law.time_back c.at u) (
                rw (law.id_back c.post_id) (
                  rw (law.number_back c.kind)
                    (rw (law.id_back c.actor_id) (ground (arith, h)))))))))

-- Where Python's formats read back what they write, and write no bar, each of the three cursors that
-- goes out as text is decoded as it was, for instants that have a UTC time; that of an activity,
-- where its kind is 0 or 1.
pub decode-encode :
    (F : Formats)
    → AreFaithful F
    → ((c : Cursor) → F.in_utc c.at ≡ true → decode_cursor F (encode_cursor F c) ≡ ok c)
      × ((c : CountCursor)
          → F.in_utc c.at ≡ true
          → decode_count F (encode_count F c)
            ≡ ok (record { count = pos c.count; at = aware c.at; tiebreak = c.tiebreak }))
      × ((c : FeedCursor)
          → F.in_utc c.at ≡ true
          → c.kind ≤ 1
          → decode_activity F (encode_activity F c) ≡ ok c)
decode-encode F law = (
  decode_cursor-encode_cursor F law,
  decode_count-encode_count F law,
  decode_activity-encode_activity F law,
)
