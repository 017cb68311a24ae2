-- ===== src/Tests/Cursors.antt =====
-- Formats that write numbers in tallies, and the replies to a post of Ana.
use udesa_x_posts_api.Common.{
  ℕ, zero, suc, ◌≡◌, refl, ap, none, some, Bool, true, false, map, List, [], ◌∷◌, ◌≤◌, length,
  arith,
}
use udesa_x_posts_api.Common.Int.{pos}
use udesa_x_posts_api.Common.Action.{ok, problem}
use udesa_x_posts_api.Database.{Db, PostLanguage}
use udesa_x_posts_api.Models.{PostWithAuthor}
use udesa_x_posts_api.Posts.{
  new_post, visible_to, to_post_with_author, liked_by, retweeted_by, visible_post, visible_row,
}
use udesa_x_posts_api.Posts.Joined.{JoinedPost, joined_posts, by_creation}
use udesa_x_posts_api.Common.Rows.{count}
use udesa_x_posts_api.Pagination.Sorted.{IsOrdered}
use udesa_x_posts_api.Pagination.Orders.{Cursor, CountCursor, FeedCursor}
use udesa_x_posts_api.Pagination.Encoding.{
  Formats, naive, aware, encode_cursor, decode_cursor, encode_count, decode_count, encode_activity,
  decode_activity, invalid_cursor,
}
use udesa_x_posts_api.Pagination.Decoding.{HasNoBar, AreFaithful, decode-encode}
use udesa_x_posts_api.Replies.{reply_rows, reply_item}
use udesa_x_posts_api.Replies.Scrolling.{scroll, scroll-shows_replies}
use udesa_x_posts_api.Tests.{at, ana, empty, ana_row, bruno_row}

abbrev tally : ℕ → List ℕ
tally zero = []
tally (suc n) = 0x31 ∷ tally n

abbrev pub tallies : Formats
tallies = record {
  b64encode = λ xs. xs;
  b64decode = λ xs. some xs;
  b64decode_strict = λ xs. some xs;
  isoformat = tally;
  fromisoformat = λ xs. some (aware (length xs));
  in_utc = λ t. true;
  uuid_text = tally;
  uuid = λ xs. some (length xs);
  int_text = tally;
  int = λ xs. some (pos (length xs));
}

length-tally : (n : ℕ) → length (tally n) ≡ n
length-tally zero = refl
length-tally (suc n) = ap suc (length-tally n)

tally-HasNoBar : (n : ℕ) → HasNoBar (tally n)
tally-HasNoBar zero = tt
tally-HasNoBar (suc n) = (refl, tally-HasNoBar n)

abbrev tallies_law : AreFaithful tallies
tallies_law = record {
  bytes_back = λ xs. refl;
  bytes_back_strict = λ xs. refl;
  time_back = λ t u. rw (length-tally t) refl;
  time_barless = λ t. tally-HasNoBar t;
  id_back = λ u. rw (length-tally u) refl;
  id_barless = λ u. tally-HasNoBar u;
  number_back = λ n. rw (length-tally n) refl;
  number_barless = λ n. tally-HasNoBar n;
}

abbrev here : Cursor
here = record { at = 2; tiebreak = 3 }

text_of_cursor : encode_cursor tallies here ≡ 0x31 ∷ 0x31 ∷ 0x7c ∷ 0x31 ∷ 0x31 ∷ 0x31 ∷ []
unfolding encode_cursor
text_of_cursor = refl

-- One bar is missing.
cut_cursor : decode_cursor tallies (0x31 ∷ 0x31 ∷ []) ≡ problem invalid_cursor
unfolding decode_cursor
cut_cursor = refl

-- A time without a zone is no cursor of a listing, but is one of the cases.
abbrev zoneless : Formats
zoneless = record tallies { fromisoformat = λ xs. some (naive (length xs)) }

zoneless_cursor : decode_cursor zoneless (0x31 ∷ 0x7c ∷ 0x31 ∷ []) ≡ problem invalid_cursor
unfolding decode_cursor
zoneless_cursor = refl

zoneless_count :
    decode_count zoneless (0x31 ∷ 0x7c ∷ 0x31 ∷ 0x7c ∷ 0x31 ∷ [])
    ≡ ok (record { count = pos 1; at = naive 1; tiebreak = 1 })
unfolding decode_count
zoneless_count = refl

decode-encode_example :
    ((c : Cursor)
      → tallies.in_utc c.at ≡ true
      → decode_cursor tallies (encode_cursor tallies c) ≡ ok c)
    × ((c : CountCursor)
        → tallies.in_utc c.at ≡ true
        → decode_count tallies (encode_count tallies c)
          ≡ ok (record { count = pos c.count; at = aware c.at; tiebreak = c.tiebreak }))
    × ((c : FeedCursor)
        → tallies.in_utc c.at ≡ true
        → c.kind ≤ 1
        → decode_activity tallies (encode_activity tallies c) ≡ ok c)
decode-encode_example = decode-encode tallies tallies_law

-- Bruno and Ana answered the post of Ana.
abbrev talked : Db
talked = record empty {
  profiles = ana_row ∷ bruno_row ∷ [];
  posts =
      new_post (at 7) 1 (0x68 ∷ []) PostLanguage.en none
      ∷ new_post (at 8) 2 (0x69 ∷ []) PostLanguage.en (some 7)
      ∷ new_post (at 9) 1 (0x6a ∷ []) PostLanguage.en (some 7)
      ∷ [];
}

abbrev parent : PostWithAuthor
parent =
    to_post_with_author (new_post (at 7) 1 (0x68 ∷ []) PostLanguage.en none) ana_row false false

scroll-shows_replies_example :
    (seen : List JoinedPost) × ((scroll
          (suc (length (reply_rows 7 1 talked)))
          tallies
          7
          ana
          none
          talked
        ≡ map (reply_item 1 talked) seen)
      × ((IsOrdered (by_creation true) seen)
          × ((p : JoinedPost → Bool) → count p seen ≡ count p (reply_rows 7 1 talked))))
unfolding visible_post visible_row visible_to liked_by retweeted_by reply_rows joined_posts
scroll-shows_replies_example =
    scroll-shows_replies tallies 7 ana talked parent tallies_law (λ u. ground arith)
      (λ p. ground arith) refl (refl, tt)

-- Ana reads her own answer, and not that of Bruno, who is protected and whom she does not follow.
reply_rows_of_ana : map (λ r. r.post.id) (reply_rows 7 1 talked) ≡ 9 ∷ []
unfolding reply_rows joined_posts visible_to
reply_rows_of_ana = refl
