-- ===== src/Pagination/Encoding.antt =====
-- The text of the cursors: `encode` and `decode` of `Cursor` and `CountCursor` (app/pagination.py)
-- and of `FeedCursor` (app/feed_pagination.py). Python's `base64`, `datetime`, `uuid.UUID` and `int`
-- are arguments. An instant is a number, as elsewhere, so a time with a zone is its instant.
use udesa_x_posts_api.Common.{
  ℕ, Option, none, some, Bool, true, false, ◌||◌, List, [], ◌∷◌, ◌++◌, ◌==◌, if◌then◌else◌,
}
use udesa_x_posts_api.Common.Int.{ℤ, pos, negsuc}
use udesa_x_posts_api.Common.Action.{ProblemError, Result, ok, problem}
use udesa_x_posts_api.Pagination.Orders.{Cursor, CountCursor, FeedCursor}

-- What `datetime.fromisoformat` reads: a time without a zone, or an instant.
pub data Timestamp : Type 0 where
  naive : ℕ → Timestamp
  aware : ℕ → Timestamp

pub record Formats : Type 0 where
  pub b64encode : List ℕ → List ℕ
  -- `urlsafe_b64decode` with `decode`, and `b64decode` with `validate=True` and `decode`.
  pub b64decode : List ℕ → Option (List ℕ)
  pub b64decode_strict : List ℕ → Option (List ℕ)
  pub isoformat : ℕ → List ℕ
  pub fromisoformat : List ℕ → Option Timestamp
  -- Whether `astimezone(UTC)` stays in the years that `datetime` has.
  pub in_utc : ℕ → Bool
  pub uuid_text : ℕ → List ℕ
  pub uuid : List ℕ → Option ℕ
  pub int_text : ℕ → List ℕ
  pub int : List ℕ → Option ℤ

abbrev pub invalid_cursor : ProblemError
invalid_cursor = record {
  status = 400;
  code = "invalid-cursor";
  title = "Cursor inválido";
  detail = "El cursor no tiene un formato reconocible";
  retry_after = none;
}

abbrev pub bar : ℕ
bar = 0x7c

abbrev first_part : ℕ → List (List ℕ) → List (List ℕ)
first_part c [] = (c ∷ []) ∷ []
first_part c (part ∷ parts) = (c ∷ part) ∷ parts

-- `raw.split("|")`
abbrev pub split : List ℕ → List (List ℕ)
split [] = [] ∷ []
split (c ∷ cs) = if c == bar then [] ∷ split cs else first_part c (split cs)

-- `except (ValueError, …)`
abbrev pub or_invalid : {A : Type 0} → Option A → Result A
or_invalid none = problem invalid_cursor
or_invalid (some a) = ok a

infixl 5 ◌>>=◌ ◌>>◌
abbrev ◌>>=◌ : {A B : Type 0} → Option A → (A → Option B) → Option B
none >>= f = none
some a >>= f = f a

abbrev ◌>>◌ : {B : Type 0} → Option (Unit {0}) → Option B → Option B
m >> k = m >>= λ _. k

abbrev instant_of : Timestamp → Option ℕ
instant_of (naive t) = none
instant_of (aware t) = some t

abbrev when_true : Bool → Option (Unit {0})
when_true true = some tt
when_true false = none

-- What `CountCursor.decode` makes of a text: it asks for no zone, and any number will do.
pub record DecodedCount : Type 0 where
  pub count : ℤ
  pub at : Timestamp
  pub tiebreak : ℕ

module _ (F : Formats) where
  open F use {
    b64encode, b64decode, b64decode_strict, isoformat, fromisoformat, in_utc, uuid_text, uuid,
    int_text, int,
  }

  -- `Cursor.encode`
  unfoldable pub encode_cursor : Cursor → List ℕ
  encode_cursor c = b64encode (isoformat c.at ++ bar ∷ uuid_text c.tiebreak)

  abbrev cursor_parts : List (List ℕ) → Option Cursor
  cursor_parts (at_raw ∷ tiebreak_raw ∷ []) = do
    stamp ← fromisoformat at_raw
    at ← instant_of stamp
    when_true (in_utc at)
    tiebreak ← uuid tiebreak_raw
    some (record { at = at; tiebreak = tiebreak })
  cursor_parts parts = none

  -- `Cursor.decode`
  unfoldable pub decode_cursor : List ℕ → Result Cursor
  decode_cursor value = or_invalid (do raw ← b64decode value; cursor_parts (split raw))

  -- `CountCursor.encode`
  unfoldable pub encode_count : CountCursor → List ℕ
  encode_count c =
      b64encode (int_text c.count ++ bar ∷ (isoformat c.at ++ bar ∷ uuid_text c.tiebreak))

  abbrev count_parts : List (List ℕ) → Option DecodedCount
  count_parts (count_raw ∷ at_raw ∷ tiebreak_raw ∷ []) = do
    count ← int count_raw
    at ← fromisoformat at_raw
    tiebreak ← uuid tiebreak_raw
    some (record { count = count; at = at; tiebreak = tiebreak })
  count_parts parts = none

  -- `CountCursor.decode`
  unfoldable pub decode_count : List ℕ → Result DecodedCount
  decode_count value = or_invalid (do raw ← b64decode value; count_parts (split raw))

  -- `FeedCursor.encode`
  unfoldable pub encode_activity : FeedCursor → List ℕ
  encode_activity c = b64encode (
      isoformat c.at
      ++ bar ∷ (uuid_text c.post_id ++ bar ∷ (int_text c.kind ++ bar ∷ uuid_text c.actor_id)))

  abbrev kind_of : ℤ → Option ℕ
  kind_of (pos n) = if n == 0 || n == 1 then some n else none
  kind_of (negsuc n) = none

  abbrev activity_parts : List (List ℕ) → Option FeedCursor
  activity_parts (at_raw ∷ post_raw ∷ kind_raw ∷ actor_raw ∷ []) = do
    stamp ← fromisoformat at_raw
    post_id ← uuid post_raw
    number ← int kind_raw
    actor_id ← uuid actor_raw
    kind ← kind_of number
    at ← instant_of stamp
    some (record { at = at; post_id = post_id; kind = kind; actor_id = actor_id })
  activity_parts parts = none

  -- `FeedCursor.decode`
  unfoldable pub decode_activity : List ℕ → Result FeedCursor
  decode_activity value = or_invalid (do raw ← b64decode_strict value; activity_parts (split raw))
