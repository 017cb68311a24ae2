-- ===== src/EventHandlers/Parsing.antt =====
-- Reading a message of the queue: `parse_event` (app/events.py), and the handler over it. JSON and
-- Python's formats are arguments.
use Prim.Native.String.{String}
use package.text.Mathlib.Text.{◌==◌ as str_eq}
use udesa_x_posts_api.Common.{ℕ, Option, none, some, Bool, true, false, ◌||◌, List, if◌then◌else◌}
use udesa_x_posts_api.Common.Action.{Action}
use udesa_x_posts_api.Database.{Db, FeedLanguage}
use udesa_x_posts_api.Pagination.Encoding.{Timestamp, naive, aware}
use udesa_x_posts_api.EventHandlers.{
  IncomingEvent, user_deleted, preferences_changed, Outcome, handle,
}

-- What `json.loads` gives. The fields of an object are those that a `dict` keeps.
mutual
  pub data Json : Type 0 where
    null : Json
    boolean : Bool → Json
    number : ℕ → Json
    text : String → Json
    array : Items → Json
    object : Fields → Json

  pub data Items : Type 0 where
    nil : Items
    cons : Json → Items → Items

  pub data Fields : Type 0 where
    end : Fields
    field : String → Json → Fields → Fields

pub record Readers : Type 0 where
  pub loads : List ℕ → Option Json
  -- `str` of a value that is not a text.
  pub str : Json → String
  pub uuid : String → Option ℕ
  pub fromisoformat : String → Option Timestamp

-- `dict.get`
abbrev pub get : String → Fields → Option Json
get k end = none
get k (field j v fields) = if str_eq j k then some v else get k fields

abbrev pub as_object : Json → Option Fields
as_object (object fields) = some fields
as_object j = none

abbrev pub is_text : String → Option Json → Bool
is_text s (some (text t)) = str_eq t s
is_text s j = false

abbrev pub instant_of : Timestamp → Option ℕ
instant_of (naive t) = none
instant_of (aware t) = some t

-- `FEED_LANGUAGES`; a language that is not one of them is none.
abbrev pub language_of : String → Option FeedLanguage
language_of s =
    if str_eq s "es"
    then some FeedLanguage.es
    else if str_eq s "en"
    then some FeedLanguage.en
    else if str_eq s "all"
    then some FeedLanguage.all_languages
    else none

infixl 5 ◌>>=◌ ◌>>◌
abbrev pub ◌>>=◌ : {A B : Type 0} → Option A → (A → Option B) → Option B
none >>= f = none
some a >>= f = f a

abbrev pub ◌>>◌ : {B : Type 0} → Option (Unit {0}) → Option B → Option B
m >> k = m >>= λ _. k

abbrev pub when_true : Bool → Option (Unit {0})
when_true true = some tt
when_true false = none

abbrev pub deleted_type : String
deleted_type = "user.deleted.v1"

abbrev pub preferences_type : String
preferences_type = "preferences.changed.v1"

module _ (R : Readers) where
  abbrev pub as_text : Json → String
  as_text (text s) = s
  as_text j = R.str j

  abbrev pub read_id : Option Json → Option ℕ
  read_id none = none
  read_id (some j) = R.uuid (as_text j)

  abbrev pub read_time : Option Json → Option Timestamp
  read_time none = none
  read_time (some j) = R.fromisoformat (as_text j)

  -- The rest of `parse_event`, once the type is known to be one of the two.
  abbrev pub event_of : Bool → ℕ → Option Json → ℕ → Option IncomingEvent
  event_of false user language at = some (user_deleted user at)
  event_of true user none at = none
  event_of true user (some j) at = some (preferences_changed user (language_of (as_text j)) at)

  unfoldable pub parse_fields : Fields → Option IncomingEvent
  parse_fields envelope = do
    when_true (is_text "1.0" (get "specversion" envelope))
    when_true (
        is_text deleted_type (get "type" envelope)
        || is_text preferences_type (get "type" envelope))
    payload ← get "data" envelope
    fields ← as_object payload
    event_id ← read_id (get "id" envelope)
    user ← read_id (get "user_id" fields)
    stamp ← read_time (get "time" envelope)
    at ← instant_of stamp
    event_of (is_text preferences_type (get "type" envelope)) user (get "feed_language" fields) at

  -- `parse_event`, where none is `InvalidEventError`.
  unfoldable pub parse_event : List ℕ → Option IncomingEvent
  unfolding parse_fields
  parse_event body = do envelope ← R.loads body; fields ← as_object envelope; parse_fields fields

  -- `handle`, from the bytes on.
  unfoldable pub handle_body : List ℕ → Action Db Outcome
  unfolding parse_event
  handle_body body = handle (parse_event body)
