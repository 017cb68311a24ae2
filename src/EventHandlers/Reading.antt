-- ===== src/EventHandlers/Reading.antt =====
-- Which messages are events, and of what (app/events.py).
use Prim.Native.String.{String}
use package.text.Mathlib.TextEquality.{eq_iff}
use udesa_x_posts_api.Common.{
  ℕ, ◌≡◌, refl, ◌↔◌, ◌⊎◌, inl, inr, Option, none, some, Bool, true, false, ◌||◌, List, Bool-cases,
  arith,
}
use udesa_x_posts_api.Pagination.Encoding.{Timestamp, naive, aware}
use udesa_x_posts_api.EventHandlers.{IncomingEvent, user_deleted, preferences_changed}
use udesa_x_posts_api.EventHandlers.Parsing.{
  Json, null, boolean, number, text, array, object, Fields, Readers, get, as_object, is_text,
  instant_of, language_of, ◌>>=◌, when_true, deleted_type, preferences_type, as_text, read_id,
  read_time, event_of, parse_fields, parse_event,
}

-- A value that a chain went through.
bound :
    {A B : Type 0} (m : Option A) (f : A → Option B) (b : B)
    → (m >>= f) ≡ some b
    → (a : A) × (m ≡ some a) × (f a ≡ some b)
bound none f b h = cc
bound (some a) f b h = (a, refl, h)

passed : (c : Bool) (u : Unit {0}) → when_true c ≡ some u → c ≡ true
passed true u h = refl
passed false u h = cc

is_text-text : (s : String) (j : Option Json) → is_text s j ≡ true → j ≡ some (text s)
is_text-text s none h = cc
is_text-text s (some null) h = cc
is_text-text s (some (boolean b)) h = cc
is_text-text s (some (number n)) h = cc
is_text-text s (some (text t)) h = let e : t ≡ s = (eq_iff t s).0 h in rw e refl
is_text-text s (some (array items)) h = cc
is_text-text s (some (object fields)) h = cc

as_object-object : (j : Json) (f : Fields) → as_object j ≡ some f → j ≡ object f
as_object-object (object g) f h = cc
as_object-object null f h = cc
as_object-object (boolean b) f h = cc
as_object-object (number n) f h = cc
as_object-object (text t) f h = cc
as_object-object (array items) f h = cc

instant_of-aware : (t : Timestamp) (at : ℕ) → instant_of t ≡ some at → t ≡ aware at
instant_of-aware (naive t) at h = cc
instant_of-aware (aware t) at h = cc

module _ (R : Readers) where
  -- What the event of a message is, by its type, once the rest is read.
  abbrev pub IsOfType : Option Json → Fields → ℕ → ℕ → IncomingEvent → Type 0
  IsOfType kind payload user at e =
      ((kind ≡ some (text deleted_type)) × (e ≡ user_deleted user at))
      ⊎ ((kind ≡ some (text preferences_type))
          × ((j : Json) × (get "feed_language" payload ≡ some j)
              × (e ≡ preferences_changed user (language_of (as_text R j)) at)))

  -- A message that is an event: its envelope is an object of version 1.0, with an identifier, a time with
  -- a zone and data that name the account, and the event is that of its type.
  pub record IsMessage (body : List ℕ) (e : IncomingEvent) : Type 0 where
    pub envelope : Fields
    pub loaded : R.loads body ≡ some (object envelope)
    pub version : get "specversion" envelope ≡ some (text "1.0")
    pub event_id : ℕ
    pub identified : read_id R (get "id" envelope) ≡ some event_id
    pub payload : Fields
    pub with_data : get "data" envelope ≡ some (object payload)
    pub user : ℕ
    pub of_user : read_id R (get "user_id" payload) ≡ some user
    pub at : ℕ
    pub zoned : read_time R (get "time" envelope) ≡ some (aware at)
    pub of_type : IsOfType (get "type" envelope) payload user at e

  event_of-preferences :
      (user at : ℕ) (language : Option Json) (e : IncomingEvent)
      → event_of R true user language at ≡ some e
      → (j : Json) × (language ≡ some j)
        × (e ≡ preferences_changed user (language_of (as_text R j)) at)
  event_of-preferences user at none e h = cc
  event_of-preferences user at (some j) e h = (j, refl, cc)

  event_of-type :
      (kind : Option Json) (payload : Fields) (user at : ℕ) (e : IncomingEvent)
      → (is_text deleted_type kind || is_text preferences_type kind) ≡ true
      → event_of R (is_text preferences_type kind) user (get "feed_language" payload) at ≡ some e
      → IsOfType kind payload user at e
  event_of-type kind payload user at e known h = elim (Bool-cases (is_text preferences_type kind)) [
    | inl changed ↦ inr (
      is_text-text preferences_type kind changed,
      event_of-preferences user at (get "feed_language" payload) e (rw changed at h),
    )
    | inr other ↦
        let deleted : is_text deleted_type kind ≡ true = ground (arith, known, other) in
        let same : some (user_deleted user at) ≡ some e = rw other at h in
        inl (is_text-text deleted_type kind deleted, cc)
  ]

  to_message : (body : List ℕ) (e : IncomingEvent) → parse_event R body ≡ some e → IsMessage body e
  unfolding parse_event parse_fields
  to_message body e h =
      let (j, loads, h1) = bound (R.loads body) _ e h in
      let (f, is_object, h2) = bound (as_object j) _ e h1 in
      let (u, versioned, h3) = bound (when_true (is_text "1.0" (get "specversion" f))) _ e h2 in
      let (v, typed, h4) =
        bound
          (when_true
            (is_text deleted_type (get "type" f) || is_text preferences_type (get "type" f)))
          _ e h3 in
      let (p, has_data, h5) = bound (get "data" f) _ e h4 in
      let (g, data_object, h6) = bound (as_object p) _ e h5 in
      let (i, identified, h7) = bound (read_id R (get "id" f)) _ e h6 in
      let (user, of_user, h8) = bound (read_id R (get "user_id" g)) _ e h7 in
      let (stamp, has_time, h9) = bound (read_time R (get "time" f)) _ e h8 in
      let (at, has_zone, h10) = bound (instant_of stamp) _ e h9 in
      record {
        envelope = f;
        loaded = rw (as_object-object j f is_object) at loads;
        version = is_text-text "1.0" (get "specversion" f) (passed _ u versioned);
        event_id = i;
        identified = identified;
        payload = g;
        with_data = rw (as_object-object p g data_object) at has_data;
        user = user;
        of_user = of_user;
        at = at;
        zoned = rw (instant_of-aware stamp at has_zone) at has_time;
        of_type = event_of-type (get "type" f) g user at e (passed _ v typed) h10;
      }

  of_message : (body : List ℕ) (e : IncomingEvent) → IsMessage body e → parse_event R body ≡ some e
  unfolding parse_event parse_fields
  of_message body e m = elim m.of_type [
    | inl (kind, same) ↦
        rw (m.loaded, m.version, m.identified, m.with_data, m.of_user, m.zoned, kind, same) refl
    | inr (kind, (j, language, same)) ↦
        rw
          (m.loaded, m.version, m.identified, m.with_data, m.of_user, m.zoned, kind, language, same)
          refl
  ]

-- A message is read as an event exactly where its bytes are an object of version 1.0, with an identifier,
-- a time with a zone, and data that name an account, and whose type is one of the two: the closing of
-- that account at that time, or its change of language, which the data then say, and where a language
-- that is not one of the three is none.
pub parse_event-IsMessage :
    (R : Readers) (body : List ℕ) (e : IncomingEvent)
    → (parse_event R body ≡ some e) ↔ IsMessage R body e
parse_event-IsMessage R body e = (to_message R body e, of_message R body e)
