-- ===== src/EventConsumer/Settling.antt =====
-- What the consumer answers to any sequence of deliveries, and what is left in the database
-- (infrastructure/rabbitmq/event_consumer.py).
use udesa_x_posts_api.Common.{
  ℕ, ◌≡◌, refl, ◌∙◌, ap, Option, none, some, Bool, true, false, List, [], ◌∷◌, ◌++◌, map,
}
use udesa_x_posts_api.Common.Action.{ok, pure}
use udesa_x_posts_api.Database.{Db}
use udesa_x_posts_api.EventHandlers.{
  IncomingEvent, user_deleted, preferences_changed, Outcome, ack, reject, handle, apply_preferences,
}
use udesa_x_posts_api.EventHandlers.Delivery.{handle-apply, handle-apply_language, handle-handle}
use udesa_x_posts_api.EventHandlers.Parsing.{Readers, parse_event, handle_body}
use udesa_x_posts_api.EventConsumer.{
  Settlement, acked, rejected, requeued, Delivery, settlement_of, attempt, settle_message,
  settle_all,
}

abbrev outcome_of : Option IncomingEvent → Outcome
outcome_of none = reject
outcome_of (some e) = ack

handle-returns :
    (e : Option IncomingEvent) (d : Db) → handle e d ≡ (ok (outcome_of e), (handle e d).1)
unfolding handle apply_preferences pure
handle-returns none d = refl
handle-returns (some (user_deleted u at)) d = rw (handle-apply u at d) refl
handle-returns (some (preferences_changed u none at)) d = refl
handle-returns (some (preferences_changed u (some l) at)) d =
    rw (handle-apply_language u l at d) refl

-- What is to be answered to a delivery, by whether the handler works and what the message is.
abbrev answer_to : Bool → Option IncomingEvent → Settlement
answer_to false e = requeued
answer_to true none = rejected
answer_to true (some e) = acked

-- The event of a delivery that is to be handled, if any, before others.
abbrev and_event : Bool → Option IncomingEvent → List IncomingEvent → List IncomingEvent
and_event false e events = events
and_event true none events = events
and_event true (some e) events = e ∷ events

-- Some events, handled in turn.
abbrev pub handled : List IncomingEvent → Db → Db
handled [] d = d
handled (e ∷ events) d = handled events (handle (some e) d).1

module _ (R : Readers) where
  abbrev pub answer : Delivery → Settlement
  answer m = answer_to m.handler_works (parse_event R m.body)

  -- The events of the deliveries that are to be acknowledged.
  abbrev pub events_of : List Delivery → List IncomingEvent
  events_of [] = []
  events_of (m ∷ deliveries) =
      and_event m.handler_works (parse_event R m.body) (events_of deliveries)

  settle-broken :
      (body : List ℕ) (d : Db)
      → settle_message R (record { body = body; handler_works = false }) d ≡ (requeued, d)
  unfolding settle_message attempt settlement_of
  settle-broken body d = refl

  settle-works :
      (body : List ℕ) (d : Db)
      → settle_message R (record { body = body; handler_works = true }) d
        ≡ (settlement_of (ok (outcome_of (parse_event R body))), (handle (parse_event R body) d).1)
  unfolding settle_message attempt handle_body
  settle-works body d = rw (handle-returns (parse_event R body) d) refl

  settle_one :
      (works : Bool) (e : Option IncomingEvent) (body : List ℕ) (d : Db)
      → parse_event R body ≡ e
      → settle_message R (record { body = body; handler_works = works }) d
        ≡ (answer_to works e, handled (and_event works e []) d)
  unfolding settlement_of handle pure
  settle_one false e body d read = settle-broken body d
  settle_one true none body d read = settle-works body d ∙ (rw read refl)
  settle_one true (some e) body d read = settle-works body d ∙ (rw read refl)

  handled-and_event :
      (works : Bool) (e : Option IncomingEvent) (events : List IncomingEvent) (d : Db)
      → handled (and_event works e events) d ≡ handled events (handled (and_event works e []) d)
  handled-and_event false e events d = refl
  handled-and_event true none events d = refl
  handled-and_event true (some e) events d = refl

  settle_all-none : (d : Db) → settle_all R [] d ≡ ([], d)
  unfolding settle_all
  settle_all-none d = refl

  settle_all-first :
      (m : Delivery) (deliveries : List Delivery) (d : Db)
      → settle_all R (m ∷ deliveries) d ≡ (
        (settle_message R m d).0 ∷ (settle_all R deliveries (settle_message R m d).1).0,
        (settle_all R deliveries (settle_message R m d).1).1,
      )
  unfolding settle_all
  settle_all-first m deliveries d = refl

  -- Whatever the broker delivers, in any order and any number of times, and whichever handlers fail: a
  -- message is acknowledged exactly where it is an event and its handler worked, goes to the dead
  -- letters exactly where it is none and the handler worked, goes back to the queue where the handler
  -- failed, and the database is what handling the acknowledged events in turn makes of it, with nothing
  -- of the others.
  pub settle_all-answers :
      (deliveries : List Delivery) (d : Db)
      → settle_all R deliveries d ≡ (map answer deliveries, handled (events_of deliveries) d)
  settle_all-answers [] d = settle_all-none d
  settle_all-answers (m ∷ deliveries) d =
      let e = parse_event R m.body in
      let after = handled (and_event m.handler_works e []) d in
      let first : settle_message R m d ≡ (answer m, after) =
        settle_one m.handler_works e m.body d refl in
      rw (settle_all-first m deliveries d) (
        rw first (
          rw (settle_all-answers deliveries after)
            (rw (handled-and_event m.handler_works e (events_of deliveries) d) refl)))

  settle_message-again :
      (m : Delivery) (d : Db)
      → (settle_message R m (settle_message R m d).1).1 ≡ (settle_message R m d).1
  settle_message-again m d = again m.handler_works (parse_event R m.body) m.body d refl
    where
      again :
          (works : Bool) (e : Option IncomingEvent) (body : List ℕ) (d : Db)
          → parse_event R body ≡ e
          → let n : Delivery = record { body = body; handler_works = works } in
            (settle_message R n (settle_message R n d).1).1 ≡ (settle_message R n d).1
      again works e body d read = rw (settle_one works e body d read) (
          ap (λ p. p.1) (settle_one works e body (handled (and_event works e []) d) read)
          ∙ twice works e d)
        where
          twice :
              (works : Bool) (e : Option IncomingEvent) (d : Db)
              → handled (and_event works e []) (handled (and_event works e []) d)
                ≡ handled (and_event works e []) d
          twice false e d = refl
          twice true none d = refl
          twice true (some e) d = ap (λ p. p.1) (handle-handle (some e) d)

  -- A message that is given once more right after a delivery, as one whose answer was lost, leaves the
  -- same database behind, whatever else is delivered before and after.
  pub settle_all-repeated :
      (before : List Delivery) (m : Delivery) (rest : List Delivery) (d : Db)
      → (settle_all R (before ++ m ∷ m ∷ rest) d).1 ≡ (settle_all R (before ++ m ∷ rest) d).1
  unfolding settle_all
  settle_all-repeated [] m rest d = ap (λ e. (settle_all R rest e).1) (settle_message-again m d)
  settle_all-repeated (b ∷ before) m rest d =
      settle_all-repeated before m rest (settle_message R b d).1
