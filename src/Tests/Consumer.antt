-- ===== src/Tests/Consumer.antt =====
-- Messages of the queue: one that closes the account of Bruno, and one that is no event.
use udesa_x_posts_api.Common.{
  ◌≡◌, ◌↔◌, refl, none, some, true, false, List, [], ◌∷◌, map, if◌then◌else◌, ◌==◌,
}
use udesa_x_posts_api.Pagination.Encoding.{aware}
use udesa_x_posts_api.EventHandlers.{user_deleted}
use udesa_x_posts_api.EventHandlers.Parsing.{
  Fields, text, object, field, end, Readers, parse_event, parse_fields,
}
use udesa_x_posts_api.EventHandlers.Reading.{IsMessage, parse_event-IsMessage}
use udesa_x_posts_api.EventConsumer.{Delivery, settle_all}
use udesa_x_posts_api.EventConsumer.Settling.{
  answer, events_of, handled, settle_all-answers, settle_all-repeated,
}
use udesa_x_posts_api.Tests.{acquainted}

abbrev payload : Fields
payload = field "user_id" (text "2") end

abbrev deletion : Fields
deletion = field "specversion" (text "1.0") (
    field "type" (text "user.deleted.v1")
      (field "id" (text "9") (field "time" (text "now") (field "data" (object payload) end))))

-- The byte 1 stands for the deletion; every text is the account 2 and the
-- instant 10.
abbrev two_bodies : Readers
two_bodies = record {
  loads =
      λ body. elim body [ [] ↦ none | b ∷ rest ↦ if b == 1 then some (object deletion) else none ];
  str = λ j. "";
  uuid = λ s. some 2;
  fromisoformat = λ s. some (aware 10);
}

deletion_read : parse_event two_bodies (1 ∷ []) ≡ some (user_deleted 2 10)
unfolding parse_event parse_fields
deletion_read = refl

parse_event-IsMessage_example :
    (parse_event two_bodies (1 ∷ []) ≡ some (user_deleted 2 10))
    ↔ IsMessage two_bodies (1 ∷ []) (user_deleted 2 10)
parse_event-IsMessage_example = parse_event-IsMessage two_bodies (1 ∷ []) (user_deleted 2 10)

-- The handler of the closing fails once, its answer is lost once, and a message that is no event comes
-- in between.
abbrev broken : Delivery
broken = record { body = 1 ∷ []; handler_works = false }

abbrev closing : Delivery
closing = record { body = 1 ∷ []; handler_works = true }

abbrev no_event : Delivery
no_event = record { body = 3 ∷ []; handler_works = true }

abbrev arrivals : List Delivery
arrivals = broken ∷ closing ∷ no_event ∷ closing ∷ []

settle_all-answers_example :
    settle_all two_bodies arrivals acquainted
    ≡ (map (answer two_bodies) arrivals, handled (events_of two_bodies arrivals) acquainted)
settle_all-answers_example = settle_all-answers two_bodies arrivals acquainted

settle_all-repeated_example :
    (settle_all two_bodies (broken ∷ closing ∷ closing ∷ no_event ∷ []) acquainted).1
    ≡ (settle_all two_bodies (broken ∷ closing ∷ no_event ∷ []) acquainted).1
settle_all-repeated_example =
    settle_all-repeated two_bodies (broken ∷ []) closing (no_event ∷ []) acquainted
