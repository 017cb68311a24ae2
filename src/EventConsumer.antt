-- ===== src/EventConsumer.antt =====
-- The consumer of the queue (infrastructure/rabbitmq/event_consumer.py): `_on_message` and `_settle`.
-- Which message the broker gives next, how often it gives one again and what it does with an answer
-- are its own, so a run is any sequence of deliveries, in the order in which their handlers end. That
-- a dependency of the handler fails is a condition of each delivery. The connections and their
-- retries are left out: they are calls of aio_pika.
pub mod Settling
use udesa_x_posts_api.Common.{ℕ, Bool, true, false, List, [], ◌∷◌}
use udesa_x_posts_api.Common.Action.{Action, Result, ok, problem, crash}
use udesa_x_posts_api.Database.{Db}
use udesa_x_posts_api.EventHandlers.{Outcome, ack, reject}
use udesa_x_posts_api.EventHandlers.Parsing.{Readers, handle_body}

-- What the consumer tells the broker about a message.
pub data Settlement : Type 0 where
  acked rejected requeued : Settlement

-- A delivery of a message, and whether the dependencies of the handler work while it runs.
pub record Delivery : Type 0 where
  pub body : List ℕ
  pub handler_works : Bool

unfoldable pub settlement_of : Result Outcome → Settlement
settlement_of (ok ack) = acked
settlement_of (ok reject) = rejected
settlement_of (problem e) = requeued
settlement_of crash = requeued

module _ (R : Readers) where
  -- The handler, whose transaction does not commit where a dependency fails.
  unfoldable pub attempt : Bool → List ℕ → Action Db Outcome
  unfolding handle_body
  attempt true body d = handle_body R body d
  attempt false body d = (crash, d)

  -- `_settle`
  unfoldable pub settle_message : Delivery → Db → Settlement × Db
  unfolding attempt settlement_of
  settle_message m d =
      let (result, d') = attempt m.handler_works m.body d in (settlement_of result, d')

  -- The answers to a sequence of deliveries, and the database after them.
  unfoldable pub settle_all : List Delivery → Db → List Settlement × Db
  unfolding settle_message
  settle_all [] d = ([], d)
  settle_all (m ∷ deliveries) d =
      let (answer, d') = settle_message m d in
      let (answers, last) = settle_all deliveries d' in (answer ∷ answers, last)
