-- ===== src/OutboxPublisher.antt =====
-- OutboxPublisher (infrastructure/rabbitmq/outbox_publisher.py): the passes that hand the rows of
-- the outbox to the broker. The broker (aio-pika and RabbitMQ) is a parameter. The rows that
-- SKIP LOCKED leaves out, the order of rows of one instant, which `ORDER BY created_at` leaves open,
-- and whether the transaction of a pass commits are conditions that each pass meets.
pub mod AtLeastOnce
pub mod Draining
pub mod Emptying
pub mod Starving
use udesa_x_posts_api.Common.{
  ℕ, zero, suc, ◌+◌, String, Option, none, some, Bool, true, false, not, ◌||◌, ltb, List, [], ◌∷◌,
  take, if◌then◌else◌, ◌==◌, ◌≡◌, refl, ◌⊎◌, inl, inr, length,
}
use udesa_x_posts_api.Common.Rows.{select, delete}
use udesa_x_posts_api.Database.{OutboxRow, EventData}
use udesa_x_posts_api.Pagination.{Listing, order_by}
use udesa_x_posts_api.Pagination.Orders.{by_cursor}

abbrev pub batch_size : ℕ
batch_size = 100

-- The body is the payload, with the instant of the envelope; JSON and UTF-8 are left out.
pub record Message : Type 0 where
  pub body : EventData × ℕ
  pub message_id : ℕ
  pub type : String
  pub routing_key : String

-- What `exchange.publish` ends in: a return, a DeliveryError, or any other exception.
pub data Answer : Type 0 where
  confirmed delivery_error other_error : Answer

pub record Broker : Type 1 where
  pub State : Type 0
  pub publish : Message → State → Answer × State

pub record Conditions : Type 0 where
  pub locked : OutboxRow → Bool
  pub tie : OutboxRow → ℕ
  pub commits : Bool

-- How a pass ends: it returns its two results, or the transaction raises.
pub data Outcome : Type 0 where
  returned : ℕ → Bool → Outcome
  raised : Outcome

pub Answer-cases :
    (a : Answer) → (a ≡ Answer.confirmed) ⊎ ((a ≡ Answer.delivery_error) ⊎ (a ≡ Answer.other_error))
Answer-cases Answer.confirmed = inl refl
Answer-cases Answer.delivery_error = inr (inl refl)
Answer-cases Answer.other_error = inr (inr refl)

-- The rows that are left, and the state of the broker.
pub record Line (S : Type 0) : Type 0 where
  pub outbox : List OutboxRow
  pub sent : S

-- `order_by(OutboxModel.created_at)`
abbrev pub oldest_first : Conditions → Listing
oldest_first c = record {
  Row = OutboxRow;
  order = by_cursor;
  key = λ r. record { at = r.created_at; tiebreak = c.tie r };
  ascending = true;
}

-- `order_by(…).limit(BATCH_SIZE).with_for_update(skip_locked=True)`
unfoldable pub batch : Conditions → List OutboxRow → List OutboxRow
unfolding order_by
batch c outbox = take batch_size (order_by (oldest_first c) (select (λ r. not (c.locked r)) outbox))

unfoldable pub message_of : OutboxRow → Message
message_of row = record {
  body = (row.payload, row.time);
  message_id = row.id;
  type = row.type;
  routing_key = row.type;
}

-- `delete(OutboxModel).where(OutboxModel.id == row.id)`
abbrev pub without : OutboxRow → List OutboxRow → List OutboxRow
without row = delete (λ r. r.id == row.id)

module _ (B : Broker) where
  unfoldable pub publish : OutboxRow → B.State → Answer × B.State
  unfolding message_of
  publish row s = B.publish (message_of row) s

  -- The loop of `publish_batch`: what is left, how many were published, and whether it was cut.
  unfoldable pub publish_rows : List OutboxRow → Line B.State → Line B.State × (ℕ × Bool)
  unfolding publish
  publish_rows [] l = (l, (0, false))
  publish_rows (row ∷ rows) l =
      let (answer, sent) = publish row l.sent in
      elim answer [
        | Answer.confirmed ↦
            let (after, (published, interrupted)) =
              publish_rows rows (record { outbox = without row l.outbox; sent = sent }) in
            (after, (suc published, interrupted))
        | Answer.delivery_error ↦ publish_rows rows (record l { sent = sent })
        | Answer.other_error ↦ (record l { sent = sent }, (0, true))
      ]

  -- `publish_batch`: a transaction that does not commit takes the deletions back, and not the
  -- messages.
  unfoldable pub publish_batch : Conditions → Line B.State → Outcome × Line B.State
  unfolding publish_rows batch
  publish_batch c l =
      let (after, (published, interrupted)) = publish_rows (batch c l.outbox) l in
      if c.commits
      then (Outcome.returned published interrupted, after)
      else (Outcome.raised, record after { outbox = l.outbox })

  -- The test of `drain`: the end of a pass, or what the passes after it end in.
  unfoldable pub or_go_on :
      Outcome → Line B.State → Option (Outcome × Line B.State) → Option (Outcome × Line B.State)
  or_go_on (Outcome.returned published interrupted) after rest =
      if interrupted || ltb published batch_size
      then some (Outcome.returned published interrupted, after)
      else rest
  or_go_on Outcome.raised after rest = some (Outcome.raised, after)

  -- The loop of `drain`, on so many passes; `none` is more passes than that.
  unfoldable pub drain : ℕ → (ℕ → Conditions) → Line B.State → Option (Outcome × Line B.State)
  unfolding publish_batch or_go_on
  drain zero c l = none
  drain (suc n) c l =
      let (outcome, after) = publish_batch (c n) l in or_go_on outcome after (drain n c after)

  -- What `run` goes on with after a drain, also after one that raised.
  unfoldable pub left_by : Option (Outcome × Line B.State) → Line B.State → Line B.State
  left_by none l = l
  left_by (some (outcome, after)) l = after

  -- The loop of `run`, on so many rounds: a drain where `connect` succeeds. A drain has passes
  -- enough, one for each row and one more.
  unfoldable pub run : ℕ → (ℕ → Bool) → (ℕ → ℕ → Conditions) → Line B.State → Line B.State
  unfolding drain left_by
  run zero connects c l = l
  run (suc k) connects c l =
      run k connects c (if connects k then left_by (drain (suc (length l.outbox)) (c k) l) l else l)
