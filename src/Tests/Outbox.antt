-- ===== src/Tests/Outbox.antt =====
-- Passes of the outbox publisher.
use udesa_x_posts_api.Common.{
  ℕ, zero, suc, ◌≡◌, refl, Bool, true, false, ◌==◌, inl, arith, List, [], ◌∷◌, if◌then◌else◌, some,
  none, ltb, ◌||◌, ◌&&◌,
}
use udesa_x_posts_api.Common.Lists.{All}
use udesa_x_posts_api.Database.{OutboxRow, EventData}
use udesa_x_posts_api.OutboxPublisher.{
  Broker, Answer, Line, Conditions, Outcome, message_of, publish_rows, publish, batch,
  publish_batch, or_go_on, drain, run,
}
use udesa_x_posts_api.Pagination.{order_by}
use udesa_x_posts_api.OutboxPublisher.AtLeastOnce.{Keeps, IsKept, drain-IsKept}
use udesa_x_posts_api.OutboxPublisher.Draining.{drain-ends}
use udesa_x_posts_api.OutboxPublisher.Emptying.{drain-empties}
use udesa_x_posts_api.OutboxPublisher.Starving.{IsRefused, run_refused}

-- A broker that keeps what it gets.
abbrev queue : Broker
queue = record { State = List ℕ; publish = λ m s. (Answer.confirmed, m.message_id ∷ s) }

abbrev queued : ℕ → List ℕ → Bool
queued i [] = false
queued i (x ∷ xs) = (x == i) || queued i xs

queue_keeps : Keeps queue
queue_keeps = record {
  has = queued;
  confirmed_has = λ m s h. ground arith;
  keeps = λ m s i h. ground (arith, h);
}

abbrev event : ℕ → OutboxRow
event n = record {
  id = n;
  type = "follow.created.v1";
  payload = EventData.follow_created 1 none 2;
  time = n;
  created_at = n;
}

abbrev calm : ℕ → Conditions
calm n = record { locked = λ r. false; tie = λ r. r.id; commits = true }

-- The transaction is lost after the messages went out.
abbrev losing : ℕ → Conditions
losing n = record { locked = λ r. r.id == 3; tie = λ r. r.id; commits = false }

abbrev three : Line (List ℕ)
three = record { outbox = event 3 ∷ event 1 ∷ event 2 ∷ []; sent = [] }

drained :
    drain queue 4 calm three
    ≡ some (Outcome.returned 3 false, record { outbox = []; sent = 3 ∷ 2 ∷ 1 ∷ [] })
unfolding drain publish_batch publish_rows publish message_of batch order_by or_go_on
drained = refl

lost :
    drain queue 4 losing three
    ≡ some (Outcome.raised, record { outbox = event 3 ∷ event 1 ∷ event 2 ∷ []; sent = 2 ∷ 1 ∷ [] })
unfolding drain publish_batch publish_rows publish message_of batch order_by or_go_on
lost = refl

drain-IsKept_example :
    IsKept queue queue_keeps 2
      (record { outbox = event 3 ∷ event 1 ∷ event 2 ∷ []; sent = 2 ∷ 1 ∷ [] })
drain-IsKept_example =
    drain-IsKept queue queue_keeps 2 4 losing three (inl refl) Outcome.raised _ lost

drain-ends_example : (ended : Outcome × Line (List ℕ)) × drain queue 4 losing three ≡ some ended
drain-ends_example = drain-ends queue losing three

drain-empties_example :
    (ended : Outcome × Line (List ℕ)) × ((drain queue 4 calm three ≡ some ended)
      × (ended.1.outbox ≡ []))
drain-empties_example =
    drain-empties queue (λ m s. refl) calm three
      (λ k. record { unlocked = λ row. refl; committed = refl })

-- A broker with no queue for the events below a hundred.
abbrev unbound : Broker
unbound = record {
  State = List ℕ;
  publish = λ m s.
      if ltb m.message_id 100
      then (Answer.delivery_error, s)
      else (Answer.confirmed, m.message_id ∷ s);
}

abbrev events : ℕ → ℕ → List OutboxRow
events n zero = []
events n (suc k) = event n ∷ events (suc n) k

-- A hundred events that nobody consumes, and two that somebody does.
abbrev held_back : Line (List ℕ)
held_back = record { outbox = events 0 102; sent = [] }

abbrev all_below : List OutboxRow → Bool
all_below [] = true
all_below (row ∷ rows) = ltb row.id 100 && all_below rows

All-all_below : (rows : List OutboxRow) → all_below rows ≡ true → All (IsRefused unbound) rows
unfolding message_of
All-all_below [] h = tt
All-all_below (row ∷ rows) h =
    let here : ltb row.id 100 ≡ true = ground (arith, h) in
    (λ s. rw here refl, All-all_below rows (ground (arith, h)))

batch_below : all_below (batch (calm 0) (events 0 102)) ≡ true
unfolding batch order_by
batch_below = refl

run_refused_example : (run unbound 5 (λ k. true) (λ k. calm) held_back).outbox ≡ events 0 102
run_refused_example =
    run_refused unbound 5 (λ k. true) (λ k. calm) held_back
      (λ j i. All-all_below (batch (calm 0) (events 0 102)) batch_below)
