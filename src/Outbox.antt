-- ===== src/Outbox.antt =====
-- The outbox: the events that app/events.py builds, and the row that
-- infrastructure/database/outbox_repository.py writes in the transaction of the change.
use udesa_x_posts_api.Common.{ℕ, String, Option, ◌∷◌}
use udesa_x_posts_api.Common.Action.{Action, modify}
use udesa_x_posts_api.Database.{Db, EventData, Tick}

-- What varies in an envelope; `specversion` and `source` are constants.
pub record Event : Type 0 where
  pub id : ℕ
  pub type : String
  pub time : ℕ
  pub payload : EventData

unfoldable pub build_event : Tick → String → EventData → Event
build_event t type payload = record {
  id = t.event_id;
  type = type;
  time = t.clock;
  payload = payload;
}

unfoldable pub follow_created : Tick → ℕ → ℕ → Option String → Event
unfolding build_event
follow_created t follower followee handle =
    build_event t "follow.created.v1" (EventData.follow_created follower handle followee)

unfoldable pub admin_action_recorded : Tick → ℕ → String → String → ℕ → ℕ → Event
unfolding build_event
admin_action_recorded t actor email action target closed =
    build_event t "admin.action_recorded.v1"
      (EventData.admin_action_recorded actor email action target closed)

unfoldable pub add_event : Tick → Event → Action Db (Unit {0})
add_event t e = modify (λ d. record d {
  outbox =
      (record { id = e.id; type = e.type; payload = e.payload; time = e.time; created_at = t.now })
      ∷ d.outbox;
})
