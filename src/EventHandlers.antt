-- ===== src/EventHandlers.antt =====
-- The handler of the events that arrive from the queue (api/event_handlers.py), for a message already
-- read, or none; EventHandlers/Parsing reads the bytes of a message.
pub mod Delivery
pub mod Parsing
pub mod Reading
use udesa_x_posts_api.Common.{ℕ, Option, none, some}
use udesa_x_posts_api.Common.Action.{Action, pure, transaction, ◌>>=◌, ◌>>◌}
use udesa_x_posts_api.Database.{Db, FeedLanguage}
use udesa_x_posts_api.UserDeletion.{apply}
use udesa_x_posts_api.FeedLanguage.{apply_language}

-- The account and the instant of the event; a language that this version does not know is none.
pub data IncomingEvent : Type 0 where
  user_deleted : ℕ → ℕ → IncomingEvent
  preferences_changed : ℕ → Option FeedLanguage → ℕ → IncomingEvent

pub data Outcome : Type 0 where
  ack reject : Outcome

-- `_apply_preferences`
unfoldable pub apply_preferences : ℕ → Option FeedLanguage → ℕ → Action Db Outcome
apply_preferences u none at = pure ack
apply_preferences u (some language) at = do transaction (apply_language u language at); pure ack

unfoldable pub handle : Option IncomingEvent → Action Db Outcome
unfolding apply_preferences
handle none = pure reject
handle (some (user_deleted u at)) = do transaction (apply u at); pure ack
handle (some (preferences_changed u language at)) = apply_preferences u language at
