-- ===== src/Database.antt =====
-- The tables of infrastructure/database/models.py: a record for the rows of each, and the
-- database as the rows of all of them. A CHECK that lists the values of a column is its enum.
use udesa_x_posts_api.Common.{ℕ, String, Option, List}
use udesa_x_posts_api.Common.Int.{ℤ}
use udesa_x_posts_api.Models.{ProfileVisibility, FollowRequestStatus, ReportReason, ReportStatus}

pub record UserProfileRow : Type 0 where
  pub id : ℕ
  pub handle : Option String
  pub visibility : ProfileVisibility
  pub followers_count : ℤ
  pub following_count : ℤ
  pub deleted_at : Option ℕ
  pub avatar_key : Option String
  pub cover_key : Option String

pub data FeedLanguage : Type 0 where
  es en all_languages : FeedLanguage

pub record FeedPreferenceRow : Type 0 where
  pub user_id : ℕ
  pub language : FeedLanguage
  pub changed_at : ℕ

pub record FollowRow : Type 0 where
  pub follower_id : ℕ
  pub followee_id : ℕ
  pub created_at : ℕ

pub record FollowRequestRow : Type 0 where
  pub id : ℕ
  pub requester_id : ℕ
  pub target_id : ℕ
  pub status : FollowRequestStatus
  pub created_at : ℕ

pub record BlockRow : Type 0 where
  pub blocker_id : ℕ
  pub blocked_id : ℕ
  pub created_at : ℕ

pub record MuteRow : Type 0 where
  pub muter_id : ℕ
  pub muted_id : ℕ
  pub created_at : ℕ

pub data PostLanguage : Type 0 where
  es en other : PostLanguage

pub record PostRow : Type 0 where
  pub id : ℕ
  pub author_id : ℕ
  pub parent_id : Option ℕ
  pub deleted_at : Option ℕ
  pub content : List ℕ
  pub language : Option PostLanguage
  pub created_at : ℕ
  pub likes_count : ℤ
  pub retweets_count : ℤ
  pub replies_count : ℤ

pub record ReportRow : Type 0 where
  pub id : ℕ
  pub reporter_id : ℕ
  pub target_id : ℕ
  pub post_id : Option ℕ
  pub reason : ReportReason
  pub created_at : ℕ
  pub status : ReportStatus
  pub decided_at : Option ℕ
  pub decided_by : Option ℕ

pub record LikeRow : Type 0 where
  pub user_id : ℕ
  pub post_id : ℕ
  pub created_at : ℕ

pub record RetweetRow : Type 0 where
  pub user_id : ℕ
  pub post_id : ℕ
  pub created_at : ℕ

-- The `data` of the envelopes that this service publishes.
pub data EventData : Type 0 where
  follow_created : ℕ → Option String → ℕ → EventData
  admin_action_recorded : ℕ → String → String → ℕ → ℕ → EventData

pub record OutboxRow : Type 0 where
  pub id : ℕ
  pub type : String
  pub payload : EventData
  pub time : ℕ
  pub created_at : ℕ

-- `PostMediaModel`: an image of a post, whose file is in the storage.
pub record MediaRow : Type 0 where
  pub id : ℕ
  pub post_id : ℕ
  pub position : ℕ
  pub s3_key : String
  pub mime_type : String
  pub size_bytes : ℕ
  pub created_at : ℕ

pub record Db : Type 0 where
  pub profiles : List UserProfileRow
  pub feed_preferences : List FeedPreferenceRow
  pub follows : List FollowRow
  pub follow_requests : List FollowRequestRow
  pub blocks : List BlockRow
  pub mutes : List MuteRow
  pub posts : List PostRow
  pub media : List MediaRow
  pub reports : List ReportRow
  pub likes : List LikeRow
  pub retweets : List RetweetRow
  pub outbox : List OutboxRow

-- What the database and the clock hand to a request: the instant of its transaction (`now()`),
-- the instant that Python reads, the next identifier of a row, and that of an event.
pub record Tick : Type 0 where
  pub now : ℕ
  pub clock : ℕ
  pub row_id : ℕ
  pub event_id : ℕ
