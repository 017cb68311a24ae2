-- ===== src/Models.antt =====
-- The dataclasses and enums of app/models/follow.py, app/models/report.py and app/models/post.py.
-- Identifiers (UUIDs) are numbers, since they are only compared and ordered, and so are instants.
pub mod Equality
use udesa_x_posts_api.Common.{ℕ, String, Option, none, Bool, List}
use udesa_x_posts_api.Common.Int.{ℤ}

pub data ProfileVisibility : Type 0 where
  public protected : ProfileVisibility

pub data FollowRequestStatus : Type 0 where
  pending approved rejected cancelled : FollowRequestStatus

pub data ReportReason : Type 0 where
  spam harassment inappropriate_content impersonation : ReportReason

pub data ReportStatus : Type 0 where
  pending dismissed resolved : ReportStatus

pub record Account : Type 0 where
  pub id : ℕ
  pub handle : Option String
  pub profile_visibility : Option ProfileVisibility

pub record UserProfile : Type 0 where
  pub id : ℕ
  pub handle : Option String
  pub visibility : ProfileVisibility
  pub followers_count : ℤ
  pub following_count : ℤ
  pub avatar_key : Option String
  pub cover_key : Option String

pub record FollowRequest : Type 0 where
  pub requester_id : ℕ
  pub target_id : ℕ
  pub id : ℕ
  pub status : FollowRequestStatus
  pub created_at : ℕ

pub record Report : Type 0 where
  pub id : ℕ
  pub reporter_id : ℕ
  pub target_id : ℕ
  pub post_id : Option ℕ
  pub reason : ReportReason
  pub created_at : ℕ

-- The content is its code points. The image URLs are signed after the read, and are left out.
pub record Post : Type 0 where
  pub id : ℕ
  pub author_id : ℕ
  pub content : List ℕ
  pub created_at : ℕ
  pub likes_count : ℤ
  pub retweets_count : ℤ
  pub replies_count : ℤ
  pub parent_id : Option ℕ

pub record PostWithAuthor : Type 0 where
  pub id : ℕ
  pub author_id : ℕ
  pub author_handle : Option String
  pub content : Option (List ℕ)
  pub created_at : ℕ
  pub likes_count : ℤ
  pub retweets_count : ℤ
  pub replies_count : ℤ
  pub deleted : Bool
  pub parent_id : Option ℕ
  pub liked_by_me : Bool
  pub retweeted_by_me : Bool
  pub author_deleted : Bool
  pub author_avatar_key : Option String
