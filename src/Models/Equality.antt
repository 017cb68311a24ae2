-- ===== src/Models/Equality.antt =====
-- The comparisons of enum values, and the properties `needs_approval` and `is_pending`.
use udesa_x_posts_api.Common.{Bool, true, false}
use udesa_x_posts_api.Models.{
  ProfileVisibility, FollowRequestStatus, ReportStatus, UserProfile, FollowRequest,
}

abbrev pub is_protected : ProfileVisibility → Bool
is_protected ProfileVisibility.protected = true
is_protected ProfileVisibility.public = false

abbrev pub same_visibility : ProfileVisibility → ProfileVisibility → Bool
same_visibility ProfileVisibility.public ProfileVisibility.public = true
same_visibility ProfileVisibility.protected ProfileVisibility.protected = true
same_visibility _ _ = false

abbrev pub is_open : FollowRequestStatus → Bool
is_open FollowRequestStatus.pending = true
is_open _ = false

abbrev pub is_undecided : ReportStatus → Bool
is_undecided ReportStatus.pending = true
is_undecided _ = false

abbrev pub needs_approval : UserProfile → Bool
needs_approval p = is_protected p.visibility

abbrev pub is_pending : FollowRequest → Bool
is_pending r = is_open r.status
