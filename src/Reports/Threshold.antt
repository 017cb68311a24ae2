-- ===== src/Reports/Threshold.antt =====
-- What a report adds to the count that puts an account under review.
use udesa_x_posts_api.Common.{
  ℕ, ◌+◌, ◌≡◌, refl, Option, Bool, ◌&&◌, arith, ◌==◌, if◌then◌else◌, List, [], ◌∷◌,
}
use udesa_x_posts_api.Common.Rows.{exists}
use udesa_x_posts_api.Models.{ReportReason}
use udesa_x_posts_api.Database.{Db, ReportRow, Tick}
use udesa_x_posts_api.Reports.{pending_of, is_among, count_distinct, reporters_of}
use udesa_x_posts_api.Common.Action.Rules.{Post, post_pure, post_read, post_check, post_write}
use udesa_x_posts_api.Reports.{add_report}

-- A pending report of one account about another.
abbrev pub pending_by : ℕ → ℕ → ReportRow → Bool
pending_by reporter target r = pending_of target r && r.reporter_id == reporter

is_among-reporters_of :
    (reporter target : ℕ) (rows : List ReportRow)
    → is_among reporter (reporters_of target rows) ≡ exists (pending_by reporter target) rows
is_among-reporters_of reporter target [] = refl
is_among-reporters_of reporter target (r ∷ rows) =
    ground (arith, is_among-reporters_of reporter target rows)

-- A stored report brings the account one reporter closer to review if its reporter had no pending
-- report about it, and no closer otherwise, however often they insist.
pub add_report-distinct :
    (t : Tick) (reporter target : ℕ) (reason : ReportReason) (post : Option ℕ) (d : Db)
    → Post
        (λ _ e.
          count_distinct (reporters_of target e.reports)
          ≡ (if exists (pending_by reporter target) d.reports then 0 else 1)
            + count_distinct (reporters_of target d.reports))
        (add_report t reporter target reason post d)
unfolding add_report
add_report-distinct t reporter target reason post d = post_read _ _ d (
    post_check _ _ d λ accepted.
      post_write _ _ d
        (post_pure _ _ (ground (arith, is_among-reporters_of reporter target d.reports))))
