-- ===== src/Reports.antt =====
-- ReportRepository (app/repositories/reports.py) without the inbox's listing.
pub mod Service
pub mod Cases
pub mod Threshold
pub mod Closing
pub mod Limits
use udesa_x_posts_api.Common.{
  ℕ, ◌+◌, Option, none, some, Bool, true, false, ◌&&◌, ◌||◌, not, List, [], ◌∷◌, map, ◌==◌,
  if◌then◌else◌,
}
use udesa_x_posts_api.Common.Rows.{count, exists, select, update}
use udesa_x_posts_api.Common.Action.{Action, Result, ok, pure, gets, modify, crash_if, ◌>>=◌, ◌>>◌}
use udesa_x_posts_api.Models.{Report, ReportReason, ReportStatus}
use udesa_x_posts_api.Models.Equality.{is_undecided}
use udesa_x_posts_api.Database.{Db, ReportRow, Tick}
use udesa_x_posts_api.Follows.{profile_exists}
use udesa_x_posts_api.Posts.{parent_missing}

abbrev pub report_id : ℕ → ReportRow → Bool
report_id i r = r.id == i

-- The pending reports about an account.
abbrev pub pending_of : ℕ → ReportRow → Bool
pending_of target r = r.target_id == target && is_undecided r.status

abbrev pub new_report : Tick → ℕ → ℕ → ReportReason → Option ℕ → ReportRow
new_report t reporter target reason post = record {
  id = t.row_id;
  reporter_id = reporter;
  target_id = target;
  post_id = post;
  reason = reason;
  created_at = t.now;
  status = ReportStatus.pending;
  decided_at = none;
  decided_by = none;
}

unfoldable pub to_report : ReportRow → Report
to_report r = record {
  id = r.id;
  reporter_id = r.reporter_id;
  target_id = r.target_id;
  post_id = r.post_id;
  reason = r.reason;
  created_at = r.created_at;
}

-- The primary key, `ck_reports_not_self` and the three foreign keys; a post that is not there is
-- refused like the missing parent of a reply.
unfoldable pub refuses_report : Tick → ℕ → ℕ → Option ℕ → Db → Bool
refuses_report t reporter target post d =
    exists (report_id t.row_id) d.reports
    || (reporter == target
        || (not (profile_exists reporter d)
            || (not (profile_exists target d) || parent_missing post d)))

-- `ReportRepository.add`
unfoldable pub add_report : Tick → ℕ → ℕ → ReportReason → Option ℕ → Action Db Report
add_report t reporter target reason post = do
  refused ← gets (refuses_report t reporter target post)
  crash_if refused
  modify (λ d. record d { reports = new_report t reporter target reason post ∷ d.reports })
  pure (to_report (new_report t reporter target reason post))

abbrev pub is_among : ℕ → List ℕ → Bool
is_among a [] = false
is_among a (b ∷ bs) = a == b || is_among a bs

-- `count(distinct …)`
abbrev pub count_distinct : List ℕ → ℕ
count_distinct [] = 0
count_distinct (a ∷ bs) = (if is_among a bs then 0 else 1) + count_distinct bs

abbrev pub reporters_of : ℕ → List ReportRow → List ℕ
reporters_of target rows = map (λ r. r.reporter_id) (select (pending_of target) rows)

unfoldable pub distinct_reporters_of : ℕ → Action Db ℕ
distinct_reporters_of target = gets (λ d. count_distinct (reporters_of target d.reports))

unfoldable pub has_pending : ℕ → Action Db Bool
has_pending target = gets (λ d. exists (pending_of target) d.reports)

abbrev pub decided : ReportStatus → ℕ → ℕ → ReportRow → ReportRow
decided status by at r = record r { status = status; decided_by = some by; decided_at = some at }

-- `ReportRepository.close_pending`, and its `rowcount`.
unfoldable pub close_pending : ℕ → ReportStatus → ℕ → ℕ → Action Db ℕ
close_pending target status by at d = (
  ok (count (pending_of target) d.reports),
  record d { reports = update (pending_of target) (decided status by at) d.reports },
)
