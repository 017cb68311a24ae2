-- ===== src/Reports/Limits.antt =====
-- The daily limit on reports, and whom a report is about.
use udesa_x_posts_api.Common.{ℕ, ◌≡◌, refl, Option, false, leb}
use udesa_x_posts_api.Common.Action.{ok, problem, ◌>>=◌}
use udesa_x_posts_api.Models.{Account, ReportReason}
use udesa_x_posts_api.Database.{Db, Tick}
use udesa_x_posts_api.RateLimiter.{RateLimiter, RateKey, Session, on_db, hit, request, end_request}
use udesa_x_posts_api.Reports.Service.{
  choose_target, charge_report, report, already_reported, report_window_seconds,
}

module _ (R : RateLimiter) where
  -- A second report of the account in its window is refused with the seconds that are left, the
  -- database stays as it was, and the attempt stays counted.
  report-limited :
      (t : Tick) (reporter : Account) (reason : ReportReason) (user post : Option ℕ)
      (s : Session R.State) (target : ℕ) (d1 : Db)
      → choose_target reporter user post s.db ≡ (ok target, d1)
      → leb (R.hit (RateKey.report_rate reporter.id target) report_window_seconds s.marks).0 1
        ≡ false
      → let marks =
          (R.hit (RateKey.report_rate reporter.id target) report_window_seconds s.marks).1 in
        request (report R t reporter reason user post) s ≡ (
          problem
              (already_reported (R.seconds_left (RateKey.report_rate reporter.id target) marks)),
          record s { marks = marks },
        )
  unfolding request end_request report charge_report hit on_db ◌>>=◌
  report-limited t reporter reason user post s target d1 chosen over = rw chosen (rw over refl)
