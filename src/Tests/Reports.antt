-- ===== src/Tests/Reports.antt =====
-- Runs of the calls on reports and on the language of the feed, and the theorems on them at concrete
-- inputs.
use udesa_x_posts_api.Common.{◌+◌, ◌≡◌, refl, none, some, true, false, [], ◌∷◌, if◌then◌else◌}
use udesa_x_posts_api.Common.Rows.{exists}
use udesa_x_posts_api.Common.Action.{ok, ◌>>=◌}
use udesa_x_posts_api.Common.Action.Rules.{Post}
use udesa_x_posts_api.Models.{ReportReason, ReportStatus}
use udesa_x_posts_api.Database.{Db, FeedLanguage}
use udesa_x_posts_api.Follows.{
  ensure_profile, insert_profile, get_profile, find_profile, live_profile, to_profile,
}
use udesa_x_posts_api.Reports.{new_report, add_report, count_distinct, reporters_of}
use udesa_x_posts_api.Reports.Service.{choose_target, target_of}
use udesa_x_posts_api.Reports.Cases.{UsersApi, close_case}
use udesa_x_posts_api.Reports.Threshold.{pending_by, add_report-distinct}
use udesa_x_posts_api.Reports.Closing.{IsCaseClosed, close_case-IsCaseClosed}
use udesa_x_posts_api.FeedLanguage.{apply_language}
use udesa_x_posts_api.FeedLanguage.Order.{apply_language_comm}
use udesa_x_posts_api.Tests.{at, ana, acquainted}

-- Ana reported Bruno.
abbrev reported : Db
reported = record acquainted { reports = new_report (at 5) 1 2 ReportReason.spam none ∷ [] }

abbrev answering : UsersApi
answering = record { email_of = λ a. some "admin@example.com"; lift_review = λ u. true }

abbrev silent : UsersApi
silent = record { email_of = λ a. none; lift_review = λ u. false }

abbrev stubborn : UsersApi
stubborn = record { email_of = λ a. some "admin@example.com"; lift_review = λ u. false }

add_report-distinct_example :
    Post
      (λ _ e.
        count_distinct (reporters_of 2 e.reports)
        ≡ (if exists (pending_by 1 2) reported.reports then 0 else 1)
          + count_distinct (reporters_of 2 reported.reports))
      (add_report (at 6) 1 2 ReportReason.spam none reported)
add_report-distinct_example = add_report-distinct (at 6) 1 2 ReportReason.spam none reported

close_case-IsCaseClosed_example :
    ((close_case answering (at 9) 50 2 ReportStatus.resolved "report.resolved" reported).0 ≡ ok tt)
    × IsCaseClosed 2 reported
        (close_case answering (at 9) 50 2 ReportStatus.resolved "report.resolved" reported).1
close_case-IsCaseClosed_example =
    close_case-IsCaseClosed answering (at 9) 50 2 ReportStatus.resolved "report.resolved" reported
      "admin@example.com" refl refl refl refl

chosen_bruno : choose_target ana (some 2) none reported ≡ (ok 2, reported)
unfolding choose_target target_of ensure_profile insert_profile get_profile find_profile
    live_profile to_profile ◌>>=◌
chosen_bruno = refl

apply_language_comm_example :
    (apply_language 1 FeedLanguage.en 8 (apply_language 1 FeedLanguage.es 7 acquainted).1).1
    ≡ (apply_language 1 FeedLanguage.es 7 (apply_language 1 FeedLanguage.en 8 acquainted).1).1
apply_language_comm_example =
    apply_language_comm 1 FeedLanguage.es FeedLanguage.en 7 8 acquainted refl
