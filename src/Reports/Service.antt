-- ===== src/Reports/Service.antt =====
-- ReportService (app/services/reports.py).
use udesa_x_posts_api.Common.{ℕ, Option, none, some, is_some, not, ◌==◌, leb}
use udesa_x_posts_api.Common.Action.{
  ProblemError, Action, pure, raise, gets, require, raise_if, when◌run◌otherwise◌, ◌>>=◌, ◌>>◌,
}
use udesa_x_posts_api.Models.{Account, Report, ReportReason}
use udesa_x_posts_api.Database.{Db, Tick}
use udesa_x_posts_api.RateLimiter.{RateLimiter, RateKey, Session, on_db, hit}
use udesa_x_posts_api.Follows.{find_profile, ensure_profile}
use udesa_x_posts_api.Posts.{lock_visible}
use udesa_x_posts_api.Reports.{add_report, distinct_reporters_of}

abbrev pub report_window_seconds : ℕ
report_window_seconds = 86400

abbrev pub review_threshold : ℕ
review_threshold = 6

abbrev pub cannot_report_yourself : ProblemError
cannot_report_yourself = record {
  status = 422;
  code = "cannot-report-yourself";
  title = "No se pudo enviar la denuncia";
  detail = "No podés denunciarte a vos mismo";
  retry_after = none;
}

abbrev pub reported_post_not_found : ProblemError
reported_post_not_found = record {
  status = 404;
  code = "post-not-found";
  title = "No se pudo enviar la denuncia";
  detail = "El post no existe";
  retry_after = none;
}

abbrev pub reported_user_not_found : ProblemError
reported_user_not_found = record {
  status = 404;
  code = "user-not-found";
  title = "No se pudo enviar la denuncia";
  detail = "La cuenta que querés denunciar no existe";
  retry_after = none;
}

abbrev pub already_reported : ℕ → ProblemError
already_reported seconds = record {
  status = 409;
  code = "already-reported";
  title = "No se pudo enviar la denuncia";
  detail = "Ya denunciaste esta cuenta en las últimas 24 horas";
  retry_after = some seconds;
}

-- `ReportService._target_of`: the post decides when there is one.
unfoldable pub target_of : ℕ → Option ℕ → Option ℕ → Action Db ℕ
target_of reporter user (some p) = do
  found ← lock_visible p reporter
  post ← require found reported_post_not_found
  raise_if post.deleted reported_post_not_found
  pure post.author_id
target_of reporter (some user) none = do
  found ← find_profile user
  raise_if (not (is_some found)) reported_user_not_found
  pure user
target_of reporter none none = raise reported_user_not_found

-- `report` up to the limit: everything that decides whom it is about.
unfoldable pub choose_target : Account → Option ℕ → Option ℕ → Action Db ℕ
choose_target reporter user post = do
  ensure_profile reporter
  target ← target_of reporter.id user post
  raise_if (target == reporter.id) cannot_report_yourself
  pure target

module _ (R : RateLimiter) where
  -- `ReportService._charge_the_daily_limit`
  unfoldable pub charge_report : ℕ → ℕ → Action (Session R.State) (Unit {0})
  charge_report reporter target = do
    attempts ← hit R (RateKey.report_rate reporter target) report_window_seconds
    seconds ← gets (λ s. R.seconds_left (RateKey.report_rate reporter target) s.marks)
    raise_if (not (leb attempts 1)) (already_reported seconds)

  unfoldable pub report :
      Tick → Account → ReportReason → Option ℕ → Option ℕ → Action (Session R.State) Report
  report t reporter reason user post = do
    target ← on_db (choose_target reporter user post)
    charge_report reporter.id target
    on_db (add_report t reporter.id target reason post)

-- `review_if_due`, with the request to users-api as an argument: it never raises.
unfoldable pub review_if_due : (ℕ → Action Db (Unit {0})) → ℕ → Action Db (Unit {0})
review_if_due put_under_review target = do
  reporters ← distinct_reporters_of target
  when leb review_threshold reporters run put_under_review target otherwise pure tt
