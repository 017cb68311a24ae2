-- ===== src/Reports/Cases.antt =====
-- ReportCaseService (app/services/report_cases.py) without the inbox's listing.
use udesa_x_posts_api.Common.{ℕ, String, Option, none, Bool, not, ◌==◌}
use udesa_x_posts_api.Common.Action.{
  ProblemError, Action, pure, require, raise_if, when◌run◌otherwise◌, ◌>>=◌, ◌>>◌,
}
use udesa_x_posts_api.Models.{ReportStatus}
use udesa_x_posts_api.Database.{Db, Tick}
use udesa_x_posts_api.Outbox.{admin_action_recorded, add_event}
use udesa_x_posts_api.Reports.{has_pending, close_pending}

-- What users-api answers: the address of an administrator, if it can be reached, and whether the
-- review of an account could be lifted.
pub record UsersApi : Type 0 where
  pub email_of : ℕ → Option String
  pub lift_review : ℕ → Bool

abbrev pub identity_unavailable : ProblemError
identity_unavailable = record {
  status = 503;
  code = "users-api-unavailable";
  title = "No se pudo cerrar el caso";
  detail = "No se pudo obtener la identidad del administrador. Probá de nuevo";
  retry_after = none;
}

abbrev pub release_unavailable : ProblemError
release_unavailable = record {
  status = 503;
  code = "users-api-unavailable";
  title = "No se pudo cerrar el caso";
  detail = "No se pudo levantar la revisión de la cuenta. Probá de nuevo en un momento";
  retry_after = none;
}

module _ (users_api : UsersApi) (t : Tick) where
  -- `ReportCaseService._close`
  unfoldable pub close_case : ℕ → ℕ → ReportStatus → String → Action Db (Unit {0})
  close_case administrator user status action = do
    pending ← has_pending user
    when not pending run pure tt otherwise do
      email ← require (users_api.email_of administrator) identity_unavailable
      closed ← close_pending user status administrator t.clock
      when closed == 0 run pure tt otherwise do
        raise_if (not (users_api.lift_review user)) release_unavailable
        add_event t (admin_action_recorded t administrator email action user closed)

  unfoldable pub dismiss : ℕ → ℕ → Action Db (Unit {0})
  unfolding close_case
  dismiss administrator user =
      close_case administrator user ReportStatus.dismissed "report.dismissed"

  unfoldable pub resolve : ℕ → ℕ → Action Db (Unit {0})
  unfolding close_case
  resolve administrator user = close_case administrator user ReportStatus.resolved "report.resolved"
