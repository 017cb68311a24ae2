-- ===== src/Reports/Closing.antt =====
-- What closing a case leaves, when it is repeated, and when users-api does not answer.
use udesa_x_posts_api.Common.{
  ℕ, ◌≡◌, refl, String, none, some, true, false, arith, ◌==◌, if◌then◌else◌, List, [], ◌∷◌,
  Bool-cases, inl, inr, ==→eq,
}
use udesa_x_posts_api.Common.Rows.{count, exists, update, count-update, count-update_none}
use udesa_x_posts_api.Common.Action.{ok, problem, transaction, settle, ◌>>=◌}
use udesa_x_posts_api.Models.{ReportStatus}
use udesa_x_posts_api.Models.Equality.{is_undecided}
use udesa_x_posts_api.Database.{Db, ReportRow, Tick}
use udesa_x_posts_api.Outbox.{add_event}
use udesa_x_posts_api.Reports.{
  pending_of, count_distinct, reporters_of, has_pending, close_pending, decided,
}
use udesa_x_posts_api.Reports.Cases.{
  UsersApi, identity_unavailable, release_unavailable, close_case,
}

reporters_of_none :
    (target : ℕ) (rows : List ReportRow)
    → exists (pending_of target) rows ≡ false
    → reporters_of target rows ≡ []
reporters_of_none target [] h = refl
reporters_of_none target (r ∷ rows) h = ground (arith, reporters_of_none target rows)

-- The case is closed: no report about the account is pending, every other
-- account has the pending reports it had, and nobody counts as a reporter of the account.
pub record IsCaseClosed (user : ℕ) (d e : Db) : Type 0 where
  pub pending :
      (other : ℕ)
      → count (pending_of other) e.reports
        ≡ (if other == user then 0 else count (pending_of other) d.reports)
  pub no_reporter : count_distinct (reporters_of user e.reports) ≡ 0

module _ (users_api : UsersApi) (t : Tick) (administrator user : ℕ) (status : ReportStatus)
    (action : String) (d : Db) where
  abbrev closed_reports : List ReportRow
  closed_reports = update (pending_of user) (decided status administrator t.clock) d.reports

  closed_reports-none :
      is_undecided status ≡ false → exists (pending_of user) closed_reports ≡ false
  closed_reports-none closes = ground (
    arith,
    count-update_none (pending_of user) (pending_of user) (decided status administrator t.clock)
        (λ r h. h) (λ r h. ground arith) d.reports,
  )

  closed_reports-pending :
      (other : ℕ)
      → is_undecided status ≡ false
      → count (pending_of other) closed_reports
        ≡ (if other == user then 0 else count (pending_of other) d.reports)
  closed_reports-pending other closes = elim (Bool-cases (other == user)) [
    | inl same ↦
        let user_none = closed_reports-none closes in
        rw same (rw (==→eq other user same) (ground (arith, user_none)))
    | inr apart ↦ rw apart (
        count-update (pending_of other) (pending_of user) (decided status administrator t.clock)
          (λ r h. ground arith) d.reports)
  ]

  -- A case with pending reports is closed when users-api answers both questions.
  pub close_case-IsCaseClosed :
      (email : String)
      → users_api.email_of administrator ≡ some email
      → users_api.lift_review user ≡ true
      → is_undecided status ≡ false
      → exists (pending_of user) d.reports ≡ true
      → ((close_case users_api t administrator user status action d).0 ≡ ok tt)
        × IsCaseClosed user d (close_case users_api t administrator user status action d).1
  unfolding close_case has_pending close_pending add_event ◌>>=◌
  close_case-IsCaseClosed email known lifted closes waiting =
      let some_closed : (count (pending_of user) d.reports == 0) ≡ false = ground arith in
      rw waiting (
        rw known (
          rw some_closed (
            rw lifted (
              refl,
              record {
                pending = λ other. closed_reports-pending other closes;
                no_reporter =
                    rw (reporters_of_none user closed_reports (closed_reports-none closes)) refl;
              },
            ))))

  -- Closing a case that has no pending report returns and changes nothing: no second record of it.
  close_case_closed :
      exists (pending_of user) d.reports ≡ false
      → close_case users_api t administrator user status action d ≡ (ok tt, d)
  unfolding close_case has_pending ◌>>=◌
  close_case_closed none_pending = rw none_pending refl

  -- While users-api does not say who the administrator is, the request ends with its error and
  -- every report stays pending.
  close_case-unidentified :
      exists (pending_of user) d.reports ≡ true
      → users_api.email_of administrator ≡ none
      → transaction (close_case users_api t administrator user status action) d
        ≡ (problem identity_unavailable, d)
  unfolding transaction settle close_case has_pending ◌>>=◌
  close_case-unidentified waiting unknown = rw waiting (rw unknown refl)

  -- While users-api does not lift the review, the request ends with its error and every report
  -- stays pending, although they were closed before the question.
  close_case-unreleased :
      (email : String)
      → exists (pending_of user) d.reports ≡ true
      → users_api.email_of administrator ≡ some email
      → users_api.lift_review user ≡ false
      → transaction (close_case users_api t administrator user status action) d
        ≡ (problem release_unavailable, d)
  unfolding transaction settle close_case has_pending close_pending ◌>>=◌
  close_case-unreleased email waiting known kept =
      let some_closed : (count (pending_of user) d.reports == 0) ≡ false = ground arith in
      rw waiting (rw known (rw some_closed (rw kept refl)))
