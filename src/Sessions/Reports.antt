-- ===== src/Sessions/Reports.antt =====
-- The counts of `build_report` (apps/api/src/api/sessions.py).
use interview_helper.Prelude.{ℕ, Bool, true, false, List, map, if◌then◌else◌, count}
use interview_helper.Sessions.{
  graded, ungraded, ItemStatus, not_attempted, awaiting_grade, settled, Interview, is_reportable,
  item_status,
}
use interview_helper.Sessions.Service.{Result, ok, err, wrong_state}

abbrev pub is_graded : ItemStatus → Bool
is_graded (settled graded) = true
is_graded _ = false

abbrev pub is_failed : ItemStatus → Bool
is_failed (settled ungraded) = true
is_failed _ = false

abbrev pub is_untouched : ItemStatus → Bool
is_untouched not_attempted = true
is_untouched _ = false

abbrev pub is_awaiting : ItemStatus → Bool
is_awaiting awaiting_grade = true
is_awaiting _ = false

-- The counts of a report.
pub record Report : Type 0 where
  pub items : List ItemStatus
  pub graded : ℕ
  pub failed : ℕ
  pub not_attempted : ℕ

module _ {V P : Type 0} where
  unfoldable pub build_report : Interview V P → Result Report
  build_report s =
      let outcomes = map (item_status s) s.plan in
      if is_reportable s.status
      then ok (record {
        items = outcomes;
        graded = count is_graded outcomes;
        failed = count is_failed outcomes;
        not_attempted = count is_untouched outcomes;
      })
      else err wrong_state
