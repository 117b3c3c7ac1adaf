-- ===== src/Sessions/Tests.antt =====
-- Concrete sessions: two coding items are planned, one is submitted and graded.
use interview_helper.Prelude.{
  ℕ, ◌+◌, ◌≡◌, refl, ◌⊎◌, true, Option, none, some, List, [], ◌∷◌, ◌++◌, map, count, not, ◌==◌,
  if◌then◌else◌,
}
use interview_helper.Sessions.{
  briefing, interviewing, wrapping, complete, abandoned, graded, ungraded, settled, coding, code,
  Artifact, Grading, Evidence, Interview, artifact_for, artifact_status, grading_for,
  grading_status, item_status, all_terminal, move_to, announce, maybe_complete,
}
use interview_helper.Sessions.Service.{
  CorpusItem, tests, ok, err, wrong_state, create_session, end_session, finish_turn,
  record_submission, store_artifact, submit_to, insert_artifact, choose_language, declared_language,
  first_language, is_declared, current_item, first_open, is_finished,
}
use interview_helper.Sessions.Grades.{
  Attempt, returned, answers, refused, unchecked, checks, is_scored, has_grader, runs_language,
  commit, record_failure, with_grade, record_grade, settle_attempt, grade_item, grade_stored,
  grade_artifact,
}
use interview_helper.Sessions.Waiting.{
  Submission, submits, Reach, created, then_, IsPending, Reach-IsPending, grades,
}
use interview_helper.Sessions.Finals.{IsGraded, complete-IsGraded}
use interview_helper.Sessions.Races.{
  late_submission, late_turn-reopens, late_grading, end_session-once,
}
use interview_helper.Sessions.Reports.{Report, build_report}
use interview_helper.Sessions.Answers.{IsReturned, CannotGrade, grade_artifact-answers}
use interview_helper.Sessions.Scores.{
  newest_of, has_score, lacks_score, is_submitted, build_report-scores,
}
use interview_helper.Sessions.Writes.{Wrote, HasSource, grade_artifact-writes}

abbrev corpus : ℕ → Option CorpusItem
corpus item =
    if item == 7
    then some (record { id = 7; grading_type = tests; languages = "python" ∷ [] })
    else if item == 8
    then some (record { id = 8; grading_type = tests; languages = "python" ∷ "cpp" ∷ [] })
    else none

abbrev add_score : Evidence ℕ → ℕ → ℕ
add_score row projection = projection + row.score

abbrev run_grader : CorpusItem → Artifact → Attempt ℕ
run_grader item a =
    returned (record { status = graded; score = some 75; rows = (3, 75, 90) ∷ (4, 75, 54) ∷ [] })

abbrev opened : Interview ℕ ℕ
opened = record {
  mode = coding;
  plan = 7 ∷ 8 ∷ [];
  status = briefing;
  ended_at = none;
  artifacts = [];
  gradings = [];
  evidence = [];
  turns = [];
  projection = 0;
  published = [];
}

abbrev first_artifact : Artifact
first_artifact = record {
  id = 1;
  item_id = 7;
  kind = code;
  language = some "python";
  content = "pass";
  elapsed_seconds = 60;
}

abbrev first_request : Submission
first_request = record {
  id = 1;
  item_id = 7;
  kind = code;
  content = "pass";
  language = none;
  elapsed = 60;
}

abbrev submitted : Interview ℕ ℕ
submitted = record opened { status = interviewing; artifacts = first_artifact ∷ [] }

abbrev quit : Interview ℕ ℕ
quit = record submitted { status = abandoned; ended_at = some 500 }

-- Both rounds were ended by the interviewer, and the session was abandoned meanwhile.
abbrev quit_rounds : List (Option ℕ)
quit_rounds = some 8 ∷ some 7 ∷ []

reached : Reach corpus add_score run_grader checks submitted
unfolding create_session record_submission submit_to insert_artifact choose_language
    declared_language first_language is_declared store_artifact artifact_for
reached =
    then_ (created {s = opened} coding 0 (7 ∷ 8 ∷ []) (7 ∷ 8 ∷ []) refl)
      (submits {s = opened} {s' = submitted} first_request refl refl)

Reach-IsPending_example : (item : ℕ) × IsPending submitted item
Reach-IsPending_example = Reach-IsPending corpus add_score run_grader submitted reached refl

-- The second submission was read as open, and stored after the session was abandoned.
abbrev late_artifact : Artifact
late_artifact = record {
  id = 2;
  item_id = 8;
  kind = code;
  language = some "cpp";
  content = "int main() {}";
  elapsed_seconds = 90;
}

abbrev quit_with_two : Interview ℕ ℕ
quit_with_two = record quit { artifacts = late_artifact ∷ first_artifact ∷ [] }

stored_late :
    record_submission corpus interviewing 2 8 code "int main() {}" (some "cpp") 90 quit
    ≡ ok quit_with_two
unfolding record_submission submit_to insert_artifact choose_language declared_language is_declared
    store_artifact artifact_for
stored_late = refl

late_submission_example : quit_with_two.status ≡ quit.status
late_submission_example =
    late_submission corpus interviewing 2 8 code "int main() {}" (some "cpp") 90 quit quit_with_two
      refl stored_late

rounds_over : current_item corpus (record quit { turns = quit_rounds ++ quit.turns }) ≡ none
unfolding current_item first_open is_finished
rounds_over = refl

late_turn-reopens_example :
    let late = finish_turn corpus 600 true quit_rounds quit in
    (late.status ≡ wrapping) ⊎ ((late.status ≡ complete) × (late.ended_at ≡ some 600))
late_turn-reopens_example = late_turn-reopens corpus 600 quit_rounds quit rounds_over

stored_then : artifact_for 7 quit.artifacts ≡ some first_artifact
unfolding artifact_for
stored_then = refl

-- The first write of this grading is refused.
late_grading_example :
    let late = grade_artifact add_score corpus refused answers 600 first_artifact run_grader quit in
    (late.status ≡ abandoned)
    × (late.ended_at ≡ some 500)
    × ((g : Grading ℕ) × (older : List (Grading ℕ)) × (late.gradings ≡ g ∷ older)
        × (g.artifact_id ≡ 1)
        × (is_scored g.status g.score ≡ true))
late_grading_example =
    late_grading add_score corpus first_artifact run_grader refused answers 600 quit refl refl
      stored_then

end_session-once_example :
    (ended : Interview ℕ ℕ) × (end_session interviewing 500 submitted ≡ ok ended)
    × (ended.status ≡ abandoned)
    × (ended.ended_at ≡ some 500)
    × (end_session interviewing 501 ended ≡ err wrong_state)
end_session-once_example = end_session-once interviewing interviewing 500 501 submitted refl refl

stored_first : artifact_for 7 submitted.artifacts ≡ some first_artifact
unfolding artifact_for
stored_first = refl

grade_artifact-answers_example :
    let after =
      grade_artifact add_score corpus unchecked answers 300 first_artifact run_grader submitted in
    (g : Grading ℕ) × (older : List (Grading ℕ)) × (after.gradings ≡ g ∷ older)
    × (g.artifact_id ≡ 1)
    × (is_scored g.status g.score ≡ true)
    × (((g.status ≡ ungraded) × CannotGrade add_score corpus first_artifact run_grader unchecked)
        ⊎ IsReturned add_score corpus first_artifact run_grader g)
    × (item_status after 7 ≡ settled g.status)
grade_artifact-answers_example =
    grade_artifact-answers add_score corpus first_artifact run_grader unchecked answers 300
      submitted refl stored_first

grade_artifact-writes_example :
    (rows : List (Evidence ℕ)) × (Wrote add_score rows submitted
        (grade_artifact add_score corpus answers refused 300 first_artifact run_grader submitted)
      × HasSource add_score corpus answers first_artifact run_grader rows)
grade_artifact-writes_example =
    grade_artifact-writes add_score corpus first_artifact run_grader answers refused 300 submitted

abbrev quit_report : Report
quit_report = record {
  items = map (item_status quit) quit.plan;
  graded = 0;
  failed = 0;
  not_attempted = 1;
}

quit_reported : build_report quit ≡ ok quit_report
unfolding build_report item_status artifact_status artifact_for grading_for grading_status
quit_reported = refl

-- A session of one item, which is submitted and graded.
abbrev single : Interview ℕ ℕ
single = record opened { plan = 7 ∷ [] }

abbrev single_submitted : Interview ℕ ℕ
single_submitted = record submitted { plan = 7 ∷ [] }

abbrev single_graded : Interview ℕ ℕ
single_graded =
    grade_artifact add_score corpus answers answers 300 first_artifact run_grader single_submitted

single_reached : Reach corpus add_score run_grader checks single_graded
unfolding create_session record_submission submit_to insert_artifact choose_language
    declared_language first_language is_declared store_artifact artifact_for
single_reached =
    then_
      (then_ (created {s = single} coding 0 (7 ∷ []) (7 ∷ []) refl)
        (submits {s = single} {s' = single_submitted} first_request refl refl))
      (grades {s = single_submitted} 300 answers answers first_artifact refl refl)

single_complete : single_graded.status ≡ complete
unfolding grade_artifact has_grader runs_language settle_attempt is_scored record_grade grade_stored
    grade_item commit with_grade record_failure maybe_complete all_terminal item_status
    artifact_status artifact_for grading_for grading_status move_to announce
single_complete = refl

complete-IsGraded_example : IsGraded single_graded
complete-IsGraded_example =
    complete-IsGraded corpus add_score run_grader checks single_graded single_reached
      single_complete

abbrev single_report : Report
single_report = record { items = settled graded ∷ []; graded = 1; failed = 0; not_attempted = 0 }

single_reported : build_report single_graded ≡ ok single_report
unfolding build_report grade_artifact has_grader runs_language settle_attempt is_scored record_grade
    grade_stored grade_item commit with_grade record_failure maybe_complete all_terminal item_status
    artifact_status artifact_for grading_for grading_status move_to announce
single_reported = refl

build_report-scores_example :
    (single_report.graded
      ≡ count (λ item. has_score (newest_of single_graded item)) single_graded.plan)
    × (single_report.failed
        ≡ count (λ item. lacks_score (newest_of single_graded item)) single_graded.plan)
    × (single_report.not_attempted
        ≡ count (λ item. not (is_submitted single_graded item)) single_graded.plan)
build_report-scores_example =
    build_report-scores corpus add_score run_grader checks single_graded single_report
      single_reached single_reported
