-- ===== src/Grading/Coding.antt =====
-- apps/api/src/api/grading/coding.py: the grade of a code submission, from the run of its tests and the
-- verdict of the complexity probe, which the executor answers. `none` is an exception of the grader.
use interview_helper.Prelude.{
  ℕ, zero, suc, ◌+◌, ◌-◌, ◌*◌, Bool, true, false, ◌&&◌, ◌||◌, not, Option, none, some, List, [],
  ◌∷◌, map, ltb, ◌==◌, if◌then◌else◌, select, any, length,
}
use Prim.Native.String.{String}
use text.Mathlib.Text.{◌==◌ as str_eq}
use interview_helper.Executor.{
  Outcome, is_gradeable, Kind, example, edge, stress, adversarial, other,
}
use interview_helper.Executor.Probe.{Verdict, slower_than_target}
use interview_helper.Sessions.{GradingStatus, graded, ungraded}
use interview_helper.Sessions.Service.{GradingType, tests}
use interview_helper.Grading.Fraction.{Fraction, percent, ratio, times}

-- What the client reads of a run (executor_client.py).
pub record RunResult : Type 0 where
  pub outcome : Outcome
  pub passed : ℕ
  pub total : ℕ
  pub failures : List Kind

-- What the grader reads of an item: of its tests and its probe only whether there are any.
pub record Item : Type 0 where
  pub grading_type : GradingType
  pub languages : List String
  pub has_entrypoint : Bool
  pub has_tests : Bool
  pub is_probed : Bool
  pub primary_concept : ℕ
  pub concepts : List ℕ

pub record Reading : Type 0 where
  pub concept_id : ℕ
  pub score : Fraction
  pub confidence : Fraction

pub record CodingGrade : Type 0 where
  pub status : GradingStatus
  pub outcome : Outcome
  pub score : Option Fraction
  pub passed : ℕ
  pub total : ℕ
  pub hints_revealed : ℕ
  pub complexity : Option Verdict
  pub evidence : List Reading

-- `HINT_PENALTIES[min(level, len(HINT_PENALTIES)) - 1]` in hundredths, of the level after this one
unfoldable pub penalty_after : ℕ → ℕ
penalty_after zero = 5
penalty_after (suc zero) = 10
penalty_after (suc (suc zero)) = 15
penalty_after (suc (suc (suc level))) = 20

unfoldable pub hint_penalty : ℕ → Option ℕ
hint_penalty zero = none
hint_penalty (suc level) = some (penalty_after level)

unfoldable pub hint_retention : ℕ → Fraction
hint_retention zero = ratio 1 1
hint_retention (suc level) = times (hint_retention level) (percent (100 - penalty_after level))

abbrev pub base_confidence : Fraction
base_confidence = percent 90

abbrev pub secondary_confidence : Fraction
secondary_confidence = percent 60

unfoldable pub failure_softness : Kind → ℕ
failure_softness example = 100
failure_softness edge = 90
failure_softness stress = 75
failure_softness adversarial = 60
failure_softness other = 100

unfoldable pub total_softness : List Kind → ℕ
unfolding failure_softness
total_softness [] = 0
total_softness (kind ∷ failures) = failure_softness kind + total_softness failures

unfoldable pub confidence_from : List Kind → Fraction
confidence_from [] = base_confidence
confidence_from (kind ∷ failures) =
    times base_confidence
      (ratio (total_softness (kind ∷ failures)) (length (kind ∷ failures) * 100))

-- `_evidence_for`
unfoldable pub evidence_for : Item → Fraction → Fraction → List Reading
evidence_for item score confidence =
    record { concept_id = item.primary_concept; score = score; confidence = confidence }
    ∷ map
        (λ concept. record {
          concept_id = concept;
          score = score;
          confidence = times confidence secondary_confidence;
        })
        (select (λ concept. not (concept == item.primary_concept)) item.concepts)

-- `RunResult._passed_within_total`: the client refuses any other run.
unfoldable pub is_consistent : RunResult → Bool
is_consistent run = not (ltb run.total run.passed)

abbrev pub is_slower : Option Verdict → Bool
is_slower (some slower_than_target) = true
is_slower _ = false

unfoldable pub complexity_retention : Option Verdict → Fraction
complexity_retention verdict = if is_slower verdict then percent 75 else ratio 1 1

unfoldable pub final_score : ℕ → ℕ → Option Verdict → ℕ → Fraction
final_score passed total verdict hints =
    times (times (ratio passed total) (complexity_retention verdict)) (hint_retention hints)

unfoldable pub failed_grade : RunResult → ℕ → CodingGrade
failed_grade run hints = record {
  status = ungraded;
  outcome = run.outcome;
  score = none;
  passed = run.passed;
  total = run.total;
  hints_revealed = hints;
  complexity = none;
  evidence = [];
}

unfoldable pub scored_grade : Item → RunResult → Option Verdict → ℕ → CodingGrade
scored_grade item run verdict hints =
    let score = final_score run.passed run.total verdict hints in
    record {
      status = graded;
      outcome = run.outcome;
      score = some score;
      passed = run.passed;
      total = run.total;
      hints_revealed = hints;
      complexity = verdict;
      evidence = evidence_for item score (confidence_from run.failures);
    }

-- The grade of a run that the client let through.
unfoldable pub grade_run : Item → RunResult → Verdict → ℕ → CodingGrade
grade_run item run probe hints =
    if not (is_gradeable run.outcome) || run.total == 0
    then failed_grade run hints
    else scored_grade item run (if ltb 0 run.passed && item.is_probed then some probe else none)
        hints

abbrev pub is_tested : GradingType → Bool
is_tested tests = true
is_tested _ = false

-- Can the grader grade a submission in this language?
unfoldable pub accepts : Item → String → Bool
accepts item language =
    is_tested item.grading_type
    && any (str_eq language) item.languages
    && item.has_entrypoint
    && item.has_tests

unfoldable pub grade_coding : Item → String → RunResult → Verdict → ℕ → Option CodingGrade
grade_coding item language run probe hints =
    if accepts item language && is_consistent run
    then some (grade_run item run probe hints)
    else none
