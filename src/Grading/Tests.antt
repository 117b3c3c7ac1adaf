-- ===== src/Grading/Tests.antt =====
-- A submission that passes three tests of four, is slower than its target, and took a hint.
use interview_helper.Prelude.{◌≡◌, refl, true, some, [], ◌∷◌}
use interview_helper.Executor.{ok, adversarial}
use interview_helper.Executor.Probe.{slower_than_target}
use interview_helper.Sessions.Service.{tests}
use interview_helper.Grading.Coding.{
  RunResult, Item, CodingGrade, is_consistent, scored_grade, grade_run, accepts, grade_coding,
}
use interview_helper.Grading.Grades.{IsHonest, grade_coding-IsHonest}

abbrev two_sum : Item
two_sum = record {
  grading_type = tests;
  languages = "python" ∷ [];
  has_entrypoint = true;
  has_tests = true;
  is_probed = true;
  primary_concept = 1;
  concepts = 1 ∷ 2 ∷ [];
}

abbrev partial_run : RunResult
partial_run = record { outcome = ok; passed = 3; total = 4; failures = adversarial ∷ [] }

abbrev partial_grade : CodingGrade
partial_grade = scored_grade two_sum partial_run (some slower_than_target) 1

was_graded : grade_coding two_sum "python" partial_run slower_than_target 1 ≡ some partial_grade
unfolding grade_coding grade_run accepts is_consistent
was_graded = refl

grade_coding-IsHonest_example : IsHonest two_sum partial_run partial_grade
grade_coding-IsHonest_example =
    grade_coding-IsHonest two_sum "python" partial_run slower_than_target 1 partial_grade was_graded
