-- ===== src/Grading/Grades.antt =====
-- What a grade of apps/api/src/api/grading/coding.py holds, and that the `gradings` table takes it.
use interview_helper.Prelude.{
  ℕ, ◌≤◌, ◌<◌, ◌≡◌, refl, ◌⊎◌, inl, inr, true, false, ==_iff, ◌&&◌, ◌||◌, not, Option, none, some,
  List, [], ◌∷◌, map, arith, ltb, ◌==◌, select, All, some-injective, none≢some, Bool-cases,
}
use Prim.Native.String.{String}
use interview_helper.Executor.{is_gradeable}
use interview_helper.Executor.Probe.{Verdict}
use interview_helper.Sessions.{graded, ungraded}
use interview_helper.Sessions.Grades.{is_scored}
use interview_helper.Grading.Fraction.{Fraction, IsUnit, times, times-IsUnit}
use interview_helper.Grading.Coding.{
  RunResult, Item, Reading, CodingGrade, secondary_confidence, confidence_from, evidence_for,
  is_consistent, final_score, failed_grade, scored_grade, grade_run, accepts, grade_coding,
}
use interview_helper.Grading.Scores.{confidence_from-IsUnit, final_score-IsUnit}

-- A reading that claims this score, with a confidence between 0 and 1.
abbrev pub IsReading : Fraction → Reading → Type 0
IsReading score row = (row.score ≡ score) × IsUnit row.confidence

-- The run of a failed grade was not counted, or had no test, and the grade claims nothing. The run of a
-- graded one was counted and had tests; the grade has a score between 0 and 1, and evidence of that score,
-- of the primary concept first.
abbrev pub IsHonest : Item → RunResult → CodingGrade → Type 0
IsHonest item run g =
    (((is_gradeable run.outcome ≡ false) ⊎ (run.total ≡ 0))
      × (g.status ≡ ungraded)
      × (g.score ≡ none)
      × (g.evidence ≡ []))
    ⊎ ((is_gradeable run.outcome ≡ true)
        × (0 < run.total)
        × (g.status ≡ graded)
        × ((score : Fraction) × (g.score ≡ some score)
            × IsUnit score
            × ((first : Reading) × (rest : List Reading) × (g.evidence ≡ first ∷ rest)
                × (first.concept_id ≡ item.primary_concept)
                × All (IsReading score) (first ∷ rest))))

secondary-IsUnit : IsUnit secondary_confidence
secondary-IsUnit = record { bounded = omega arith; proper = omega arith }

secondary_rows :
    (item : Item) (score confidence : Fraction) (concepts : List ℕ)
    → IsUnit confidence
    → All (IsReading score) (
        map
          (λ concept. record {
            concept_id = concept;
            score = score;
            confidence = times confidence secondary_confidence;
          })
          concepts)
secondary_rows item score confidence [] unit = tt
secondary_rows item score confidence (concept ∷ concepts) unit = (
  (refl, times-IsUnit confidence secondary_confidence unit secondary-IsUnit),
  secondary_rows item score confidence concepts unit,
)

scored_grade-IsHonest :
    (item : Item) (run : RunResult) (verdict : Option Verdict) (hints : ℕ)
    → run.passed ≤ run.total
    → 0 < run.total
    → is_gradeable run.outcome ≡ true
    → IsHonest item run (scored_grade item run verdict hints)
unfolding scored_grade evidence_for
scored_grade-IsHonest item run verdict hints within some_ counted =
    let score = final_score run.passed run.total verdict hints in
    let unit = confidence_from-IsUnit run.failures in
    inr (
      counted,
      some_,
      refl,
      (
        score,
        refl,
        final_score-IsUnit run.passed run.total verdict hints within some_,
        (
          _,
          _,
          refl,
          refl,
          (
            (refl, unit),
            secondary_rows item score (confidence_from run.failures)
                (select (λ concept. not (concept == item.primary_concept)) item.concepts) unit,
          ),
        ),
      ),
    )

not_counted :
    (run : RunResult)
    → (not (is_gradeable run.outcome) || run.total == 0) ≡ true
    → (is_gradeable run.outcome ≡ false) ⊎ (run.total ≡ 0)
not_counted run failed = elim (Bool-cases (is_gradeable run.outcome)) [
  | inl clean ↦ inr ((==_iff run.total 0).0 (ground (arith, failed, clean)))
  | inr unclean ↦ inl unclean
]

grade_run-IsHonest :
    (item : Item) (run : RunResult) (probe : Verdict) (hints : ℕ)
    → run.passed ≤ run.total
    → IsHonest item run (grade_run item run probe hints)
unfolding grade_run failed_grade
grade_run-IsHonest item run probe hints within =
    elim (Bool-cases (not (is_gradeable run.outcome) || run.total == 0)) [
      | inl failed ↦ rw failed (inl (not_counted run failed, refl, refl, refl))
      | inr counted ↦ rw counted (
          scored_grade-IsHonest item run _ hints within (ground (arith, counted))
            (ground (arith, counted)))
    ]

-- Every grade is honest, whatever the executor answered: it is a failed grading, with no score and no
-- evidence, only of a run that does not count or has no tests, and a score only of a run that counts
-- and has some. That score is between 0 and 1, and the evidence is one reading of exactly that score for
-- the primary concept, then others, with confidences up to 1.
pub grade_coding-IsHonest :
    (item : Item) (language : String) (run : RunResult) (probe : Verdict) (hints : ℕ)
    (g : CodingGrade)
    → grade_coding item language run probe hints ≡ some g
    → IsHonest item run g
unfolding grade_coding is_consistent
grade_coding-IsHonest item language run probe hints g given =
    elim (Bool-cases (accepts item language && not (ltb run.total run.passed))) [
      | inl taken ↦
          rw (← some-injective (rw taken at given))
            (grade_run-IsHonest item run probe hints (ground (arith, taken)))
      | inr refused ↦ absurd (none≢some (rw refused at given))
    ]

-- Every grade of the coding grader meets the check constraint of the table that it is stored in.
pub grade_coding-is_scored :
    (item : Item) (language : String) (run : RunResult) (probe : Verdict) (hints : ℕ)
    (g : CodingGrade)
    → grade_coding item language run probe hints ≡ some g
    → is_scored g.status g.score ≡ true
unfolding is_scored
grade_coding-is_scored item language run probe hints g given =
    elim (grade_coding-IsHonest item language run probe hints g given) [
      | inl failed ↦ rw (failed.1, failed.2) refl
      | inr scored ↦ rw (scored.2, scored.3.1) refl
    ]
