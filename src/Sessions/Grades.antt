-- ===== src/Sessions/Grades.antt =====
-- `grade_artifact` and its helpers (apps/api/src/api/sessions.py). What a grader does with an artifact
-- is an argument, as are `apply_evidence` of the mastery projection and the failures of the database, of
-- which there can be one in `_grade` and one in `_record_crash`.
use interview_helper.Prelude.{
  ℕ, Bool, true, false, ◌||◌, Option, none, some, List, ◌∷◌, ◌++◌, map, foldl, if◌then◌else◌,
}
use Prim.Native.String.{String}
use text.Mathlib.Text.{◌==◌ as str_eq}
use interview_helper.Sessions.{
  GradingStatus, graded, ungraded, Artifact, Evidence, grading_started, grading_result, Interview,
  announce, maybe_complete,
}
use interview_helper.Sessions.Service.{CorpusItem, GradingType, tests, check, rubric, other}

-- What `_record_grade` reads of a grade.
pub record Grade (V : Type 0) : Type 0 where
  pub status : GradingStatus
  pub score : Option V
  pub rows : List (ℕ × V × V)

-- What comes of running a grader: a grade, one of the exceptions that `_grade` names, or another one.
pub data Attempt (V : Type 0) : Type 0 where
  returned : Grade V → Attempt V
  raised crashed : Attempt V

-- What the database does with a grading: it takes the writes; it fails in the reads that come first; it
-- refuses the row, which is rolled back; or it takes the row and fails in the completion check behind it.
pub data Database : Type 0 where
  answers unread refused unchecked : Database

-- Is a row that is written stored?
abbrev pub takes : Database → Bool
takes answers = true
takes unread = false
takes refused = false
takes unchecked = true

-- Does no completion check get lost?
abbrev pub checks : Database → Bool
checks answers = true
checks unread = true
checks refused = true
checks unchecked = false

abbrev pub is_readable : Database → Bool
is_readable answers = true
is_readable unread = false
is_readable refused = true
is_readable unchecked = true

unfoldable pub runs_language : Option String → Bool
runs_language none = true
runs_language (some l) = str_eq l "" || str_eq l "python" || str_eq l "cpp"

-- The grading types that have a grader, and for `tests` a language the executor takes.
unfoldable pub has_grader : GradingType → Option String → Bool
unfolding runs_language
has_grader tests language = runs_language language
has_grader check language = true
has_grader rubric language = true
has_grader other language = false

module _ {V : Type 0} where
  -- The check constraint of the `gradings` table.
  unfoldable pub is_scored : GradingStatus → Option V → Bool
  is_scored graded (some score) = true
  is_scored ungraded none = true
  is_scored _ _ = false

  abbrev pub evidence_row : ℕ → ℕ × V × V → Evidence V
  evidence_row item row = record {
    concept_id = row.0;
    item_id = item;
    score = row.1;
    confidence = row.2;
  }

module _ {V P : Type 0} where
  -- A commit and the completion check behind it: from the session before the write and the one after it,
  -- the session as it is left, and whether nothing was raised.
  unfoldable pub commit : Database → ℕ → Interview V P → Interview V P → Interview V P × Bool
  commit answers now s t = (maybe_complete now t, true)
  commit unread now s t = (s, false)
  commit refused now s t = (s, false)
  commit unchecked now s t = (t, false)

  unfoldable pub with_failure : Artifact → Interview V P → Interview V P
  unfolding announce
  with_failure a s = announce (grading_result a.item_id ungraded) (record s {
    gradings = record { artifact_id = a.id; status = ungraded; score = none } ∷ s.gradings;
  })

  -- `_record_failure`
  unfoldable pub record_failure : Database → ℕ → Artifact → Interview V P → Interview V P × Bool
  record_failure db now a s = commit db now s (with_failure a s)

module _ {V P : Type 0} (apply_evidence : Evidence V → P → P) where
  unfoldable pub with_grade : Artifact → Grade V → Interview V P → Interview V P
  unfolding announce
  with_grade a grade s =
      let rows = map (evidence_row a.item_id) grade.rows in
      announce (grading_result a.item_id grade.status) (record s {
        gradings =
            record { artifact_id = a.id; status = grade.status; score = grade.score } ∷ s.gradings;
        evidence = s.evidence ++ rows;
        projection = foldl (λ projection row. apply_evidence row projection) s.projection rows;
      })

  -- `_record_grade`: a row that breaks the check constraint is refused.
  unfoldable pub record_grade :
      Database → ℕ → Artifact → Grade V → Interview V P → Interview V P × Bool
  record_grade db now a grade s =
      if is_scored grade.status grade.score
      then commit db now s (with_grade a grade s)
      else (s, false)

  -- `_grade` behind the lookups: an exception that it does not name leaves it.
  unfoldable pub settle_attempt :
      Database → ℕ → Artifact → Attempt V → Interview V P → Interview V P × Bool
  settle_attempt db now a raised s = record_failure db now a s
  settle_attempt db now a crashed s = (s, false)
  settle_attempt db now a (returned grade) s = record_grade db now a grade s

  -- `_grade` once the item is known.
  unfoldable pub grade_item :
      Database
      → ℕ
      → Artifact
      → (CorpusItem → Artifact → Attempt V)
      → CorpusItem
      → Interview V P
      → Interview V P × Bool
  grade_item db now a attempt item s =
      let started = announce (grading_started a.item_id) s in
      if has_grader item.grading_type a.language
      then settle_attempt db now a (attempt item a) started
      else record_failure db now a started

  -- `_grade`, of an artifact that is stored: `attempt` is what the item's grader does with it.
  unfoldable pub grade_stored :
      (ℕ → Option CorpusItem)
      → Database
      → ℕ
      → Artifact
      → (CorpusItem → Artifact → Attempt V)
      → Interview V P
      → Interview V P × Bool
  grade_stored corpus_item db now a attempt s =
      if is_readable db
      then elim (corpus_item a.item_id) [
        | none ↦ record_failure db now a s
        | some item ↦ grade_item db now a attempt item s
      ]
      else (s, false)

  -- `grade_artifact`: what `_grade` raises is recorded by `_record_crash`, which swallows what it raises
  -- itself, so the item stays in "grading" when the second database refuses the row too.
  unfoldable pub grade_artifact :
      (ℕ → Option CorpusItem)
      → Database
      → Database
      → ℕ
      → Artifact
      → (CorpusItem → Artifact → Attempt V)
      → Interview V P
      → Interview V P
  grade_artifact corpus_item first second now a attempt s =
      let tried = grade_stored corpus_item first now a attempt s in
      if tried.1 then tried.0 else (record_failure second now a tried.0).0
