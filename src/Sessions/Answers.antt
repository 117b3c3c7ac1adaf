-- ===== src/Sessions/Answers.antt =====
-- What `grade_artifact` (apps/api/src/api/sessions.py) leaves to read: the newest grading and the status of the
-- item.
use interview_helper.Prelude.{
  ℕ, Bool, true, false, ◌&&◌, ◌≡◌, refl, ◌∙◌, ap, ◌⊎◌, inl, inr, Option, none, some, List, ◌∷◌,
  arith, ==_iff, Bool-cases, Option-cases,
}
use interview_helper.Sessions.{
  ungraded, settled, Artifact, Grading, Evidence, Interview, grading_started, is_completable,
  all_terminal, artifact_for, grading_for, grading_status, artifact_status, item_status, announce,
  move_to, maybe_complete,
}
use interview_helper.Sessions.Service.{CorpusItem}
use interview_helper.Sessions.Grades.{
  Grade, Attempt, returned, raised, crashed, Database, answers, unread, refused, unchecked, takes,
  is_readable, has_grader, is_scored, commit, with_failure, record_failure, with_grade,
  record_grade, settle_attempt, grade_item, grade_stored, grade_artifact,
}

-- Does the database take everything?
abbrev pub is_sound : Database → Bool
is_sound answers = true
is_sound unread = false
is_sound refused = false
is_sound unchecked = false

unsound : (db : Database) → is_readable db ≡ false → is_sound db ≡ false
unsound answers h = absurd (ground (arith, h))
unsound unread h = refl
unsound refused h = refl
unsound unchecked h = refl

module _ {V P : Type 0} where
  maybe_complete-item_status :
      (now : ℕ) (s : Interview V P) (item : ℕ)
      → item_status (maybe_complete now s) item ≡ item_status s item
  unfolding maybe_complete move_to announce item_status
  maybe_complete-item_status now s item =
      elim (Bool-cases (is_completable s.status && all_terminal s)) [
        | inl done ↦ rw done refl
        | inr waits ↦ rw waits refl
      ]

  maybe_complete-gradings :
      (now : ℕ) (s : Interview V P)
      → ((maybe_complete now s).gradings ≡ s.gradings)
        × ((maybe_complete now s).artifacts ≡ s.artifacts)
  unfolding maybe_complete move_to announce
  maybe_complete-gradings now s = elim (Bool-cases (is_completable s.status && all_terminal s)) [
    | inl done ↦ rw done (refl, refl)
    | inr waits ↦ rw waits (refl, refl)
  ]

  newest_status :
      (a : Artifact) (t : Interview V P) (g : Grading V) (older : List (Grading V))
      → artifact_for a.item_id t.artifacts ≡ some a
      → t.gradings ≡ g ∷ older
      → g.artifact_id ≡ a.id
      → item_status t a.item_id ≡ settled g.status
  unfolding item_status artifact_status grading_for grading_status
  newest_status a t g older stored newest same =
      rw (stored, newest, (==_iff g.artifact_id a.id).1 same) refl

module _ {V P : Type 0} (apply_evidence : Evidence V → P → P) (corpus_item : ℕ → Option CorpusItem)
    (a : Artifact) (attempt : CorpusItem → Artifact → Attempt V) where
  -- The grade that the item's grader returned, as the grading has it.
  abbrev pub IsReturned : Grading V → Type 0
  IsReturned g =
      (item : CorpusItem) × (grade : Grade V) × (corpus_item a.item_id ≡ some item)
      × (attempt item a ≡ returned grade)
      × (g.status ≡ grade.status)
      × (g.score ≡ grade.score)

  -- Does the item's grader return a grade whose score fits its status?
  abbrev pub is_usable : Attempt V → Bool
  is_usable raised = false
  is_usable crashed = false
  is_usable (returned grade) = is_scored grade.status grade.score

  -- Why an artifact is not given a grade: the database fails at first, the item is not in the corpus, no
  -- grader takes it, or the grader returns no usable grade.
  pub data CannotGrade (first : Database) : Type 0 where
    no_database : is_sound first ≡ false → CannotGrade first
    no_item : corpus_item a.item_id ≡ none → CannotGrade first
    no_grader :
        (item : CorpusItem)
        → corpus_item a.item_id ≡ some item
        → has_grader item.grading_type a.language ≡ false
        → CannotGrade first
    no_grade :
        (item : CorpusItem)
        → corpus_item a.item_id ≡ some item
        → is_usable (attempt item a) ≡ false
        → CannotGrade first

  -- A grading that was added for the artifact: its score says the same as its status, and it is a failure
  -- with a reason, or what the grader returned. The artifacts are what they were.
  record IsAdded (first : Database) (s t : Interview V P) : Type 0 where
    newest : Grading V
    older : List (Grading V)
    gradings : t.gradings ≡ newest ∷ older
    artifacts : t.artifacts ≡ s.artifacts
    of_artifact : newest.artifact_id ≡ a.id
    scored : is_scored newest.status newest.score ≡ true
    cause : ((newest.status ≡ ungraded) × CannotGrade first) ⊎ IsReturned newest

  failure-IsAdded :
      (first : Database) (s t : Interview V P)
      → t.artifacts ≡ s.artifacts
      → CannotGrade first
      → IsAdded first s (with_failure a t)
  unfolding with_failure announce is_scored
  failure-IsAdded first s t same reason = record {
    newest = record { artifact_id = a.id; status = ungraded; score = none };
    older = t.gradings;
    gradings = refl;
    artifacts = same;
    of_artifact = refl;
    scored = refl;
    cause = inl (refl, reason);
  }

  checked-IsAdded :
      (first : Database) (now : ℕ) (s t : Interview V P)
      → IsAdded first s t
      → IsAdded first s (maybe_complete now t)
  checked-IsAdded first now s t h =
      let (gradings, artifacts) = maybe_complete-gradings now t in
      record {
        newest = h.newest;
        older = h.older;
        gradings = gradings ∙ h.gradings;
        artifacts = artifacts ∙ h.artifacts;
        of_artifact = h.of_artifact;
        scored = h.scored;
        cause = h.cause;
      }

  -- If nothing was raised, the row was stored; otherwise there is a reason. The artifacts are what they were.
  abbrev IsTried : Database → Interview V P → Interview V P × Bool → Type 0
  IsTried first s tried =
      (tried.0.artifacts ≡ s.artifacts)
      × (((tried.1 ≡ false) × CannotGrade first) ⊎ ((tried.1 ≡ true) × IsAdded first s tried.0))

  commit-IsTried :
      (first : Database) (now : ℕ) (s u t : Interview V P)
      → u.artifacts ≡ s.artifacts
      → IsAdded first s t
      → IsTried first s (commit first now u t)
  unfolding commit
  commit-IsTried answers now s u t same h =
      let checked = checked-IsAdded answers now s t h in (checked.artifacts, inr (refl, checked))
  commit-IsTried unread now s u t same h = (same, inl (refl, no_database refl))
  commit-IsTried refused now s u t same h = (same, inl (refl, no_database refl))
  commit-IsTried unchecked now s u t same h = (h.artifacts, inl (refl, no_database refl))

  settle_attempt-IsTried :
      (first : Database) (now : ℕ) (item : CorpusItem) (tried : Attempt V) (s u : Interview V P)
      → corpus_item a.item_id ≡ some item
      → attempt item a ≡ tried
      → u.artifacts ≡ s.artifacts
      → IsTried first s (settle_attempt apply_evidence first now a tried u)
  unfolding settle_attempt record_grade record_failure with_grade announce
  settle_attempt-IsTried first now item raised s u found same kept =
      commit-IsTried first now s u (with_failure a u) kept
        (failure-IsAdded first s u kept (no_grade item found (ap is_usable same)))
  settle_attempt-IsTried first now item crashed s u found same kept =
      (kept, inl (refl, no_grade item found (ap is_usable same)))
  settle_attempt-IsTried first now item (returned grade) s u found same kept =
      elim (Bool-cases (is_scored grade.status grade.score)) [
        | inr dishonest ↦
            rw dishonest (kept, inl (refl, no_grade item found (ap is_usable same ∙ dishonest)))
        | inl honest ↦ rw honest (
            commit-IsTried first now s u (with_grade apply_evidence a grade u) kept (record {
              newest = record { artifact_id = a.id; status = grade.status; score = grade.score };
              older = u.gradings;
              gradings = refl;
              artifacts = kept;
              of_artifact = refl;
              scored = honest;
              cause = inr (item, grade, found, same, refl, refl);
            }))
      ]

  grade_stored-IsTried :
      (first : Database) (now : ℕ) (s : Interview V P)
      → IsTried first s (grade_stored apply_evidence corpus_item first now a attempt s)
  unfolding grade_stored grade_item record_failure announce
  grade_stored-IsTried first now s = elim (Bool-cases (is_readable first)) [
    | inr unread_ ↦
        rw (unread_, grade_stored) (refl, inl (refl, no_database (unsound first unread_)))
    | inl read ↦ elim (Option-cases (corpus_item a.item_id)) [
      | inl gone ↦
          rw (read, gone, grade_stored)
            (commit-IsTried first now s s (with_failure a s) refl
              (failure-IsAdded first s s refl (no_item gone)))
      | inr (item, found) ↦
          let started = announce (grading_started a.item_id) s in
          elim (Bool-cases (has_grader item.grading_type a.language)) [
            | inl runs ↦
                rw (read, found, runs, grade_stored)
                  (settle_attempt-IsTried first now item (attempt item a) s started found refl refl)
            | inr cannot ↦
                rw (read, found, cannot, grade_stored)
                  (commit-IsTried first now s started (with_failure a started) refl
                    (failure-IsAdded first s started refl (no_grader item found cannot)))
          ]
    ]
  ]

  commit-takes :
      (first db : Database) (now : ℕ) (s u t : Interview V P)
      → takes db ≡ true
      → IsAdded first s t
      → IsAdded first s (commit db now u t).0
  unfolding commit
  commit-takes first answers now s u t stores h = checked-IsAdded first now s t h
  commit-takes first unread now s u t stores h = absurd (ground (arith, stores))
  commit-takes first refused now s u t stores h = absurd (ground (arith, stores))
  commit-takes first unchecked now s u t stores h = h

  grade_artifact-IsAdded :
      (first second : Database) (now : ℕ) (s : Interview V P)
      → takes second ≡ true
      → IsAdded first s (grade_artifact apply_evidence corpus_item first second now a attempt s)
  unfolding grade_artifact record_failure
  grade_artifact-IsAdded first second now s stores =
      let tried = grade_stored apply_evidence corpus_item first now a attempt s in
      let (same, added) = grade_stored-IsTried first now s in
      elim added [
        | inr (fine, stored) ↦ rw (fine, grade_artifact) stored
        | inl (raised_, reason) ↦
            rw (raised_, grade_artifact)
              (commit-takes first second now s tried.0 (with_failure a tried.0) stores
                (failure-IsAdded first s tried.0 same reason))
      ]

  -- Whatever its grader does with it and wherever the database fails, a stored artifact is settled when its
  -- grading returns, if at least the record of a crash is taken: the newest grading of the session is of
  -- this artifact, has a score exactly when it is "graded", and its status is that of the item, which does not
  -- stay in "grading". The grading has the status and the score that the item's grader returned; or it is a
  -- failure, and there is a reason: the first database failed, the item is not in the corpus, no grader
  -- takes the submission, or the grader raised or returned a score that does not fit its status.
  pub grade_artifact-answers :
      (first second : Database) (now : ℕ) (s : Interview V P)
      → takes second ≡ true
      → artifact_for a.item_id s.artifacts ≡ some a
      → let after = grade_artifact apply_evidence corpus_item first second now a attempt s in
        (g : Grading V) × (older : List (Grading V)) × (after.gradings ≡ g ∷ older)
        × (g.artifact_id ≡ a.id)
        × (is_scored g.status g.score ≡ true)
        × (((g.status ≡ ungraded) × CannotGrade first) ⊎ IsReturned g)
        × (item_status after a.item_id ≡ settled g.status)
  grade_artifact-answers first second now s stores stored =
      let after = grade_artifact apply_evidence corpus_item first second now a attempt s in
      let h = grade_artifact-IsAdded first second now s stores in
      let found = ap (λ as_. artifact_for a.item_id as_) h.artifacts ∙ stored in
      (
        h.newest,
        h.older,
        h.gradings,
        h.of_artifact,
        h.scored,
        h.cause,
        newest_status a after h.newest h.older found h.gradings h.of_artifact,
      )
