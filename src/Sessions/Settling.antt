-- ===== src/Sessions/Settling.antt =====
-- The steps that a grading is made of (`grade_artifact` and its helpers, apps/api/src/api/sessions.py), and
-- the completion check of one whose database does not fail there.
use interview_helper.Prelude.{ℕ, true, ◌≡◌, inl, inr, Option, arith, Bool-cases, Option-cases}
use interview_helper.Sessions.{
  Artifact, Evidence, grading_started, Announcement, Interview, item_status, all_terminal, announce,
  maybe_complete,
}
use interview_helper.Sessions.Service.{CorpusItem}
use interview_helper.Sessions.Grades.{
  Grade, Attempt, returned, raised, crashed, Database, answers, unread, refused, unchecked, checks,
  is_readable, has_grader, is_scored, commit, with_failure, record_failure, with_grade,
  record_grade, settle_attempt, grade_item, grade_stored, grade_artifact,
}
use interview_helper.Sessions.Outcomes.{IsWaiting, maybe_complete-IsWaiting}

-- What holds of a session and is kept by the single steps of a grading holds when it returns.
pub record IsKept {V P : Type 0} (apply_evidence : Evidence V → P → P) (now : ℕ) (a : Artifact)
    (Holds : Interview V P → Type 0) : Type 0 where
  pub announcing : (x : Announcement) (s : Interview V P) → Holds s → Holds (announce x s)
  pub failing : (s : Interview V P) → Holds s → Holds (with_failure a s)
  pub grading :
      (grade : Grade V) (s : Interview V P)
      → is_scored grade.status grade.score ≡ true
      → Holds s
      → Holds (with_grade apply_evidence a grade s)
  pub checking : (s : Interview V P) → Holds s → Holds (maybe_complete now s)

module _ {V P : Type 0} (apply_evidence : Evidence V → P → P) (now : ℕ) (a : Artifact)
    (Holds : Interview V P → Type 0) (keeps : IsKept apply_evidence now a Holds) where
  commit-Holds :
      (db : Database) (s t : Interview V P) → Holds s → Holds t → Holds (commit db now s t).0
  unfolding commit
  commit-Holds answers s t before after = keeps.checking t after
  commit-Holds unread s t before after = before
  commit-Holds refused s t before after = before
  commit-Holds unchecked s t before after = after

  record_failure-Holds :
      (db : Database) (s : Interview V P) → Holds s → Holds (record_failure db now a s).0
  unfolding record_failure
  record_failure-Holds db s h = commit-Holds db s (with_failure a s) h (keeps.failing s h)

  settle_attempt-Holds :
      (db : Database) (attempt : Attempt V) (s : Interview V P)
      → Holds s
      → Holds (settle_attempt apply_evidence db now a attempt s).0
  unfolding settle_attempt record_grade
  settle_attempt-Holds db raised s h = record_failure-Holds db s h
  settle_attempt-Holds db crashed s h = h
  settle_attempt-Holds db (returned grade) s h =
      elim (Bool-cases (is_scored grade.status grade.score)) [
        | inl honest ↦ rw honest (
            commit-Holds db s (with_grade apply_evidence a grade s) h
              (keeps.grading grade s honest h))
        | inr dishonest ↦ rw dishonest h
      ]

  grade_item-Holds :
      (db : Database) (attempt : CorpusItem → Artifact → Attempt V) (item : CorpusItem)
      (s : Interview V P)
      → Holds s
      → Holds (grade_item apply_evidence db now a attempt item s).0
  unfolding grade_item
  grade_item-Holds db attempt item s h =
      let started = announce (grading_started a.item_id) s in
      let begun = keeps.announcing (grading_started a.item_id) s h in
      elim (Bool-cases (has_grader item.grading_type a.language)) [
        | inl runs ↦ rw runs (settle_attempt-Holds db (attempt item a) started begun)
        | inr cannot ↦ rw cannot (record_failure-Holds db started begun)
      ]

  grade_stored-Holds :
      (corpus_item : ℕ → Option CorpusItem) (db : Database)
      (attempt : CorpusItem → Artifact → Attempt V) (s : Interview V P)
      → Holds s
      → Holds (grade_stored apply_evidence corpus_item db now a attempt s).0
  unfolding grade_stored
  grade_stored-Holds corpus_item db attempt s h = elim (Bool-cases (is_readable db)) [
    | inr unread_ ↦ rw (unread_, grade_stored) h
    | inl read ↦ elim (Option-cases (corpus_item a.item_id)) [
      | inl gone ↦ rw (read, gone, grade_stored) (record_failure-Holds db s h)
      | inr found ↦ rw (read, found.1, grade_stored) (grade_item-Holds db attempt found.0 s h)
    ]
  ]

  pub grade_artifact-Holds :
      (corpus_item : ℕ → Option CorpusItem) (first second : Database)
      (attempt : CorpusItem → Artifact → Attempt V) (s : Interview V P)
      → Holds s
      → Holds (grade_artifact apply_evidence corpus_item first second now a attempt s)
  unfolding grade_artifact
  grade_artifact-Holds corpus_item first second attempt s h =
      let tried = grade_stored apply_evidence corpus_item first now a attempt s in
      let kept = grade_stored-Holds corpus_item first attempt s h in
      elim (Bool-cases tried.1) [
        | inl fine ↦ rw (fine, grade_artifact) kept
        | inr raised_ ↦ rw (raised_, grade_artifact) (record_failure-Holds second tried.0 kept)
      ]

module _ {V P : Type 0} (apply_evidence : Evidence V → P → P) (now : ℕ) (a : Artifact) where
  commit-IsWaiting :
      (db : Database) (s t : Interview V P)
      → checks db ≡ true
      → IsWaiting s
      → IsWaiting (commit db now s t).0
  unfolding commit
  commit-IsWaiting answers s t checked waits = maybe_complete-IsWaiting now t
  commit-IsWaiting unread s t checked waits = waits
  commit-IsWaiting refused s t checked waits = waits
  commit-IsWaiting unchecked s t checked waits = absurd (ground (arith, checked))

  settle_attempt-IsWaiting :
      (db : Database) (attempt : Attempt V) (s : Interview V P)
      → checks db ≡ true
      → IsWaiting s
      → IsWaiting (settle_attempt apply_evidence db now a attempt s).0
  unfolding settle_attempt record_grade record_failure
  settle_attempt-IsWaiting db raised s checked waits = commit-IsWaiting db s _ checked waits
  settle_attempt-IsWaiting db crashed s checked waits = waits
  settle_attempt-IsWaiting db (returned grade) s checked waits =
      elim (Bool-cases (is_scored grade.status grade.score)) [
        | inl honest ↦ rw honest (commit-IsWaiting db s _ checked waits)
        | inr dishonest ↦ rw dishonest waits
      ]

  grade_item-IsWaiting :
      (db : Database) (attempt : CorpusItem → Artifact → Attempt V) (item : CorpusItem)
      (s : Interview V P)
      → checks db ≡ true
      → IsWaiting s
      → IsWaiting (grade_item apply_evidence db now a attempt item s).0
  unfolding grade_item record_failure announce all_terminal item_status
  grade_item-IsWaiting db attempt item s checked waits =
      let started = announce (grading_started a.item_id) s in
      elim (Bool-cases (has_grader item.grading_type a.language)) [
        | inl runs ↦ rw runs (settle_attempt-IsWaiting db (attempt item a) started checked waits)
        | inr cannot ↦ rw cannot (commit-IsWaiting db started _ checked waits)
      ]

  grade_stored-IsWaiting :
      (corpus_item : ℕ → Option CorpusItem) (db : Database)
      (attempt : CorpusItem → Artifact → Attempt V) (s : Interview V P)
      → checks db ≡ true
      → IsWaiting s
      → IsWaiting (grade_stored apply_evidence corpus_item db now a attempt s).0
  unfolding grade_stored record_failure
  grade_stored-IsWaiting corpus_item db attempt s checked waits =
      elim (Bool-cases (is_readable db)) [
        | inr unread_ ↦ rw (unread_, grade_stored) waits
        | inl read ↦ elim (Option-cases (corpus_item a.item_id)) [
          | inl gone ↦ rw (read, gone, grade_stored) (commit-IsWaiting db s _ checked waits)
          | inr found ↦
              rw (read, found.1, grade_stored)
                (grade_item-IsWaiting db attempt found.0 s checked waits)
        ]
      ]

  pub grade_artifact-IsWaiting :
      (corpus_item : ℕ → Option CorpusItem) (first second : Database)
      (attempt : CorpusItem → Artifact → Attempt V) (s : Interview V P)
      → checks first ≡ true
      → checks second ≡ true
      → IsWaiting s
      → IsWaiting (grade_artifact apply_evidence corpus_item first second now a attempt s)
  unfolding grade_artifact record_failure
  grade_artifact-IsWaiting corpus_item first second attempt s checked checked' waits =
      let tried = grade_stored apply_evidence corpus_item first now a attempt s in
      let kept = grade_stored-IsWaiting corpus_item first attempt s checked waits in
      elim (Bool-cases tried.1) [
        | inl fine ↦ rw (fine, grade_artifact) kept
        | inr raised_ ↦
            rw (raised_, grade_artifact) (commit-IsWaiting second tried.0 _ checked' kept)
      ]
