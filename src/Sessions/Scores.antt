-- ===== src/Sessions/Scores.antt =====
-- What the counts of a report (`build_report`, apps/api/src/api/sessions.py) say of the scores that are
-- stored.
use interview_helper.Prelude.{
  ℕ, Bool, true, false, not, ◌&&◌, ◌≡◌, refl, ◌∙◌, ap, inl, inr, Option, none, some, List, [], ◌∷◌,
  ◌++◌, map, arith, ◌==◌, if◌then◌else◌, any, count, All, Bool-cases, Option-cases,
}
use interview_helper.Sessions.{
  SessionState, interviewing, wrapping, abandoned, GradingStatus, graded, ungraded, settled,
  Artifact, Grading, Evidence, Interview, is_briefing, is_reportable, is_completable, artifact_for,
  grading_for, grading_status, artifact_status, item_status, all_terminal, announce, move_to,
  maybe_complete,
}
use interview_helper.Sessions.Service.{CorpusItem, ok, current_item, finish_turn, store_artifact}
use interview_helper.Sessions.Grades.{Attempt, Database, is_scored, with_failure, with_grade}
use interview_helper.Sessions.Settling.{IsKept, grade_artifact-Holds}
use interview_helper.Sessions.Accepted.{
  err≢ok, ok-injective, create_session-accepted, end_session-accepted, begin_turn-accepted,
  record_submission-accepted,
}
use interview_helper.Sessions.Reports.{is_graded, is_failed, is_untouched, Report, build_report}
use interview_helper.Sessions.Waiting.{
  Step, submits, begins, speaks, grades, ends, Reach, created, then_,
}

abbrev pub grading_of : {V : Type 0} → Option Artifact → List (Grading V) → Option (Grading V)
grading_of none gradings = none
grading_of (some a) gradings = grading_for a.id gradings

-- The newest grading of an item's newest submission.
abbrev pub newest_of : {V P : Type 0} → Interview V P → ℕ → Option (Grading V)
newest_of s item = grading_of (artifact_for item s.artifacts) s.gradings

abbrev pub is_some : {A : Type 0} → Option A → Bool
is_some none = false
is_some (some _) = true

abbrev pub has_score : {V : Type 0} → Option (Grading V) → Bool
has_score none = false
has_score (some g) = is_some g.score

abbrev pub lacks_score : {V : Type 0} → Option (Grading V) → Bool
lacks_score none = false
lacks_score (some g) = not (is_some g.score)

abbrev pub is_submitted : {V P : Type 0} → Interview V P → ℕ → Bool
is_submitted s item = any (λ a. a.item_id == item) s.artifacts

module _ {V : Type 0} where
  -- What the check constraint says of every grading that is stored.
  abbrev AreScored : List (Grading V) → Type 0
  AreScored gradings = All (λ g. is_scored g.status g.score ≡ true) gradings

  score_of-status :
      (status : GradingStatus) (score : Option V)
      → is_scored status score ≡ true
      → (is_graded (settled status) ≡ is_some score)
        × (is_failed (settled status) ≡ not (is_some score))
  unfolding is_scored
  score_of-status graded (some score) h = (refl, refl)
  score_of-status ungraded none h = (refl, refl)
  score_of-status graded none h = absurd (ground (arith, h))
  score_of-status ungraded (some score) h = absurd (ground (arith, h))

  grading_for-scores :
      (id : ℕ) (gradings : List (Grading V))
      → AreScored gradings
      → (is_graded (grading_status (grading_for id gradings)) ≡ has_score (grading_for id gradings))
        × (is_failed (grading_status (grading_for id gradings))
            ≡ lacks_score (grading_for id gradings))
        × (is_untouched (grading_status (grading_for id gradings)) ≡ false)
  unfolding grading_for grading_status
  grading_for-scores id [] h = (refl, refl, refl)
  grading_for-scores id (g ∷ gradings) h = elim (Bool-cases (g.artifact_id == id)) [
    | inl here ↦
        let (same, same') = score_of-status g.status g.score h.0 in rw here (same, same', refl)
    | inr other ↦ rw other (grading_for-scores id gradings h.1)
  ]

artifact_status-scores :
    {V : Type 0} (found : Option Artifact) (gradings : List (Grading V))
    → AreScored gradings
    → (is_graded (artifact_status found gradings) ≡ has_score (grading_of found gradings))
      × (is_failed (artifact_status found gradings) ≡ lacks_score (grading_of found gradings))
      × (is_untouched (artifact_status found gradings) ≡ not (is_some found))
unfolding artifact_status
artifact_status-scores none gradings h = (refl, refl, refl)
artifact_status-scores (some a) gradings h = grading_for-scores a.id gradings h

artifact_for-submitted :
    (item : ℕ) (artifacts : List Artifact)
    → is_some (artifact_for item artifacts) ≡ any (λ a. a.item_id == item) artifacts
unfolding artifact_for
artifact_for-submitted item [] = refl
artifact_for-submitted item (a ∷ artifacts) = elim (Bool-cases (a.item_id == item)) [
  | inl here ↦ rw here refl
  | inr other ↦ rw other (artifact_for-submitted item artifacts)
]

count-ext :
    {A : Type 0} (p : A → Bool) (q : ℕ → Bool) (f : ℕ → A) (items : List ℕ)
    → ((item : ℕ) → p (f item) ≡ q item)
    → count p (map f items) ≡ count q items
count-ext p q f [] same = refl
count-ext p q f (item ∷ items) same = rw (same item, count-ext p q f items same) refl

module _ {V P : Type 0} where
  abbrev IsScored : Interview V P → Type 0
  IsScored s = AreScored s.gradings

  item_status-scores :
      (s : Interview V P) (item : ℕ)
      → IsScored s
      → (is_graded (item_status s item) ≡ has_score (newest_of s item))
        × (is_failed (item_status s item) ≡ lacks_score (newest_of s item))
        × (is_untouched (item_status s item) ≡ not (is_submitted s item))
  unfolding item_status
  item_status-scores s item h =
      let (same, same', touched) =
        artifact_status-scores (artifact_for item s.artifacts) s.gradings h in
      (same, same', touched ∙ ap not (artifact_for-submitted item s.artifacts))

  maybe_complete-IsScored :
      (now : ℕ) (s : Interview V P) → IsScored s → IsScored (maybe_complete now s)
  unfolding maybe_complete move_to announce
  maybe_complete-IsScored now s h = elim (Bool-cases (is_completable s.status && all_terminal s)) [
    | inl done ↦ rw done h
    | inr waits ↦ rw waits h
  ]

  start-IsScored :
      (s : Interview V P)
      → IsScored s
      → IsScored (if is_briefing s.status then move_to interviewing s else s)
  unfolding move_to announce
  start-IsScored s h = elim (Bool-cases (is_briefing s.status)) [
    | inl early ↦ rw early h
    | inr later ↦ rw later h
  ]

  finish_turn-IsScored :
      (corpus_item : ℕ → Option CorpusItem) (now : ℕ) (ended : Bool) (rows : List (Option ℕ))
      (s : Interview V P)
      → IsScored s
      → IsScored (finish_turn corpus_item now ended rows s)
  unfolding finish_turn move_to announce
  finish_turn-IsScored corpus_item now false rows s h = h
  finish_turn-IsScored corpus_item now true rows s h =
      let spoken = record s { turns = rows ++ s.turns } in
      elim (Option-cases (current_item corpus_item spoken)) [
        | inl over ↦ rw over (maybe_complete-IsScored now (move_to wrapping spoken) h)
        | inr item ↦ rw item.1 h
      ]

  ended-IsScored :
      (s : Interview V P) (now : ℕ)
      → IsScored s
      → IsScored (move_to abandoned (record s { ended_at = some now }))
  unfolding move_to announce
  ended-IsScored s now h = h

  stored-IsScored :
      (seen : SessionState) (a : Artifact) (s : Interview V P)
      → IsScored s
      → IsScored (store_artifact seen a s)
  unfolding store_artifact
  stored-IsScored seen a s h = h

  IsScored-IsKept :
      (apply_evidence : Evidence V → P → P) (now : ℕ) (a : Artifact)
      → IsKept apply_evidence now a IsScored
  unfolding announce with_failure with_grade is_scored
  IsScored-IsKept apply_evidence now a = record {
    announcing = λ x s h. h;
    failing = λ s h. (refl, h);
    grading = λ grade s honest h. (honest, h);
    checking = maybe_complete-IsScored now;
  }

module _ {V P : Type 0} (corpus_item : ℕ → Option CorpusItem) (apply_evidence : Evidence V → P → P)
    (run_grader : CorpusItem → Artifact → Attempt V) (allowed : Database → Bool) where
  Step-IsScored :
      (s s' : Interview V P)
      → Step corpus_item apply_evidence run_grader allowed s s'
      → IsScored s
      → IsScored s'
  Step-IsScored s s' (submits r fresh accepted) h =
      let (_, _, row) =
        record_submission-accepted corpus_item s.status r.id r.item_id r.kind r.content r.language
          r.elapsed s s' accepted in
      let (a, _, _, _, stored) = row in rw stored (stored-IsScored s.status a s h)
  Step-IsScored s s' (begins accepted) h =
      rw (begin_turn-accepted corpus_item s.status s s' accepted).1 (start-IsScored s h)
  Step-IsScored s s' (speaks now ended rows) h = finish_turn-IsScored corpus_item now ended rows s h
  Step-IsScored s s' (grades now first second a _ _) h =
      grade_artifact-Holds apply_evidence now a IsScored (IsScored-IsKept apply_evidence now a)
        corpus_item first second run_grader s h
  Step-IsScored s s' (ends now accepted) h =
      rw (end_session-accepted s.status now s s' accepted).1 (ended-IsScored s now h)

  Reach-IsScored :
      (s : Interview V P) → Reach corpus_item apply_evidence run_grader allowed s → IsScored s
  Reach-IsScored s (created mode projection plan seeded made) =
      let (_, _, _, empty) = create_session-accepted mode projection plan seeded s made in
      rw empty tt
  Reach-IsScored s (then_ {s = before} reached step) =
      Step-IsScored before s step (Reach-IsScored before reached)

  -- The counts of a report agree with the scores that are stored, for every session that requests and
  -- gradings lead to, each of them served at once and wherever the database fails a grading: of the
  -- planned items, as many are "graded" as have a score in the newest grading of their submission, as
  -- many "failed" as have none there, and as many "not attempted" as have no submission.
  pub build_report-scores :
      (s : Interview V P) (r : Report)
      → Reach corpus_item apply_evidence run_grader allowed s
      → build_report s ≡ ok r
      → (r.graded ≡ count (λ item. has_score (newest_of s item)) s.plan)
        × (r.failed ≡ count (λ item. lacks_score (newest_of s item)) s.plan)
        × (r.not_attempted ≡ count (λ item. not (is_submitted s item)) s.plan)
  unfolding build_report
  build_report-scores s r reached built = elim (Bool-cases (is_reportable s.status)) [
    | inr live ↦ absurd (err≢ok (rw live at built))
    | inl closed ↦
        let made = ok-injective (rw closed at built) in
        let scores = λ (item : ℕ). item_status-scores s item (Reach-IsScored s reached) in
        rw (← made) (
          count-ext is_graded _ (item_status s) s.plan (λ item. (scores item).0),
          count-ext is_failed _ (item_status s) s.plan (λ item. (scores item).1),
          count-ext is_untouched _ (item_status s) s.plan (λ item. (scores item).2),
        )
  ]
