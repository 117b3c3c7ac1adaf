-- ===== src/Sessions/Writes.antt =====
-- What a grading writes beside its own row (apps/api/src/api/sessions.py): the evidence, and with it the
-- mastery projection.
use interview_helper.Prelude.{
  ℕ, true, false, ◌&&◌, ◌≡◌, refl, ◌∙◌, ◌⊎◌, inl, inr, Option, none, some, List, [], ◌++◌, map,
  foldl, append-nil, sym, Bool-cases, Option-cases,
}
use interview_helper.Sessions.{
  Artifact, Evidence, grading_started, Interview, is_completable, all_terminal, announce, move_to,
  maybe_complete,
}
use interview_helper.Sessions.Service.{CorpusItem}
use interview_helper.Sessions.Grades.{
  Grade, Attempt, returned, raised, crashed, Database, answers, unread, refused, unchecked, takes,
  is_readable, has_grader, is_scored, evidence_row, commit, with_failure, record_failure,
  with_grade, record_grade, settle_attempt, grade_item, grade_stored, grade_artifact,
}

module _ {V P : Type 0} where
  pub maybe_complete-writes :
      (now : ℕ) (s : Interview V P)
      → ((maybe_complete now s).evidence ≡ s.evidence)
        × ((maybe_complete now s).projection ≡ s.projection)
  unfolding maybe_complete move_to announce
  maybe_complete-writes now s = elim (Bool-cases (is_completable s.status && all_terminal s)) [
    | inl done ↦ rw done (refl, refl)
    | inr waits ↦ rw waits (refl, refl)
  ]

module _ {V P : Type 0} (apply_evidence : Evidence V → P → P) where
  -- Rows went into the evidence, and into the projection in the same order.
  abbrev pub Wrote : List (Evidence V) → Interview V P → Interview V P → Type 0
  Wrote rows s after =
      (after.evidence ≡ s.evidence ++ rows)
      × (after.projection
          ≡ foldl (λ projection row. apply_evidence row projection) s.projection rows)

  -- Where rows of evidence of a grading may come from: there are none, or they are the rows of an honest grade
  -- that the grader of the artifact's item returned, and the first database takes the row of the grade.
  abbrev pub HasSource :
      (ℕ → Option CorpusItem)
      → Database
      → Artifact
      → (CorpusItem → Artifact → Attempt V)
      → List (Evidence V)
      → Type 0
  HasSource corpus_item db a attempt rows =
      (rows ≡ [])
      ⊎ ((item : CorpusItem) × (grade : Grade V) × (corpus_item a.item_id ≡ some item)
          × (has_grader item.grading_type a.language ≡ true)
          × (attempt item a ≡ returned grade)
          × (is_scored grade.status grade.score ≡ true)
          × (takes db ≡ true)
          × (rows ≡ map (evidence_row a.item_id) grade.rows))

  nothing-Wrote : (s : Interview V P) → Wrote [] s s
  nothing-Wrote s = (sym (append-nil s.evidence), refl)

  -- A write that adds no evidence.
  commit-nothing :
      (db : Database) (now : ℕ) (s t : Interview V P)
      → t.evidence ≡ s.evidence
      → t.projection ≡ s.projection
      → ((commit db now s t).0.evidence ≡ s.evidence)
        × ((commit db now s t).0.projection ≡ s.projection)
  unfolding commit
  commit-nothing answers now s t e p =
      let (evidence, projection) = maybe_complete-writes now t in (evidence ∙ e, projection ∙ p)
  commit-nothing unread now s t e p = (refl, refl)
  commit-nothing refused now s t e p = (refl, refl)
  commit-nothing unchecked now s t e p = (e, p)

  record_failure-nothing :
      (db : Database) (now : ℕ) (a : Artifact) (s : Interview V P)
      → ((record_failure db now a s).0.evidence ≡ s.evidence)
        × ((record_failure db now a s).0.projection ≡ s.projection)
  unfolding record_failure with_failure announce
  record_failure-nothing db now a s = commit-nothing db now s (with_failure a s) refl refl

  module _ (corpus_item : ℕ → Option CorpusItem) (a : Artifact)
      (attempt : CorpusItem → Artifact → Attempt V) where
    abbrev WroteFrom : Database → Interview V P → Interview V P → Type 0
    WroteFrom db s after =
        (rows : List (Evidence V)) × (Wrote rows s after × HasSource corpus_item db a attempt rows)

    failed-WroteFrom :
        (db : Database) (now : ℕ) (s : Interview V P) → WroteFrom db s (record_failure db now a s).0
    failed-WroteFrom db now s =
        let (evidence, projection) = record_failure-nothing db now a s in
        ([], ((evidence ∙ sym (append-nil s.evidence), projection), inl refl))

    commit-WroteFrom :
        (db : Database) (now : ℕ) (item : CorpusItem) (grade : Grade V) (s : Interview V P)
        → corpus_item a.item_id ≡ some item
        → has_grader item.grading_type a.language ≡ true
        → attempt item a ≡ returned grade
        → is_scored grade.status grade.score ≡ true
        → WroteFrom db s (commit db now s (with_grade apply_evidence a grade s)).0
    unfolding commit with_grade announce
    commit-WroteFrom answers now item grade s found runs same honest = (
      map (evidence_row a.item_id) grade.rows,
      (
        maybe_complete-writes now (with_grade apply_evidence a grade s),
        inr (item, grade, found, runs, same, honest, refl, refl),
      ),
    )
    commit-WroteFrom unread now item grade s found runs same honest =
        ([], (nothing-Wrote s, inl refl))
    commit-WroteFrom refused now item grade s found runs same honest =
        ([], (nothing-Wrote s, inl refl))
    commit-WroteFrom unchecked now item grade s found runs same honest = (
      map (evidence_row a.item_id) grade.rows,
      ((refl, refl), inr (item, grade, found, runs, same, honest, refl, refl)),
    )

    settle_attempt-WroteFrom :
        (db : Database) (now : ℕ) (item : CorpusItem) (tried : Attempt V) (s : Interview V P)
        → corpus_item a.item_id ≡ some item
        → has_grader item.grading_type a.language ≡ true
        → attempt item a ≡ tried
        → WroteFrom db s (settle_attempt apply_evidence db now a tried s).0
    unfolding settle_attempt record_grade
    settle_attempt-WroteFrom db now item raised s found runs same = failed-WroteFrom db now s
    settle_attempt-WroteFrom db now item crashed s found runs same =
        ([], (nothing-Wrote s, inl refl))
    settle_attempt-WroteFrom db now item (returned grade) s found runs same =
        elim (Bool-cases (is_scored grade.status grade.score)) [
          | inl honest ↦ rw honest (commit-WroteFrom db now item grade s found runs same honest)
          | inr dishonest ↦ rw dishonest ([], (nothing-Wrote s, inl refl))
        ]

    grade_item-WroteFrom :
        (db : Database) (now : ℕ) (item : CorpusItem) (s : Interview V P)
        → corpus_item a.item_id ≡ some item
        → WroteFrom db s (grade_item apply_evidence db now a attempt item s).0
    unfolding grade_item announce
    grade_item-WroteFrom db now item s found =
        let started = announce (grading_started a.item_id) s in
        elim (Bool-cases (has_grader item.grading_type a.language)) [
          | inl runs ↦
              rw (runs, grade_item)
                (settle_attempt-WroteFrom db now item (attempt item a) started found runs refl)
          | inr cannot ↦ rw (cannot, grade_item) (failed-WroteFrom db now started)
        ]

    grade_stored-gone :
        (db : Database) (now : ℕ) (s : Interview V P)
        → is_readable db ≡ true
        → corpus_item a.item_id ≡ none
        → grade_stored apply_evidence corpus_item db now a attempt s ≡ record_failure db now a s
    unfolding grade_stored
    grade_stored-gone db now s read gone = rw (read, gone, grade_stored) refl

    grade_stored-item :
        (db : Database) (now : ℕ) (item : CorpusItem) (s : Interview V P)
        → is_readable db ≡ true
        → corpus_item a.item_id ≡ some item
        → grade_stored apply_evidence corpus_item db now a attempt s
          ≡ grade_item apply_evidence db now a attempt item s
    unfolding grade_stored
    grade_stored-item db now item s read found = rw (read, found, grade_stored) refl

    grade_stored-unread :
        (db : Database) (now : ℕ) (s : Interview V P)
        → is_readable db ≡ false
        → grade_stored apply_evidence corpus_item db now a attempt s ≡ (s, false)
    unfolding grade_stored
    grade_stored-unread db now s unread_ = rw (unread_, grade_stored) refl

    grade_stored-WroteFrom :
        (db : Database) (now : ℕ) (s : Interview V P)
        → WroteFrom db s (grade_stored apply_evidence corpus_item db now a attempt s).0
    grade_stored-WroteFrom db now s = elim (Bool-cases (is_readable db)) [
      | inr unread_ ↦ rw (grade_stored-unread db now s unread_) ([], (nothing-Wrote s, inl refl))
      | inl read ↦ elim (Option-cases (corpus_item a.item_id)) [
        | inl gone ↦ rw (grade_stored-gone db now s read gone) (failed-WroteFrom db now s)
        | inr (item, found) ↦
            rw (grade_stored-item db now item s read found)
              (grade_item-WroteFrom db now item s found)
      ]
    ]

    -- What a grading adds to the evidence is what the projection is advanced by, in the same order. Rows are
    -- added only if the grader of the artifact's item returned a grade whose score fits its status, and
    -- the database takes it; then they are the rows of that grade. A grading that failed, in the grader
    -- or because the database did not take the grade, and a recorded crash write no evidence.
    pub grade_artifact-writes :
        (first second : Database) (now : ℕ) (s : Interview V P)
        → (rows : List (Evidence V)) × (Wrote rows s
              (grade_artifact apply_evidence corpus_item first second now a attempt s)
            × HasSource corpus_item first a attempt rows)
    unfolding grade_artifact
    grade_artifact-writes first second now s =
        let tried = grade_stored apply_evidence corpus_item first now a attempt s in
        let wrote = grade_stored-WroteFrom first now s in
        let (rows, what) = wrote in
        elim (Bool-cases tried.1) [
          | inl fine ↦ rw (fine, grade_artifact) wrote
          | inr raised_ ↦
              let (evidence, projection) = record_failure-nothing second now a tried.0 in
              rw (raised_, grade_artifact)
                (rows, ((evidence ∙ what.0.0, projection ∙ what.0.1), what.1))
        ]
