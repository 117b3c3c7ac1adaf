-- ===== src/Sessions/Races.antt =====
-- Requests of apps/api/src/api/sessions.py that cross each other: what an operation does to a session
-- whose state is no longer the one that it read.
use interview_helper.Prelude.{
  ℕ, Bool, true, false, ◌&&◌, ◌||◌, ◌≡◌, refl, ◌⊎◌, inl, inr, Option, none, some, List, ◌∷◌, ◌++◌,
  arith, if◌then◌else◌, Bool-cases,
}
use Prim.Native.String.{String}
use interview_helper.Sessions.{
  SessionState, planning, briefing, interviewing, wrapping, grading, failed, complete, abandoned,
  ArtifactKind, Artifact, Grading, artifact_for, Evidence, Interview, is_briefing, is_completable,
  is_reportable, all_terminal, announce, move_to, maybe_complete,
}
use interview_helper.Sessions.Service.{
  CorpusItem, ok, err, wrong_state, end_session, current_item, finish_turn, store_artifact,
  record_submission,
}
use interview_helper.Sessions.Grades.{
  Attempt, Database, takes, is_scored, with_failure, with_grade, grade_artifact,
}
use interview_helper.Sessions.Settling.{IsKept, grade_artifact-Holds}
use interview_helper.Sessions.Answers.{grade_artifact-answers}
use interview_helper.Sessions.Accepted.{record_submission-accepted}

-- A state with a report is not one that a session can finish from.
reportable-not_completable :
    (state : SessionState) → is_reportable state ≡ true → is_completable state ≡ false
reportable-not_completable planning done = refl
reportable-not_completable briefing done = ground (arith, done)
reportable-not_completable interviewing done = ground (arith, done)
reportable-not_completable wrapping done = ground (arith, done)
reportable-not_completable grading done = refl
reportable-not_completable complete done = refl
reportable-not_completable abandoned done = refl
reportable-not_completable failed done = refl

reportable-not_briefing :
    (state : SessionState) → is_reportable state ≡ true → is_briefing state ≡ false
reportable-not_briefing planning done = refl
reportable-not_briefing briefing done = ground (arith, done)
reportable-not_briefing interviewing done = refl
reportable-not_briefing wrapping done = refl
reportable-not_briefing grading done = refl
reportable-not_briefing complete done = refl
reportable-not_briefing abandoned done = refl
reportable-not_briefing failed done = refl

module _ {V P : Type 0} where
  maybe_complete-finished :
      (now : ℕ) (s : Interview V P) → is_completable s.status ≡ false → maybe_complete now s ≡ s
  unfolding maybe_complete
  maybe_complete-finished now s over = rw over refl

  stale_status :
      (seen : SessionState) (a : Artifact) (s : Interview V P)
      → is_reportable s.status ≡ true
      → (store_artifact seen a s).status ≡ s.status
  unfolding store_artifact
  stale_status seen a s done =
      rw (reportable-not_briefing s.status done) (unchanged (is_briefing seen))
    where
      unchanged : (b : Bool) → (if b && false then interviewing else s.status) ≡ s.status
      unchanged true = refl
      unchanged false = refl

  module _ (corpus_item : ℕ → Option CorpusItem) where
    -- A submission whose request read an open session, and which is stored after the session was
    -- finished or abandoned, leaves it in that state, whatever the state that the request read.
    pub late_submission :
        (seen : SessionState) (id item_id : ℕ) (kind : ArtifactKind) (content : String)
        (language : Option String) (elapsed : ℕ) (s s' : Interview V P)
        → is_reportable s.status ≡ true
        → record_submission corpus_item seen id item_id kind content language elapsed s ≡ ok s'
        → s'.status ≡ s.status
    late_submission seen id item_id kind content language elapsed s s' done accepted =
        let (_, _, row) =
          record_submission-accepted corpus_item seen id item_id kind content language elapsed s s'
            accepted in
        let (a, _, _, _, stored) = row in rw stored (stale_status seen a s done)

    -- A turn that ends the last round after the session was finished or abandoned makes it wrapping or
    -- complete again, whatever its state is by then: an abandoned session does not stay abandoned.
    pub late_turn-reopens :
        (now : ℕ) (rows : List (Option ℕ)) (s : Interview V P)
        → current_item corpus_item (record s { turns = rows ++ s.turns }) ≡ none
        → let late = finish_turn corpus_item now true rows s in
          (late.status ≡ wrapping) ⊎ ((late.status ≡ complete) × (late.ended_at ≡ some now))
    unfolding finish_turn maybe_complete move_to announce
    late_turn-reopens now rows s over =
        let wrapped = move_to wrapping (record s { turns = rows ++ s.turns }) in
        rw over (elim (Bool-cases (all_terminal wrapped)) [
          | inl done ↦ rw done (inr (refl, refl))
          | inr waits ↦ rw waits (inl refl)
        ])

  -- In the state of another one, and ended when it was.
  abbrev IsAt : Interview V P → Interview V P → Type 0
  IsAt s t = (t.status ≡ s.status) × (t.ended_at ≡ s.ended_at)

  IsAt-IsKept :
      (apply_evidence : Evidence V → P → P) (now : ℕ) (a : Artifact) (s : Interview V P)
      → is_reportable s.status ≡ true
      → IsKept apply_evidence now a (IsAt s)
  unfolding announce with_failure with_grade
  IsAt-IsKept apply_evidence now a s done = record {
    announcing = λ x t h. h;
    failing = λ t h. h;
    grading = λ grade t honest h. h;
    checking = λ t h.
        let over : is_completable t.status ≡ false =
          rw h.0 (reportable-not_completable s.status done) in
        rw (maybe_complete-finished now t over) h;
  }

  -- A grading that lands after a session was finished or abandoned, whatever comes of it, leaves the session
  -- in that state with the time that it ended. It is stored, if the record of a crash is taken: the newest
  -- grading is of its artifact, with a score exactly when it is "graded".
  pub late_grading :
      (apply_evidence : Evidence V → P → P) (corpus_item : ℕ → Option CorpusItem) (a : Artifact)
      (attempt : CorpusItem → Artifact → Attempt V) (first second : Database) (now : ℕ)
      (s : Interview V P)
      → is_reportable s.status ≡ true
      → takes second ≡ true
      → artifact_for a.item_id s.artifacts ≡ some a
      → let late = grade_artifact apply_evidence corpus_item first second now a attempt s in
        (late.status ≡ s.status)
        × (late.ended_at ≡ s.ended_at)
        × ((g : Grading V) × (older : List (Grading V)) × (late.gradings ≡ g ∷ older)
            × (g.artifact_id ≡ a.id)
            × (is_scored g.status g.score ≡ true))
  late_grading apply_evidence corpus_item a attempt first second now s done stores stored =
      let kept =
        grade_artifact-Holds apply_evidence now a (IsAt s) (IsAt-IsKept apply_evidence now a s done)
          corpus_item first second attempt s (refl, refl) in
      let (g, older, newest, same, scored, _, _) =
        grade_artifact-answers apply_evidence corpus_item a attempt first second now s stores
          stored in
      (kept.0, kept.1, (g, older, newest, same, scored))

  -- Two requests to end a session that has not been finished, the second of which read its state before
  -- the first was served or after: the first one abandons it, and the second is refused.
  pub end_session-once :
      (seen seen' : SessionState) (now now' : ℕ) (s : Interview V P)
      → is_reportable seen ≡ false
      → is_reportable s.status ≡ false
      → (ended : Interview V P) × (end_session seen now s ≡ ok ended)
        × (ended.status ≡ abandoned)
        × (ended.ended_at ≡ some now)
        × (end_session seen' now' ended ≡ err wrong_state)
  unfolding end_session move_to announce
  end_session-once seen seen' now now' s live here = (
    move_to abandoned (record s { ended_at = some now }),
    rw (live, here) refl,
    refl,
    refl,
    again (is_reportable seen'),
  )
    where
      again :
          (b : Bool)
          → (if b || true
              then err wrong_state
              else ok (
                  move_to abandoned (record (move_to abandoned (record s { ended_at = some now })) {
                    ended_at = some now';
                  })))
            ≡ err wrong_state
      again true = refl
      again false = refl
