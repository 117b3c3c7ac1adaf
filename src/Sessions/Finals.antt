-- ===== src/Sessions/Finals.antt =====
-- Sessions of apps/api/src/api/sessions.py that are complete, and the gradings of their items.
use interview_helper.Prelude.{
  ℕ, Bool, true, false, ◌&&◌, ◌≡◌, refl, ◌⊎◌, inl, inr, Option, none, some, List, [], ◌∷◌, ◌++◌,
  arith, ◌==◌, if◌then◌else◌, any, all, Bool-cases, Option-cases,
}
use interview_helper.Sessions.{
  SessionState, planning, briefing, interviewing, wrapping, grading, complete, abandoned, failed,
  ItemStatus, not_attempted, awaiting_grade, settled, Artifact, Grading, Evidence, Interview,
  is_open, is_briefing, is_completable, is_terminal, artifact_for, grading_for, grading_status,
  artifact_status, item_status, all_terminal, announce, move_to, maybe_complete,
}
use interview_helper.Sessions.Service.{CorpusItem, current_item, finish_turn, store_artifact}
use interview_helper.Sessions.Grades.{Attempt, Database, with_failure, with_grade}
use interview_helper.Sessions.Settling.{IsKept, grade_artifact-Holds}
use interview_helper.Sessions.Accepted.{
  create_session-accepted, end_session-accepted, begin_turn-accepted, record_submission-accepted,
}
use interview_helper.Sessions.Reports.{is_awaiting}
use interview_helper.Sessions.Waiting.{
  Step, submits, begins, speaks, grades, ends, Reach, created, then_,
}

abbrev is_complete : SessionState → Bool
is_complete complete = true
is_complete _ = false

open_not_complete : (state : SessionState) → is_open state ≡ true → is_complete state ≡ false
open_not_complete complete h = ground (arith, h)
open_not_complete planning h = refl
open_not_complete briefing h = refl
open_not_complete interviewing h = refl
open_not_complete wrapping h = refl
open_not_complete grading h = refl
open_not_complete abandoned h = refl
open_not_complete failed h = refl

terminal_not_awaiting :
    (state : SessionState) (status : ItemStatus)
    → is_terminal state status ≡ true
    → is_awaiting status ≡ false
terminal_not_awaiting state not_attempted h = refl
terminal_not_awaiting state awaiting_grade h = ground (arith, h)
terminal_not_awaiting state (settled _) h = refl

module _ {V : Type 0} where
  one_more_grading :
      (found : Option Artifact) (g : Grading V) (gradings : List (Grading V))
      → is_awaiting (artifact_status found gradings) ≡ false
      → is_awaiting (artifact_status found (g ∷ gradings)) ≡ false
  unfolding artifact_status grading_for grading_status
  one_more_grading none g gradings before = refl
  one_more_grading (some a) g gradings before = elim (Bool-cases (g.artifact_id == a.id)) [
    | inl this ↦ rw this refl
    | inr other ↦ rw other before
  ]

module _ {V P : Type 0} where
  abbrev pub IsGraded : Interview V P → Type 0
  IsGraded s = any (λ item. is_awaiting (item_status s item)) s.plan ≡ false

  -- A session that is complete has no item in grading.
  abbrev IsFinal : Interview V P → Type 0
  IsFinal s = (is_complete s.status ≡ false) ⊎ IsGraded s

  terminal-IsGraded :
      (s : Interview V P) (items : List ℕ)
      → all (λ item. is_terminal s.status (item_status s item)) items ≡ true
      → any (λ item. is_awaiting (item_status s item)) items ≡ false
  terminal-IsGraded s [] done = refl
  terminal-IsGraded s (item ∷ items) done =
      let here : is_terminal s.status (item_status s item) ≡ true = ground (arith, done) in
      let rest : all (λ i. is_terminal s.status (item_status s i)) items ≡ true =
        ground (arith, done) in
      rw (terminal_not_awaiting s.status (item_status s item) here) (terminal-IsGraded s items rest)

  maybe_complete-IsFinal :
      (now : ℕ) (s : Interview V P) → IsFinal s → IsFinal (maybe_complete now s)
  unfolding maybe_complete move_to announce item_status all_terminal
  maybe_complete-IsFinal now s final =
      elim (Bool-cases (is_completable s.status && all_terminal s)) [
        | inl done ↦ rw done (inr (terminal-IsGraded s s.plan (ground (arith, done))))
        | inr waits ↦ rw waits final
      ]

  store_artifact-IsFinal :
      (a : Artifact) (s : Interview V P)
      → is_open s.status ≡ true
      → IsFinal (store_artifact s.status a s)
  unfolding store_artifact
  store_artifact-IsFinal a s open_ = elim (Bool-cases (is_briefing s.status)) [
    | inl early ↦ rw early (inl refl)
    | inr later ↦ rw later (inl (open_not_complete s.status open_))
  ]

  start-IsFinal :
      (s : Interview V P)
      → is_open s.status ≡ true
      → IsFinal (if is_briefing s.status then move_to interviewing s else s)
  unfolding move_to announce
  start-IsFinal s open_ = elim (Bool-cases (is_briefing s.status)) [
    | inl early ↦ rw early (inl refl)
    | inr later ↦ rw later (inl (open_not_complete s.status open_))
  ]

  finish_turn-IsFinal :
      (corpus_item : ℕ → Option CorpusItem) (now : ℕ) (ended : Bool) (rows : List (Option ℕ))
      (s : Interview V P)
      → IsFinal s
      → IsFinal (finish_turn corpus_item now ended rows s)
  unfolding finish_turn item_status move_to announce
  finish_turn-IsFinal corpus_item now false rows s final = final
  finish_turn-IsFinal corpus_item now true rows s final =
      let spoken = record s { turns = rows ++ s.turns } in
      elim (Option-cases (current_item corpus_item spoken)) [
        | inl over ↦ rw over (maybe_complete-IsFinal now (move_to wrapping spoken) (inl refl))
        | inr item ↦ rw item.1 final
      ]

  settled-IsGraded :
      (g : Grading V) (s : Interview V P) (items : List ℕ)
      → any (λ item. is_awaiting (item_status s item)) items ≡ false
      → any (λ item. is_awaiting (item_status (record s { gradings = g ∷ s.gradings }) item)) items
        ≡ false
  unfolding item_status
  settled-IsGraded g s [] before = refl
  settled-IsGraded g s (item ∷ items) before =
      let here : is_awaiting (artifact_status (artifact_for item s.artifacts) s.gradings) ≡ false =
        ground (arith, before) in
      let rest : any (λ i. is_awaiting (item_status s i)) items ≡ false = ground (arith, before) in
      rw (one_more_grading (artifact_for item s.artifacts) g s.gradings here)
        (settled-IsGraded g s items rest)

  abandoned-IsFinal :
      (s : Interview V P) (now : ℕ) → IsFinal (move_to abandoned (record s { ended_at = some now }))
  unfolding move_to announce
  abandoned-IsFinal s now = inl refl

  one_more-IsFinal :
      (g : Grading V) (s : Interview V P)
      → IsFinal s
      → IsFinal (record s { gradings = g ∷ s.gradings })
  one_more-IsFinal g s final = elim final [
    | inl running ↦ inl running
    | inr graded_ ↦ inr (settled-IsGraded g s s.plan graded_)
  ]

  grading-IsKept :
      (apply_evidence : Evidence V → P → P) (now : ℕ) (a : Artifact)
      → IsKept apply_evidence now a IsFinal
  unfolding announce with_failure with_grade item_status
  grading-IsKept apply_evidence now a = record {
    announcing = λ x s final. final;
    failing = λ s final. one_more-IsFinal _ s final;
    grading = λ grade s honest final. one_more-IsFinal _ s final;
    checking = maybe_complete-IsFinal now;
  }

module _ {V P : Type 0} (corpus_item : ℕ → Option CorpusItem) (apply_evidence : Evidence V → P → P)
    (run_grader : CorpusItem → Artifact → Attempt V) (allowed : Database → Bool) where
  Step-IsFinal :
      (s s' : Interview V P)
      → Step corpus_item apply_evidence run_grader allowed s s'
      → IsFinal s
      → IsFinal s'
  Step-IsFinal s s' (submits r fresh accepted) final =
      let (open_, _, row) =
        record_submission-accepted corpus_item s.status r.id r.item_id r.kind r.content r.language
          r.elapsed s s' accepted in
      let (a, _, _, _, stored) = row in rw stored (store_artifact-IsFinal a s open_)
  Step-IsFinal s s' (begins accepted) final =
      let (open_, begun) = begin_turn-accepted corpus_item s.status s s' accepted in
      rw begun (start-IsFinal s open_)
  Step-IsFinal s s' (speaks now ended rows) final =
      finish_turn-IsFinal corpus_item now ended rows s final
  Step-IsFinal s s' (grades now first second a _ _) final =
      grade_artifact-Holds apply_evidence now a IsFinal (grading-IsKept apply_evidence now a)
        corpus_item first second run_grader s final
  Step-IsFinal s s' (ends now accepted) final =
      rw (end_session-accepted s.status now s s' accepted).1 (abandoned-IsFinal s now)

  Reach-IsFinal :
      (s : Interview V P) → Reach corpus_item apply_evidence run_grader allowed s → IsFinal s
  Reach-IsFinal s (created mode projection plan seeded made) =
      let (_, status, _, _) = create_session-accepted mode projection plan seeded s made in
      inl (rw status refl)
  Reach-IsFinal s (then_ {s = before} reached step) =
      Step-IsFinal before s step (Reach-IsFinal before reached)

  -- However requests and gradings follow each other, each of them served at once, and wherever the
  -- database fails a grading, a session that is complete has no submission whose grading is still to come.
  pub complete-IsGraded :
      (s : Interview V P)
      → Reach corpus_item apply_evidence run_grader allowed s
      → s.status ≡ complete
      → IsGraded s
  complete-IsGraded s reached done = elim (Reach-IsFinal s reached) [
    | inl running ↦ ground (arith, running, (rw done at running))
    | inr graded_ ↦ graded_
  ]
