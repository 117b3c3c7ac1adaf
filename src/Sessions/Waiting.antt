-- ===== src/Sessions/Waiting.antt =====
-- Sessions of apps/api/src/api/sessions.py under requests that are served one after the other, and what
-- an unfinished one waits for.
use interview_helper.Prelude.{
  ℕ, Bool, true, false, ◌≡◌, refl, ◌⊎◌, inl, inr, Option, List, [], ◌∷◌, ◌++◌, arith, ◌==◌,
  if◌then◌else◌, any, all, ==_iff, Option-cases, Bool-cases,
}
use Prim.Native.String.{String}
use interview_helper.Sessions.{
  SessionState, ItemStatus, settled, is_open, not_attempted, awaiting_grade, grading_status,
  artifact_status, briefing, interviewing, planning, wrapping, grading, complete, abandoned, failed,
  Mode, ArtifactKind, Artifact, Interview, is_briefing, is_completable, is_terminal, item_status,
  artifact_for, all_terminal, Evidence, move_to, announce,
}
use interview_helper.Sessions.Service.{
  CorpusItem, current_item, Result, ok, is_empty, create_session, end_session, begin_turn,
  take_turn, finish_turn, store_artifact, record_submission,
}
use interview_helper.Sessions.Grades.{Attempt, Database, checks, grade_artifact}
use interview_helper.Sessions.Settling.{grade_artifact-IsWaiting}
use interview_helper.Sessions.Accepted.{
  Result-cases, err≢ok, ok-injective, create_session-accepted, end_session-accepted,
  begin_turn-accepted, record_submission-accepted,
}
use interview_helper.Sessions.Outcomes.{
  IsWaiting, maybe_complete-IsWaiting, all-refuted, grading_for-fresh, and_false, all-ext,
  interviewing-is_terminal,
}

module _ {V P : Type 0} where
  untouched : (item : ℕ) (s : Interview V P) → s.artifacts ≡ [] → item_status s item ≡ not_attempted
  unfolding item_status artifact_status artifact_for
  untouched item s empty = rw empty refl

  nothing_terminal :
      (items : List ℕ) (s : Interview V P)
      → is_empty items ≡ false
      → s.status ≡ briefing
      → s.artifacts ≡ []
      → all (λ item. is_terminal s.status (item_status s item)) items ≡ false
  unfolding item_status
  nothing_terminal [] s planned status empty = ground (arith, planned)
  nothing_terminal (item ∷ items) s planned status empty = rw (status, untouched item s empty) refl

  create_session-IsWaiting :
      (mode : Mode) (projection : P) (plan seeded : List ℕ) (s : Interview V P)
      → create_session mode projection plan seeded ≡ ok s
      → IsWaiting s
  unfolding all_terminal
  create_session-IsWaiting mode projection plan seeded s accepted =
      let (planned, status, artifacts, gradings) =
        create_session-accepted mode projection plan seeded s accepted in
      and_false (is_completable s.status) (all_terminal s)
        (nothing_terminal s.plan s planned status artifacts)

  end_session-IsWaiting :
      (seen : SessionState) (now : ℕ) (s s' : Interview V P)
      → end_session seen now s ≡ ok s'
      → IsWaiting s'
  unfolding move_to announce
  end_session-IsWaiting seen now s s' accepted =
      rw (end_session-accepted seen now s s' accepted).1 refl

  start-IsWaiting :
      (s : Interview V P)
      → IsWaiting s
      → IsWaiting (if is_briefing s.status then move_to interviewing s else s)
  unfolding move_to announce all_terminal item_status
  start-IsWaiting s waits = start s.status waits
    where
      start :
          (state : SessionState)
          → IsWaiting (record s { status = state })
          → IsWaiting (
              if is_briefing state
              then move_to interviewing (record s { status = state })
              else record s { status = state })
      start briefing waits =
          rw
            (← all-ext (λ i. is_terminal briefing (item_status s i))
              (λ i. is_terminal interviewing (item_status s i)) s.plan
              (λ i. interviewing-is_terminal (item_status s i)))
            waits
      start planning waits = waits
      start interviewing waits = waits
      start wrapping waits = waits
      start grading waits = waits
      start complete waits = waits
      start abandoned waits = waits
      start failed waits = waits

  submitted_item :
      (item_id : ℕ) (a : Artifact) (seen : SessionState) (s : Interview V P)
      → a.item_id ≡ item_id
      → any (λ g. g.artifact_id == a.id) s.gradings ≡ false
      → item_status (store_artifact seen a s) item_id ≡ awaiting_grade
  unfolding item_status artifact_status artifact_for store_artifact grading_status
  submitted_item item_id a seen s same fresh =
      rw ((==_iff a.item_id item_id).1 same, grading_for-fresh a.id s.gradings fresh) refl

  store_artifact-IsWaiting :
      (item_id : ℕ) (a : Artifact) (seen : SessionState) (s : Interview V P)
      → a.item_id ≡ item_id
      → any (λ planned. planned == item_id) s.plan ≡ true
      → any (λ g. g.artifact_id == a.id) s.gradings ≡ false
      → IsWaiting (store_artifact seen a s)
  unfolding all_terminal store_artifact
  store_artifact-IsWaiting item_id a seen s same planned fresh =
      let stored = store_artifact seen a s in
      and_false (is_completable stored.status) (all_terminal stored) (
        all-refuted (λ item. is_terminal stored.status (item_status stored item)) item_id s.plan
          planned (rw (submitted_item item_id a seen s same fresh) refl))

-- A planned item that is not terminal.
abbrev pub IsPending : {V P : Type 0} → Interview V P → ℕ → Type 0
IsPending s item =
    (any (λ planned. planned == item) s.plan ≡ true)
    × (((item_status s item ≡ not_attempted) × (is_open s.status ≡ true))
        ⊎ (item_status s item ≡ awaiting_grade))

not_terminal :
    (state : SessionState) (status : ItemStatus)
    → is_completable state ≡ true
    → is_terminal state status ≡ false
    → ((status ≡ not_attempted) × (is_open state ≡ true)) ⊎ (status ≡ awaiting_grade)
not_terminal state not_attempted running waits = inl (refl, ground (arith, running, waits))
not_terminal state awaiting_grade running waits = inr refl
not_terminal state (settled status) running waits = absurd (ground (arith, waits))

all-witness :
    (p : ℕ → Bool) (items : List ℕ)
    → all p items ≡ false
    → (item : ℕ) × (any (λ planned. planned == item) items ≡ true) × (p item ≡ false)
all-witness p [] waits = absurd (ground (arith, waits))
all-witness p (item ∷ items) waits = elim (Bool-cases (p item)) [
  | inr here ↦ (item, rw ((==_iff item item).1 refl) refl, here)
  | inl passes ↦
      let (found, planned, fails) = all-witness p items (rw passes at waits) in
      (found, ground (arith, planned), fails)
]

-- A submission as a request, with the identifier that its row is given.
pub record Submission : Type 0 where
  pub id : ℕ
  pub item_id : ℕ
  pub kind : ArtifactKind
  pub content : String
  pub language : Option String
  pub elapsed : ℕ

module _ {V P : Type 0} (corpus_item : ℕ → Option CorpusItem) (apply_evidence : Evidence V → P → P)
    (run_grader : CorpusItem → Artifact → Attempt V) (allowed : Database → Bool) where
  abbrev submit : Submission → Interview V P → Result (Interview V P)
  submit r s =
      record_submission corpus_item s.status r.id r.item_id r.kind r.content r.language r.elapsed s

  -- One request, or one background grading in which the database fails at most as it is allowed to.
  pub data Step : Interview V P → Interview V P → Type 0 where
    submits :
        {s s' : Interview V P} (r : Submission)
        → any (λ g. g.artifact_id == r.id) s.gradings ≡ false
        → submit r s ≡ ok s'
        → Step s s'
    begins : {s s' : Interview V P} → begin_turn corpus_item s.status s ≡ ok s' → Step s s'
    speaks :
        {s : Interview V P} (now : ℕ) (ended : Bool) (rows : List (Option ℕ))
        → Step s (finish_turn corpus_item now ended rows s)
    grades :
        {s : Interview V P} (now : ℕ) (first second : Database) (a : Artifact)
        → allowed first ≡ true
        → allowed second ≡ true
        → Step s (grade_artifact apply_evidence corpus_item first second now a run_grader s)
    ends : {s s' : Interview V P} (now : ℕ) → end_session s.status now s ≡ ok s' → Step s s'

  pub data Reach : Interview V P → Type 0 where
    created :
        {s : Interview V P} (mode : Mode) (projection : P) (plan seeded : List ℕ)
        → create_session mode projection plan seeded ≡ ok s
        → Reach s
    then_ : {s s' : Interview V P} → Reach s → Step s s' → Reach s'

module _ {V P : Type 0} (corpus_item : ℕ → Option CorpusItem) (apply_evidence : Evidence V → P → P)
    (run_grader : CorpusItem → Artifact → Attempt V) where
  finish_turn-IsWaiting :
      (now : ℕ) (ended : Bool) (rows : List (Option ℕ)) (s : Interview V P)
      → IsWaiting s
      → IsWaiting (finish_turn corpus_item now ended rows s)
  unfolding finish_turn all_terminal item_status
  finish_turn-IsWaiting now false rows s waits = waits
  finish_turn-IsWaiting now true rows s waits =
      let spoken = record s { turns = rows ++ s.turns } in
      elim (Option-cases (current_item corpus_item spoken)) [
        | inl over ↦ rw over (maybe_complete-IsWaiting now (move_to wrapping spoken))
        | inr item ↦ rw item.1 waits
      ]

  Step-IsWaiting :
      (s s' : Interview V P)
      → Step corpus_item apply_evidence run_grader checks s s'
      → IsWaiting s
      → IsWaiting s'
  Step-IsWaiting s s' (submits r fresh accepted) waits =
      let (_, planned, row) =
        record_submission-accepted corpus_item s.status r.id r.item_id r.kind r.content r.language
          r.elapsed s s' accepted in
      let (a, _, named, held, stored) = row in
      rw stored (store_artifact-IsWaiting r.item_id a s.status s held planned (rw named fresh))
  Step-IsWaiting s s' (begins accepted) waits =
      rw (begin_turn-accepted corpus_item s.status s s' accepted).1 (start-IsWaiting s waits)
  Step-IsWaiting s s' (speaks now ended rows) waits = finish_turn-IsWaiting now ended rows s waits
  Step-IsWaiting s s' (grades now first second a checked checked') waits =
      grade_artifact-IsWaiting apply_evidence now a corpus_item first second run_grader s checked
        checked' waits
  Step-IsWaiting s s' (ends now accepted) waits = end_session-IsWaiting s.status now s s' accepted

  Reach-IsWaiting :
      (s : Interview V P) → Reach corpus_item apply_evidence run_grader checks s → IsWaiting s
  Reach-IsWaiting s (created mode projection plan seeded made) =
      create_session-IsWaiting mode projection plan seeded s made
  Reach-IsWaiting s (then_ {s = before} reached step) =
      Step-IsWaiting before s step (Reach-IsWaiting before reached)

  -- However requests and gradings follow each other, each of them served at once and none losing its
  -- completion check to a failure of the database, a session that is open or wrapping has a planned item
  -- that its completion waits for: there is no submission for it and the session is still open, or
  -- there is one that has no grading.
  pub Reach-IsPending :
      (s : Interview V P)
      → Reach corpus_item apply_evidence run_grader checks s
      → is_completable s.status ≡ true
      → (item : ℕ) × IsPending s item
  unfolding all_terminal
  Reach-IsPending s reached running =
      let (item, planned, waits) =
        all-witness (λ i. is_terminal s.status (item_status s i)) s.plan
          (ground (arith, Reach-IsWaiting s reached, running)) in
      (item, (planned, not_terminal s.status (item_status s item) running waits))

  -- A turn that is taken without interruption is two steps.
  take_turn-Reach :
      (now : ℕ) (ended : Bool) (rows : List (Option ℕ)) (s s' : Interview V P)
      → Reach corpus_item apply_evidence run_grader checks s
      → take_turn corpus_item s.status now ended rows s ≡ ok s'
      → Reach corpus_item apply_evidence run_grader checks s'
  unfolding take_turn
  take_turn-Reach now ended rows s s' reached taken =
      elim (Result-cases (begin_turn corpus_item s.status s)) [
        | inl refused ↦ absurd (err≢ok (rw (refused.1, take_turn) at taken))
        | inr begun ↦
            rw (← ok-injective (rw (begun.1, take_turn) at taken))
              (then_ (then_ reached (begins begun.1)) (speaks now ended rows))
      ]
