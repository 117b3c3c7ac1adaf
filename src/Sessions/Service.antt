-- ===== src/Sessions/Service.antt =====
-- The operations of apps/api/src/api/sessions.py on one session. An operation that first reads the
-- session's row takes the state it read as an argument, since another request may have written the row
-- by the time this one writes. The corpus, the graders and the exchange with the model are arguments.
use interview_helper.Prelude.{
  ℕ, Bool, true, false, ◌&&◌, ◌||◌, not, Option, none, some, List, [], ◌∷◌, ◌++◌, ◌==◌,
  if◌then◌else◌, any,
}
use Prim.Native.String.{String}
use text.Mathlib.Text.{◌==◌ as str_eq}
use interview_helper.Sessions.{
  SessionState, briefing, interviewing, wrapping, abandoned, Mode, coding, quant, design,
  behavioral, ArtifactKind, code, answer, design_doc, narrative, Artifact, Interview, is_open,
  is_briefing, is_reportable, artifact_for, announce, move_to, maybe_complete,
}

pub data Refusal : Type 0 where
  unprocessable unavailable wrong_state not_found : Refusal

pub data Result {ℓ} (A : Type ℓ) : Type ℓ where
  ok : A → Result A
  err : Refusal → Result A

pub data GradingType : Type 0 where
  tests check rubric other : GradingType

pub record CorpusItem : Type 0 where
  pub id : ℕ
  pub grading_type : GradingType
  pub languages : List String

abbrev pub artifact_kind : Mode → ArtifactKind
artifact_kind coding = code
artifact_kind quant = answer
artifact_kind design = design_doc
artifact_kind behavioral = narrative

abbrev pub same_kind : ArtifactKind → ArtifactKind → Bool
same_kind code code = true
same_kind answer answer = true
same_kind design_doc design_doc = true
same_kind narrative narrative = true
same_kind _ _ = false

abbrev pub is_code : ArtifactKind → Bool
is_code kind = same_kind kind code

abbrev pub is_empty {ℓ} : {A : Type ℓ} → List A → Bool
is_empty [] = true
is_empty _ = false

unfoldable pub first_language : List String → Option String
first_language [] = none
first_language (l ∷ _) = some l

-- `language or (declared[0] if declared else None)`
unfoldable pub declared_language : List String → Option String → Option String
declared_language languages none = first_language languages
declared_language languages (some l) = if str_eq l "" then first_language languages else some l

unfoldable pub is_declared : List String → Option String → Bool
is_declared languages none = false
is_declared languages (some l) = any (str_eq l) languages

-- The language of a submission, or why there is none.
unfoldable pub choose_language : CorpusItem → ArtifactKind → Option String → Result (Option String)
choose_language item kind language =
    let chosen = declared_language item.languages language in
    if is_code kind && not (is_declared item.languages chosen) then err unprocessable else ok chosen

module _ {V P : Type 0} where
  -- `create_session`, from what the planner chose and what the items table holds.
  unfoldable pub create_session : Mode → P → List ℕ → List ℕ → Result (Interview V P)
  create_session mode projection plan seeded =
      if is_empty plan
      then err unprocessable
      else if any (λ item. not (any (λ row. row == item) seeded)) plan
      then err unavailable
      else ok (record {
        mode = mode;
        plan = plan;
        status = briefing;
        ended_at = none;
        artifacts = [];
        gradings = [];
        evidence = [];
        turns = [];
        projection = projection;
        published = [];
      })

  -- Is the item submitted, or ended by the interviewer?
  unfoldable pub is_finished : Interview V P → ℕ → Bool
  is_finished s item =
      any (λ a. a.item_id == item) s.artifacts
      || any (λ t. elim t [ none ↦ false | some ended ↦ ended == item ]) s.turns

  -- The insert of `record_submission` and its update of a session that is still in briefing.
  unfoldable pub store_artifact : SessionState → Artifact → Interview V P → Interview V P
  store_artifact seen a s = record s {
    artifacts = a ∷ s.artifacts;
    status = if is_briefing seen && is_briefing s.status then interviewing else s.status;
  }

  -- One submission for an item: a second one is refused.
  unfoldable pub insert_artifact : SessionState → Artifact → Interview V P → Result (Interview V P)
  insert_artifact seen a s = elim (artifact_for a.item_id s.artifacts) [
    | some existing ↦ err wrong_state
    | none ↦ ok (store_artifact seen a s)
  ]

  -- `record_submission`, once the item is known.
  unfoldable pub submit_to :
      CorpusItem
      → SessionState
      → ℕ
      → ℕ
      → ArtifactKind
      → String
      → Option String
      → ℕ
      → Interview V P
      → Result (Interview V P)
  submit_to item seen id item_id kind content language elapsed s =
      elim (choose_language item kind language) [
        | err refusal ↦ err refusal
        | ok chosen ↦
            insert_artifact seen
              (record {
                id = id;
                item_id = item_id;
                kind = kind;
                language = chosen;
                content = content;
                elapsed_seconds = elapsed;
              })
              s
      ]

  unfoldable pub end_session : SessionState → ℕ → Interview V P → Result (Interview V P)
  unfolding move_to announce
  end_session seen now s =
      if is_reportable seen || is_reportable s.status
      then err wrong_state
      else ok (move_to abandoned (record s { ended_at = some now }))

module _ (corpus_item : ℕ → Option CorpusItem) where
  module _ {V P : Type 0} where
    unfoldable pub first_open : Interview V P → List ℕ → Option CorpusItem
    first_open s [] = none
    first_open s (item ∷ rest) =
        let later = first_open s rest in
        if is_finished s item
        then later
        else elim (corpus_item item) [ none ↦ later | some found ↦ some found ]

    unfoldable pub current_item : Interview V P → Option CorpusItem
    current_item s = first_open s s.plan

    -- `take_turn` up to the exchange with the interviewer.
    unfoldable pub begin_turn : SessionState → Interview V P → Result (Interview V P)
    begin_turn seen s =
        if is_open seen
        then elim (current_item s) [
          | none ↦ err wrong_state
          | some item ↦ ok (if is_briefing seen then move_to interviewing s else s)
        ]
        else err wrong_state

    -- `take_turn` from there on: the turn rows of the exchange are stored, and a round that ended leaves
    -- the session wrapping when it was the last. The observations of the exchange are not kept.
    unfoldable pub finish_turn : ℕ → Bool → List (Option ℕ) → Interview V P → Interview V P
    finish_turn now ended rows s =
        let spoken = record s { turns = rows ++ s.turns } in
        if ended
        then elim (current_item spoken) [
          | none ↦ maybe_complete now (move_to wrapping spoken)
          | some item ↦ spoken
        ]
        else spoken

    -- `take_turn`, when nothing else is written to the session during its exchange.
    unfoldable pub take_turn :
        SessionState → ℕ → Bool → List (Option ℕ) → Interview V P → Result (Interview V P)
    take_turn seen now ended rows s = elim (begin_turn seen s) [
      | err refusal ↦ err refusal
      | ok started ↦ ok (finish_turn now ended rows started)
    ]

    unfoldable pub record_submission :
        SessionState
        → ℕ
        → ℕ
        → ArtifactKind
        → String
        → Option String
        → ℕ
        → Interview V P
        → Result (Interview V P)
    record_submission seen id item_id kind content language elapsed s =
        if not (is_open seen)
        then err wrong_state
        else if not (any (λ planned. planned == item_id) s.plan)
        then err unprocessable
        else if not (same_kind kind (artifact_kind s.mode))
        then err unprocessable
        else elim (corpus_item item_id) [
          | none ↦ err not_found
          | some item ↦ submit_to item seen id item_id kind content language elapsed s
        ]
