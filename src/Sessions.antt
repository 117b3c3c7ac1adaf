-- ===== src/Sessions.antt =====
-- apps/api/src/api/sessions.py: what the database holds of one session (`Interview`), how each planned
-- item stands, and the completion check. Identifiers are numbers and rows are kept newest first, the
-- evidence oldest first. `P` is the mastery projection, which the session only passes evidence to.
pub mod Service
pub mod Grades
pub mod Accepted
pub mod Outcomes
pub mod Settling
pub mod Waiting
pub mod Races
pub mod Finals
pub mod Reports
pub mod Answers
pub mod Writes
pub mod Scores
mod Tests
use interview_helper.Prelude.{
  ℕ, Bool, true, false, ◌&&◌, ◌||◌, not, Option, none, some, List, [], ◌∷◌, ◌==◌, if◌then◌else◌,
  any, all,
}
use Prim.Native.String.{String}

pub data SessionState : Type 0 where
  planning briefing interviewing wrapping grading complete abandoned failed : SessionState

pub data GradingStatus : Type 0 where
  graded ungraded : GradingStatus

-- The statuses of `_item_outcomes`: `awaiting_grade` is the source's "grading", and the last is the
-- status of the newest grading.
pub data ItemStatus : Type 0 where
  not_attempted awaiting_grade : ItemStatus
  settled : GradingStatus → ItemStatus

pub data Mode : Type 0 where
  coding quant design behavioral : Mode

pub data ArtifactKind : Type 0 where
  code answer design_doc narrative : ArtifactKind

pub record Artifact : Type 0 where
  pub id : ℕ
  pub item_id : ℕ
  pub kind : ArtifactKind
  pub language : Option String
  pub content : String
  pub elapsed_seconds : ℕ

-- A score and a confidence are left abstract, as `V`.
pub record Grading (V : Type 0) : Type 0 where
  pub artifact_id : ℕ
  pub status : GradingStatus
  pub score : Option V

pub record Evidence (V : Type 0) : Type 0 where
  pub concept_id : ℕ
  pub item_id : ℕ
  pub score : V
  pub confidence : V

pub data Announcement : Type 0 where
  session_state : SessionState → Announcement
  grading_started : ℕ → Announcement
  grading_result : ℕ → GradingStatus → Announcement

pub record Interview (V P : Type 0) : Type 0 where
  pub mode : Mode
  pub plan : List ℕ
  pub status : SessionState
  pub ended_at : Option ℕ
  pub artifacts : List Artifact
  pub gradings : List (Grading V)
  pub evidence : List (Evidence V)
  -- The turn rows, each with the item that a successful `end_round` of it ended.
  pub turns : List (Option ℕ)
  pub projection : P
  pub published : List Announcement

abbrev pub is_open : SessionState → Bool
is_open briefing = true
is_open interviewing = true
is_open _ = false

abbrev pub is_wrapping : SessionState → Bool
is_wrapping wrapping = true
is_wrapping _ = false

abbrev pub is_briefing : SessionState → Bool
is_briefing briefing = true
is_briefing _ = false

abbrev pub is_completable : SessionState → Bool
is_completable state = is_open state || is_wrapping state

abbrev pub is_reportable : SessionState → Bool
is_reportable complete = true
is_reportable abandoned = true
is_reportable _ = false

-- The test of `_maybe_complete` on one item.
abbrev pub is_terminal : SessionState → ItemStatus → Bool
is_terminal state not_attempted = is_wrapping state
is_terminal state awaiting_grade = false
is_terminal state (settled s) = true

unfoldable pub artifact_for : ℕ → List Artifact → Option Artifact
artifact_for item [] = none
artifact_for item (a ∷ rest) = if a.item_id == item then some a else artifact_for item rest

module _ {V : Type 0} where
  unfoldable pub grading_for : ℕ → List (Grading V) → Option (Grading V)
  grading_for id [] = none
  grading_for id (g ∷ rest) = if g.artifact_id == id then some g else grading_for id rest

  unfoldable pub grading_status : Option (Grading V) → ItemStatus
  grading_status none = awaiting_grade
  grading_status (some g) = settled g.status

  unfoldable pub artifact_status : Option Artifact → List (Grading V) → ItemStatus
  unfolding grading_status
  artifact_status none gradings = not_attempted
  artifact_status (some a) gradings = grading_status (grading_for a.id gradings)

module _ {V P : Type 0} where
  -- The status that `_item_outcomes` gives a planned item.
  unfoldable pub item_status : Interview V P → ℕ → ItemStatus
  item_status s item = artifact_status (artifact_for item s.artifacts) s.gradings

  unfoldable pub all_terminal : Interview V P → Bool
  all_terminal s = all (λ item. is_terminal s.status (item_status s item)) s.plan

  unfoldable pub announce : Announcement → Interview V P → Interview V P
  announce a s = record s { published = a ∷ s.published }

  unfoldable pub move_to : SessionState → Interview V P → Interview V P
  unfolding announce
  move_to state s = announce (session_state state) (record s { status = state })

  -- `_maybe_complete`
  unfoldable pub maybe_complete : ℕ → Interview V P → Interview V P
  unfolding move_to announce
  maybe_complete now s =
      if is_completable s.status && all_terminal s
      then move_to complete (record s { ended_at = some now })
      else s
