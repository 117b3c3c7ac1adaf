-- ===== src/Jobs.antt =====
-- apps/api/src/api/jobs.py: the job-application tracker. Here its vocabulary: the stage ladder, the
-- category taxonomy, the rows of the two tables (apps/api/src/api/models.py), and the errors.
-- Times and identifiers are numbers; a confidence is a number of millionths.
pub mod Projection
pub mod Board
pub mod Moves
pub mod Ingest
pub mod Funnel
mod Tests
use interview_helper.Prelude.{
  ℕ, Bool, true, false, Option, none, some, List, [], ◌∷◌, ltb, leb, if◌then◌else◌,
}
use Prim.Native.String.{String}
use text.Mathlib.Text.{◌==◌ as str_eq}

pub data Stage : Type 0 where
  applied oa video_assessment phone_screen round_1 round_2 final offer : Stage
  rejected withdrawn ghosted : Stage

abbrev pub ladder : List Stage
ladder = applied ∷ oa ∷ video_assessment ∷ phone_screen ∷ round_1 ∷ round_2 ∷ final ∷ offer ∷ []

abbrev pub stages : List Stage
stages =
    applied ∷ oa ∷ video_assessment ∷ phone_screen ∷ round_1 ∷ round_2 ∷ final ∷ offer ∷ rejected
    ∷ withdrawn ∷ ghosted ∷ []

-- `RANK.get(stage)`: the place on the ladder, which the terminal stages do not have.
abbrev pub rank : Stage → Option ℕ
rank applied = some 0
rank oa = some 1
rank video_assessment = some 2
rank phone_screen = some 3
rank round_1 = some 4
rank round_2 = some 5
rank final = some 6
rank offer = some 7
rank _ = none

-- `RANK.get(stage, 0)`
abbrev pub rank_or_zero : Stage → ℕ
rank_or_zero s = elim (rank s) [ none ↦ 0 | some r ↦ r ]

pub data Outcome : Type 0 where
  still_open got_offer was_rejected was_withdrawn was_ghosted : Outcome

-- `OUTCOME_FOR_STAGE.get(stage, "open")`
abbrev pub outcome_for_stage : Stage → Outcome
outcome_for_stage offer = got_offer
outcome_for_stage rejected = was_rejected
outcome_for_stage withdrawn = was_withdrawn
outcome_for_stage ghosted = was_ghosted
outcome_for_stage _ = still_open

abbrev pub stage_name : Stage → String
stage_name applied = "applied"
stage_name oa = "oa"
stage_name video_assessment = "video_assessment"
stage_name phone_screen = "phone_screen"
stage_name round_1 = "round_1"
stage_name round_2 = "round_2"
stage_name final = "final"
stage_name offer = "offer"
stage_name rejected = "rejected"
stage_name withdrawn = "withdrawn"
stage_name ghosted = "ghosted"

find_stage : String → List Stage → Option Stage
find_stage s [] = none
find_stage s (x ∷ xs) = if str_eq s (stage_name x) then some x else find_stage s xs

-- `stage in STAGES`, with the stage that the text names.
unfoldable pub stage_of : String → Option Stage
unfolding find_stage
stage_of s = find_stage s stages

pub data Category : Type 0 where
  swe ai quant other : Category

-- `CATEGORY_FOR_SUBCATEGORY`, in the order of `CATALOG`.
abbrev pub category_for_subcategory : List (String × Category)
category_for_subcategory =
    ("backend", swe)
    ∷ ("frontend", swe)
    ∷ ("fullstack", swe)
    ∷ ("distributed_systems", swe)
    ∷ ("infrastructure", swe)
    ∷ ("platform", swe)
    ∷ ("security", swe)
    ∷ ("mobile", swe)
    ∷ ("embedded", swe)
    ∷ ("compilers", swe)
    ∷ ("data_engineering", swe)
    ∷ ("site_reliability", swe)
    ∷ ("ml_engineering", ai)
    ∷ ("ml_research", ai)
    ∷ ("applied_ai", ai)
    ∷ ("nlp", ai)
    ∷ ("computer_vision", ai)
    ∷ ("ai_infrastructure", ai)
    ∷ ("agents", ai)
    ∷ ("robotics", ai)
    ∷ ("quant_trading", quant)
    ∷ ("quant_research", quant)
    ∷ ("quant_developer", quant)
    ∷ ("high_frequency_trading", quant)
    ∷ ("risk", quant)
    ∷ ("portfolio_management", quant)
    ∷ ("data_science", other)
    ∷ ("product", other)
    ∷ ("hardware", other)
    ∷ ("design", other)
    ∷ ("unclassified", other)
    ∷ []

find_category : String → List (String × Category) → Option Category
find_category s [] = none
find_category s ((name, c) ∷ m) = if str_eq s name then some c else find_category s m

-- `CATEGORY_FOR_SUBCATEGORY.get(subcategory)`
unfoldable pub category_of : String → Option Category
unfolding find_category
category_of s = find_category s category_for_subcategory

-- 0.6, in millionths
abbrev pub auto_accept_confidence : ℕ
auto_accept_confidence = 600000

pub data Status : Type 0 where
  tracked pending_classification : Status

pub data Source : Type 0 where
  manual paste paste_research : Source

pub record JobApplication : Type 0 where
  pub id : ℕ
  pub user_id : ℕ
  pub company : String
  pub role : String
  pub location : Option String
  pub url : Option String
  pub source : Source
  pub category : Option Category
  pub subcategory : Option String
  pub classification_confidence : Option ℕ
  pub classification_model : Option String
  pub status : Status
  pub current_stage : Stage
  pub furthest_stage : Stage
  pub outcome : Outcome
  pub notes : Option String
  pub applied_at : ℕ
  pub created_at : ℕ
  pub updated_at : ℕ

pub record JobEvent : Type 0 where
  pub application_id : ℕ
  pub sequence : ℕ
  pub stage : Stage
  pub note : Option String
  pub occurred_at : ℕ

pub data Error : Type 0 where
  not_found unprocessable wrong_state integrity_error : Error

pub data Result (A : Type 0) : Type 0 where
  ok : A → Result A
  err : Error → Result A
