-- ===== src/Jobs/Moves.antt =====
-- The operations of the tracker that check their input or change a row: `create_application`,
-- `advance`, `set_classification`, `delete_application` and `recompute_all`
-- (apps/api/src/api/jobs.py).
pub mod Agreement
pub mod Replay
pub mod Creation
pub mod Lifecycle
pub mod Reach
use interview_helper.Prelude.{
  ℕ, zero, ◌+◌, ◌≡◌, Bool, true, false, ◌&&◌, not, Option, none, some, List, [], ◌∷◌, ◌++◌, ◌==◌,
  if◌then◌else◌, select, length,
}
use Prim.Native.String.{String}
use text.Mathlib.Text.{◌==◌ as str_eq}
use mathlib.Core.Logic.{ite}
use interview_helper.Jobs.{
  Stage, stage_of, Outcome, category_of, Status, tracked, JobApplication, JobEvent, integrity_error,
  not_found, unprocessable, Result, ok, err,
}
use interview_helper.Jobs.Projection.{project, Standing}
use interview_helper.Jobs.Board.{
  Board, find, update, events_of, last_event, standing_of, stand, NewApplication, is_refused,
  insert_application, recompute,
}

unfoldable pub Stage-discrete : Discrete Stage
Stage-discrete = hlevel

pub Standing-discrete : Discrete Standing
Standing-discrete = hlevel

-- `events[-1].stage == stage`, of a list that may be empty.
abbrev pub is_there : Option JobEvent → Stage → Bool
is_there none s = false
is_there (some e) s = ite (Stage-discrete e.stage s) true false

-- `(events[-1].sequence + 1) if events else 0`
abbrev pub next_sequence : Option JobEvent → ℕ
next_sequence none = 0
next_sequence (some e) = e.sequence + 1

-- `occurred_at or _utcnow()`
abbrev pub or_now : Option ℕ → ℕ → ℕ
or_now none now = now
or_now (some t) now = t

unfoldable pub append_event : Board → ℕ → Stage → Option String → ℕ → ℕ → Board
append_event b id s note at sequence = record b {
  events =
      b.events
      ++ (record {
        application_id = id;
        sequence = sequence;
        stage = s;
        note = note;
        occurred_at = at;
      }
          ∷ []);
}

unfoldable pub advance_to :
    Board → ℕ → Stage → Option String → Option ℕ → ℕ → Result (Board × JobApplication)
unfolding append_event
advance_to b id s note occurred now = elim (find id b.applications) [
  | none ↦ err not_found
  | some a ↦
      let last = last_event (events_of b id) in
      let at = or_now occurred now in
      if is_there last s
      then ok (b, a)
      else recompute (append_event b id s note at (next_sequence last)) id now
]

unfoldable pub advance :
    Board → ℕ → String → Option String → Option ℕ → ℕ → Result (Board × JobApplication)
unfolding advance_to
advance b id stage note occurred now = elim (stage_of stage) [
  | none ↦ err unprocessable
  | some s ↦ advance_to b id s note occurred now
]

unfoldable pub set_classification : Board → ℕ → String → ℕ → Result (Board × JobApplication)
set_classification b id subcategory now = elim (category_of subcategory) [
  | none ↦ err unprocessable
  | some c ↦ elim (find id b.applications) [
    | none ↦ err not_found
    | some a ↦
        let confirm = λ (x : JobApplication). record x {
          subcategory = some subcategory;
          category = some c;
          status = tracked;
          classification_confidence = some 1000000;
          updated_at = now;
        } in
        ok (record b { applications = update id confirm b.applications }, confirm a)
  ]
]

unfoldable pub delete_application : Board → ℕ → Result Board
delete_application b id = elim (find id b.applications) [
  | none ↦ err not_found
  | some a ↦ ok (record {
    applications = select (λ x. not (x.id == id)) b.applications;
    events = select (λ e. not (e.application_id == id)) b.events;
  })
]

-- The comparison of the three columns with the projection.
unfoldable pub is_standing : JobApplication → Standing → Bool
is_standing a s = ite (Standing-discrete (standing_of a) s) true false

-- The loop of `recompute_all`: the rows as they are left, and how many were corrected.
unfoldable pub replay : Board → ℕ → ℕ → List JobApplication → List JobApplication × ℕ
replay b user now [] = ([], 0)
replay b user now (a ∷ rest) =
    let s = project (events_of b a.id) in
    let (rows, changed) = replay b user now rest in
    if a.user_id == user
    then if is_standing a s then (a ∷ rows, changed) else (stand s now a ∷ rows, changed + 1)
    else (a ∷ rows, changed)

-- `recompute_all`: the board, how many rows were replayed, and how many of them were corrected.
unfoldable pub recompute_all : Board → ℕ → ℕ → Board × ℕ × ℕ
unfolding replay
recompute_all b user now =
    let (rows, changed) = replay b user now b.applications in
    (
      record b { applications = rows },
      length (select (λ a. a.user_id == user) b.applications),
      changed,
    )

-- `.first()` of a query.
unfoldable pub first_match : (JobApplication → Bool) → List JobApplication → Option JobApplication
first_match p [] = none
first_match p (a ∷ rest) = if p a then some a else first_match p rest

-- `subcategory is None or subcategory in CATEGORY_FOR_SUBCATEGORY`
abbrev pub is_known : Option String → Bool
is_known none = true
is_known (some s) = elim (category_of s) [ none ↦ false | some _ ↦ true ]

-- The commit of a new row, which the unique index refuses beside one with the same owner, company and role.
unfoldable pub commit_application :
    (String → String) → Board → Board × JobApplication → Result (Board × JobApplication)
commit_application lower b written =
    if is_refused lower written.1 b.applications then err integrity_error else ok written

module _ (strip lower : String → String) where
  -- The three conditions of the query of `existing`: the stored columns are lowered by the
  -- database, and only the arguments are stripped.
  abbrev pub is_match : ℕ → String → String → JobApplication → Bool
  is_match user company role a =
      a.user_id == user
      && str_eq (lower a.company) (lower (strip company))
      && str_eq (lower a.role) (lower (strip role))

  unfoldable pub existing : Board → ℕ → String → String → Option JobApplication
  existing b user company role = first_match (is_match user company role) b.applications

  -- The row carries its stage as `n.stage` once `stage` has been found among the stages.
  unfoldable pub create_application :
      Board → NewApplication → String → ℕ → ℕ → Result (Board × JobApplication)
  unfolding existing commit_application
  create_application b n stage id now = elim (stage_of stage) [
    | none ↦ err unprocessable
    | some s ↦
        if is_known n.subcategory
        then elim (existing b n.user_id n.company n.role) [
          | some a ↦ ok (b, a)
          | none ↦ commit_application lower b (insert_application b (record n { stage = s }) id now)
        ]
        else err unprocessable
  ]
