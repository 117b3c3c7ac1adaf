-- ===== src/Jobs/Ingest.antt =====
-- Importing a pasted list (`ingest`, apps/api/src/api/jobs.py): the rows that a model returned, the rows
-- that are sent to research, and what is written. What the two calls of a model return is an argument,
-- and so are `str.strip`, `str.lower` and the slice of a text. New identifiers are counted up.
pub mod Again
pub mod Consistent
use interview_helper.Prelude.{
  ℕ, zero, suc, ◌+◌, ◌≡◌, Bool, true, false, not, ◌&&◌, ◌||◌, Option, none, some, List, [], ◌∷◌,
  ◌++◌, leb, ◌==◌, if◌then◌else◌, min, take, length,
}
use Prim.Native.String.{String}
use text.Mathlib.Text.{◌==◌ as str_eq}
use interview_helper.Jobs.{
  Stage, applied, stage_of, category_of, auto_accept_confidence, Source, paste, paste_research,
  JobApplication,
}
use interview_helper.Jobs.Board.{Board, NewApplication, is_truthy, is_indexed, insert_application}

-- A confidence as a model wrote it: not a number, below zero, or in millionths.
pub data Claimed : Type 0 where
  unreadable negative : Claimed
  amount : ℕ → Claimed

-- One row of the payload: a value that Python reads as false is `none`.
pub record Payload : Type 0 where
  pub company : Option String
  pub role : Option String
  pub location : Option String
  pub url : Option String
  pub subcategory : Option String
  pub stage : Option String
  pub confidence : Claimed
  pub notes : Option String
  pub applied_on : Option ℕ

pub record ParsedJob : Type 0 where
  pub company : String
  pub role : String
  pub location : Option String
  pub url : Option String
  pub subcategory : String
  pub stage : Stage
  pub confidence : ℕ
  pub notes : Option String
  pub applied_on : Option ℕ

abbrev pub max_rows : ℕ
max_rows = 200

-- `max(0.0, min(1.0, ...))`
unfoldable pub confidence_of : Claimed → ℕ
confidence_of unreadable = 0
confidence_of negative = 0
confidence_of (amount n) = min 1000000 n

unfoldable pub subcategory_from : Option String → String
subcategory_from none = "unclassified"
subcategory_from (some s) = elim (category_of s) [ none ↦ "unclassified" | some _ ↦ s ]

unfoldable pub stage_from : Option String → Stage
stage_from none = applied
stage_from (some s) = elim (stage_of s) [ none ↦ applied | some stage ↦ stage ]

abbrev pub or_empty : Option String → String
or_empty none = ""
or_empty (some s) = s

module _ (strip : String → String) (cut : ℕ → String → String) where
  abbrev pub cut_option : ℕ → Option String → Option String
  cut_option n none = none
  cut_option n (some s) = some (cut n s)

  unfoldable pub row_from : Payload → Option ParsedJob
  row_from p =
      let company = strip (or_empty p.company) in
      let role = strip (or_empty p.role) in
      if str_eq company "" || str_eq role ""
      then none
      else some (record {
        company = cut 200 company;
        role = cut 200 role;
        location = cut_option 200 p.location;
        url = cut_option 2000 p.url;
        subcategory = subcategory_from p.subcategory;
        stage = stage_from p.stage;
        confidence = confidence_of p.confidence;
        notes = cut_option 4000 p.notes;
        applied_on = p.applied_on;
      })

  unfoldable pub usable : List Payload → List ParsedJob
  usable [] = []
  usable (p ∷ ps) =
      let rest = usable ps in elim (row_from p) [ none ↦ rest | some row ↦ row ∷ rest ]

  unfoldable pub rows_from : List Payload → List ParsedJob
  rows_from ps = usable (take max_rows ps)

-- Whether `missing_for_research` lists anything.
unfoldable pub is_incomplete : ParsedJob → Bool
is_incomplete row =
    not (is_truthy row.url)
    || not (is_truthy row.location)
    || str_eq row.subcategory "unclassified"
    || not (leb auto_accept_confidence row.confidence)

abbrev pub Key : Type 0
Key = String × String

abbrev pub same_key : Key → Key → Bool
same_key k l = str_eq k.0 l.0 && str_eq k.1 l.1

-- A dict from keys to identifiers, the newest entry first.
abbrev pub Seen : Type 0
Seen = List (Key × ℕ)

unfoldable pub seen_at : Key → Seen → Option ℕ
seen_at k [] = none
seen_at k ((l, id) ∷ rest) = let behind = seen_at k rest in if same_key k l then some id else behind

abbrev pub is_some : Option ℕ → Bool
is_some none = false
is_some (some _) = true

abbrev pub is_seen : Key → Seen → Bool
is_seen k seen = is_some (seen_at k seen)

-- What an import wrote: the board, and the identifiers of the rows made and of those found.
pub record Import : Type 0 where
  pub board : Board
  pub created : List ℕ
  pub duplicates : List ℕ

module _ (strip lower : String → String) where
  abbrev pub key : String → String → Key
  key company role = (lower (strip company), lower (strip role))

  abbrev pub key_of : ParsedJob → Key
  key_of row = key row.company row.role

  -- `existing_index`, on the applications in the order of the query: a later row takes the key.
  unfoldable pub index_of : ℕ → List JobApplication → Seen
  index_of user [] = []
  index_of user (a ∷ rest) =
      let behind = index_of user rest in
      if a.user_id == user then behind ++ ((key a.company a.role, a.id) ∷ []) else behind

  unfoldable pub existing_index : Board → ℕ → Seen
  existing_index b user = index_of user b.applications

  -- Which rows are sent to research: those that are new, for the first time, and incomplete.
  unfoldable pub candidates_from : Seen → Seen → List ParsedJob → List Bool
  candidates_from seen keys [] = []
  candidates_from seen keys (row ∷ rows) =
      let known = is_seen (key_of row) seen || is_seen (key_of row) keys in
      let rest = candidates_from seen keys rows in
      let marked = candidates_from seen ((key_of row, 0) ∷ keys) rows in
      if known then false ∷ rest else is_incomplete row ∷ marked

  -- A row that is new, as `insert_application` takes it, with a mark if it was researched.
  unfoldable pub new_of : ℕ → ℕ → String → ParsedJob × Bool → NewApplication
  new_of user now model (row, researched) = record {
    user_id = user;
    company = row.company;
    role = row.role;
    location = row.location;
    url = row.url;
    subcategory = some row.subcategory;
    stage = row.stage;
    notes = row.notes;
    applied_at = elim row.applied_on [ none ↦ some now | some day ↦ some day ];
    source = if researched then paste_research else paste;
    confidence = some row.confidence;
    model = some model;
  }

  -- The loop that writes the rows.
  unfoldable pub write_rows : ℕ → ℕ → String → Board → Seen → ℕ → List (ParsedJob × Bool) → Import
  write_rows user now model b seen id [] = record { board = b; created = []; duplicates = [] }
  write_rows user now model b seen id (row ∷ rows) = elim (seen_at (key_of row.0) seen) [
    | some old ↦
        let rest = write_rows user now model b seen id rows in
        record rest { duplicates = old ∷ rest.duplicates }
    | none ↦
        let inserted = insert_application b (new_of user now model row) id now in
        let rest = write_rows user now model inserted.0 ((key_of row.0, id) ∷ seen) (suc id) rows in
        record rest { created = id ∷ rest.created }
  ]

-- What the research pass gives back: nothing, or a row for each that it was sent.
pub data Research : Type 0 where
  skipped : Research
  researched : List ParsedJob → Research

-- The rows with the researched ones in their places, and which those are. A list that is too short or
-- too long for the places is an exception.
unfoldable pub merge :
    List ParsedJob → List Bool → List ParsedJob → Option (List (ParsedJob × Bool))
merge [] flags [] = some []
merge [] flags (_ ∷ _) = none
merge (row ∷ rows) [] enriched = none
merge (row ∷ rows) (false ∷ flags) enriched = elim (merge rows flags enriched) [
  | none ↦ none
  | some rest ↦ some ((row, false) ∷ rest)
]
merge (row ∷ rows) (true ∷ flags) [] = none
merge (row ∷ rows) (true ∷ flags) (e ∷ enriched) = elim (merge rows flags enriched) [
  | none ↦ none
  | some rest ↦ some ((e, true) ∷ rest)
]

unfoldable pub unmarked : List ParsedJob → List (ParsedJob × Bool)
unmarked [] = []
unmarked (row ∷ rows) = (row, false) ∷ unmarked rows

-- The rows as they are written, for what the research pass answers.
unfoldable pub after_research :
    List ParsedJob → List Bool → Research → Option (List (ParsedJob × Bool))
after_research rows flags skipped = some (unmarked rows)
after_research rows flags (researched enriched) = merge rows flags enriched

-- The commit of an import, which is rolled back as a whole when the unique index refuses a row.
unfoldable pub commit_import : (String → String) → Import → Option Import
commit_import lower written =
    if is_indexed lower written.board.applications then some written else none

module _ (strip lower : String → String) where
  -- `ingest`, on the rows of the paste: a list without rows is refused.
  unfoldable pub ingest : ℕ → ℕ → String → Board → ℕ → List ParsedJob → Research → Option Import
  ingest user now model b id [] research = none
  ingest user now model b id (row ∷ rows) research =
      let seen = existing_index strip lower b user in
      let flags = candidates_from strip lower seen [] (row ∷ rows) in
      elim (after_research (row ∷ rows) flags research) [
        | none ↦ none
        | some merged ↦ commit_import lower (write_rows strip lower user now model b seen id merged)
      ]
