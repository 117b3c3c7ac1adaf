-- ===== src/Jobs/Tests.antt =====
-- A tracker with one application, which went to an assessment and was then rejected.
use interview_helper.Prelude.{
  ℕ, ◌≤◌, ◌≡◌, ◌≢◌, refl, ◌⊎◌, none, List, [], ◌∷◌, ◌++◌, arith, if◌then◌else◌, length, All, some,
  ◌+◌,
}
use Prim.Native.String.{String}
use text.Mathlib.TextEquality.{eq_iff}
use text.Mathlib.Text.{◌==◌ as str_eq}
use interview_helper.Jobs.{
  Stage, applied, oa, rejected, rank_or_zero, was_rejected, still_open, stage_of,
  pending_classification, manual, JobApplication, JobEvent, ok, err, integrity_error,
}
use interview_helper.Jobs.Projection.{sort, insert, furthest_from, last_stage, standing, project}
use interview_helper.Jobs.Projection.Furthest.{highest, IsRung, project-furthest}
use interview_helper.Jobs.Board.{
  Board, NewApplication, find, update, events_of, last_event, same_index, is_refused, is_indexed,
  new_application, insert_application, recompute,
}
use interview_helper.Jobs.Moves.{
  Stage-discrete, append_event, advance, advance_to, recompute_all, create_application,
  commit_application, existing, first_match,
}
use interview_helper.Jobs.Moves.Agreement.{Agrees, IsConsistent}
use interview_helper.Jobs.Moves.Replay.{recompute_all-Agrees, recompute_all-consistent}
use interview_helper.Jobs.Moves.Creation.{create-idempotent, create-not_idempotent}
use interview_helper.Jobs.Moves.Reach.{advanced, Reach, here, next, Reach-IsConsistent}
use interview_helper.Jobs.Ingest.{
  ParsedJob, Import, seen_at, existing_index, index_of, write_rows, unmarked, skipped,
  after_research, new_of, commit_import, ingest,
}
use interview_helper.Jobs.Ingest.Again.{ingest-again}
use interview_helper.Jobs.Funnel.{bar, at_least}
use interview_helper.Jobs.Funnel.Counts.{bar_counts}

abbrev event : ℕ → Stage → JobEvent
event n stage = record {
  application_id = 1;
  sequence = n;
  stage = stage;
  note = none;
  occurred_at = n;
}

abbrev history : List JobEvent
history = event 1 oa ∷ event 0 applied ∷ []

project-furthest_example :
    IsRung (project history).furthest × (rank_or_zero (project history).furthest ≡ highest history)
project-furthest_example = project-furthest history

abbrev application : JobApplication
application = record {
  id = 1;
  user_id = 5;
  company = "Acme";
  role = "Engineer";
  location = none;
  url = none;
  source = manual;
  category = none;
  subcategory = none;
  classification_confidence = none;
  classification_model = none;
  status = pending_classification;
  current_stage = oa;
  furthest_stage = oa;
  outcome = still_open;
  notes = none;
  applied_at = 0;
  created_at = 0;
  updated_at = 1;
}

abbrev board : Board
board = record { applications = application ∷ []; events = history }

board-IsConsistent : IsConsistent board
unfolding project standing sort insert furthest_from last_stage events_of
board-IsConsistent = record { owned = (refl, (refl, tt)); agrees = (refl, tt) }

abbrev turned_down : JobApplication
turned_down = record application {
  current_stage = rejected;
  outcome = was_rejected;
  updated_at = 9;
}

abbrev later_board : Board
later_board = record {
  applications = turned_down ∷ [];
  events =
      history
      ++ (record {
        application_id = 1;
        sequence = 2;
        stage = rejected;
        note = none;
        occurred_at = 9;
      }
          ∷ []);
}

moved : advance board 1 "rejected" none none 9 ≡ ok (later_board, turned_down)
unfolding advance advance_to Stage-discrete stage_of find update recompute append_event last_event
    project standing sort insert furthest_from last_stage events_of
moved = refl

abbrev unchanged : String → String
unchanged text = text

one_step : Reach unchanged unchanged board later_board
one_step = next here (advanced 1 "rejected" none none 9 turned_down moved)

Reach-IsConsistent_example : IsConsistent later_board
Reach-IsConsistent_example = Reach-IsConsistent board-IsConsistent one_step

recompute_all-Agrees_example :
    let b' = (recompute_all board 5 9).0 in
    (b'.events ≡ board.events) × All (λ a. (a.user_id ≢ 5) ⊎ Agrees b' a) b'.applications
recompute_all-Agrees_example = recompute_all-Agrees board 5 9

recompute_all-consistent_example :
    ((recompute_all board 5 9).0 ≡ board) × ((recompute_all board 5 9).2 ≡ 0)
recompute_all-consistent_example = recompute_all-consistent board 5 9 board-IsConsistent

abbrev padded : NewApplication
padded = record {
  user_id = 5;
  company = " Acme";
  role = "Analyst";
  location = none;
  url = none;
  subcategory = none;
  stage = applied;
  notes = none;
  applied_at = none;
  source = manual;
  confidence = none;
  model = none;
}

abbrev tidy : NewApplication
tidy = record padded { company = "Acme" }

-- `str.strip`, of the one text that has a space in front.
abbrev strip_one : String → String
strip_one text = if str_eq text " Acme" then "Acme" else text

abbrev after_tidy : Board × JobApplication
after_tidy = insert_application board tidy 2 20

made_tidy : create_application strip_one unchanged board tidy "applied" 2 20 ≡ ok after_tidy
unfolding create_application existing first_match stage_of commit_application is_refused same_index
    new_application insert_application
made_tidy = refl

create-idempotent_example :
    create_application strip_one unchanged after_tidy.0 tidy "applied" 3 30 ≡ ok after_tidy
create-idempotent_example =
    create-idempotent strip_one unchanged board tidy "applied" 2 20 3 30 refl refl made_tidy

abbrev after_padded : Board × JobApplication
after_padded = insert_application board padded 2 20

made_padded : create_application strip_one unchanged board padded "applied" 2 20 ≡ ok after_padded
unfolding create_application existing first_match stage_of commit_application is_refused same_index
    new_application insert_application
made_padded = refl

not_there : existing strip_one unchanged board 5 " Acme" "Analyst" ≡ none
unfolding existing first_match
not_there = refl

abbrev padded_name : String
padded_name = " Acme"

other_name : padded_name ≢ strip_one padded_name
other_name e = ground (arith, (eq_iff padded_name "Acme").1 e)

create-not_idempotent_example :
    create_application strip_one unchanged after_padded.0 padded "applied" 3 30
    ≡ err integrity_error
create-not_idempotent_example =
    create-not_idempotent strip_one unchanged board padded "applied" 2 20 3 30 other_name not_there
      made_padded

bar_counts_example :
    ((bar (application ∷ turned_down ∷ []) 1).reached ≡ at_least 1 (application ∷ turned_down ∷ []))
    × ((bar (application ∷ turned_down ∷ []) 0).reached ≡ length (application ∷ turned_down ∷ []))
    × ((bar (application ∷ turned_down ∷ []) 1).reached
        ≤ (bar (application ∷ turned_down ∷ []) 1).previous)
bar_counts_example = bar_counts (application ∷ turned_down ∷ []) 1 (omega arith)

abbrev pasted : String → ParsedJob
pasted company = record {
  company = company;
  role = "SWE";
  location = none;
  url = none;
  subcategory = "unclassified";
  stage = applied;
  confidence = 0;
  notes = none;
  applied_on = none;
}

abbrev no_board : Board
no_board = record { applications = []; events = [] }

-- A list that names the same job twice.
abbrev twice : List ParsedJob
twice = pasted "Aurora" ∷ pasted "Aurora" ∷ pasted "Borealis" ∷ []

abbrev written : Import
written = write_rows unchanged unchanged 5 30 "m" no_board [] 1 (unmarked twice)

first_import : ingest unchanged unchanged 5 30 "m" no_board 1 twice skipped ≡ some written
unfolding ingest after_research existing_index index_of commit_import is_indexed is_refused
    same_index write_rows seen_at insert_application new_application unmarked new_of
first_import = refl

two_created : written.created ≡ 1 ∷ 2 ∷ []
unfolding write_rows seen_at insert_application unmarked
two_created = refl

abbrev again : Import
again =
    write_rows unchanged unchanged 5 40 "m" written.board
      (existing_index unchanged unchanged written.board 5) 3 (unmarked twice)

second_import : ingest unchanged unchanged 5 40 "m" written.board 3 twice skipped ≡ some again
unfolding ingest after_research commit_import is_indexed is_refused same_index existing_index
    index_of write_rows seen_at insert_application new_application unmarked new_of
second_import = refl

ingest-again_example :
    (length written.created + length written.duplicates ≡ length twice)
    × (again.board ≡ written.board)
    × (again.created ≡ [])
ingest-again_example =
    ingest-again unchanged unchanged 5 30 40 1 3 "m" "m" no_board twice written again first_import
      second_import
