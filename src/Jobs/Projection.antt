-- ===== src/Jobs/Projection.antt =====
-- `project` (apps/api/src/api/jobs.py): the current stage, the furthest stage and the outcome, from the events alone.
pub mod Furthest
use interview_helper.Prelude.{
  ℕ, ◌≤◌, ◌≡◌, Bool, Option, none, some, List, [], ◌∷◌, leb, ltb, if◌then◌else◌,
}
use interview_helper.Jobs.{
  Stage, applied, rank, rank_or_zero, Outcome, still_open, outcome_for_stage, JobEvent,
}

-- `sorted(events, key=lambda event: event.sequence)`, which is stable.
unfoldable pub insert : JobEvent → List JobEvent → List JobEvent
insert e [] = e ∷ []
insert e (x ∷ xs) = if leb e.sequence x.sequence then e ∷ x ∷ xs else x ∷ insert e xs

unfoldable pub sort : List JobEvent → List JobEvent
unfolding insert
sort [] = []
sort (e ∷ es) = insert e (sort es)

-- The test `event.stage in RANK and RANK[event.stage] > RANK[furthest]`.
abbrev pub is_further : Stage → Stage → Bool
is_further furthest s = elim (rank s) [ none ↦ Bool.false | some r ↦ ltb (rank_or_zero furthest) r ]

-- The loop over the ordered events.
unfoldable pub furthest_from : Stage → List JobEvent → Stage
furthest_from furthest [] = furthest
furthest_from furthest (e ∷ es) =
    furthest_from (if is_further furthest e.stage then e.stage else furthest) es

-- `ordered[-1].stage`, of a list that is not empty.
unfoldable pub last_stage : Stage → List JobEvent → Stage
last_stage s [] = s
last_stage s (e ∷ es) = last_stage e.stage es

pub record Standing : Type 0 where
  pub current : Stage
  pub furthest : Stage
  pub outcome : Outcome

unfoldable pub standing : List JobEvent → Standing
unfolding furthest_from last_stage
standing [] = record { current = applied; furthest = applied; outcome = still_open }
standing (e ∷ es) = record {
  current = last_stage e.stage es;
  furthest = furthest_from applied (e ∷ es);
  outcome = outcome_for_stage (last_stage e.stage es);
}

unfoldable pub project : List JobEvent → Standing
unfolding standing sort
project events = standing (sort events)
