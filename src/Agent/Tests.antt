-- ===== src/Agent/Tests.antt =====
-- Concrete runs: a model that asks for two hints and then talks, one that always asks for five runs of
-- code near the ceiling of the day, and one that raises. The context counts the uses.
use interview_helper.Prelude.{
  ℕ, suc, ◌≡◌, refl, Bool, true, false, Option, none, some, List, [], ◌∷◌, leb, if◌then◌else◌,
  replicate, length,
}
use interview_helper.Agent.{
  Answer, warnings, Tool, reveal_hint, another, TurnRow, Ending, replied, capped, failed, write,
  publish, say, announced, observed, run_tool, run_tools, rounds, run_turn,
}
use interview_helper.Agent.Announcements.{done_of}
use interview_helper.Agent.Bounds.{Ends, run_turn-Ends}

-- The second use of a tool fails.
abbrev use_once : Tool → ℕ → ℕ × Bool
use_once asked n = (suc n, leb 1 n)

-- An answer, behind which the ceiling of the day is in sight or not.
abbrev asks : List Tool → Bool → Answer
asks uses close = record { uses = uses; session_in_sight = false; day_in_sight = close }

abbrev hints_then_text : List TurnRow → ℕ → Option Answer
hints_then_text rows n =
    if leb (length rows) 1
    then some (asks (reveal_hint ∷ reveal_hint ∷ []) false)
    else some (asks [] false)

abbrev always_five : List TurnRow → ℕ → Option Answer
always_five rows n = some (asks (replicate 5 (another 0)) true)

abbrev raises : List TurnRow → ℕ → Option Answer
raises rows n = none

-- How many rows, calls and events, and the messages.
abbrev tally : Ending ℕ → ℕ × (ℕ × (ℕ × List ℕ))
tally (replied t) = (length t.rows, (length t.calls, (length t.events, done_of t.events)))
tally (capped t) = (length t.rows, (length t.calls, (length t.events, done_of t.events)))
tally (failed t) = (length t.rows, (length t.calls, (length t.events, done_of t.events)))

hints_are_given : tally (run_turn hints_then_text use_once 1 0) ≡ (5, (2, (7, 5 ∷ [])))
unfolding run_turn rounds run_tools run_tool warnings say publish write announced observed done_of
hints_are_given = refl

five_is_capped : tally (run_turn always_five use_once 4 0) ≡ (17, (12, (28, 20 ∷ [])))
unfolding run_turn rounds run_tools run_tool warnings say publish write announced observed done_of
five_is_capped = refl

nothing_is_said : tally (run_turn raises use_once 4 0) ≡ (1, (0, (0, [])))
unfolding run_turn rounds run_tools run_tool warnings say publish write announced observed done_of
nothing_is_said = refl

run_turn-Ends_example : Ends 4 (run_turn always_five use_once 4 0)
run_turn-Ends_example = run_turn-Ends always_five use_once 4 0
