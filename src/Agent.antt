-- ===== src/Agent.antt =====
-- apps/api/src/api/agent/loop.py: `run_turn`, one message of the candidate and one reply of the
-- interviewer. The model and the tools are arguments: what the model asks for after the rows of this turn,
-- if it answers at all, with the ceilings that are then in sight, and what a tool does with the context and
-- whether it succeeds. The warnings are what `_warn_if_close_to_a_ceiling` of apps/api/src/api/llm.py
-- publishes on the same channel once the provider answered. Of a row its number
-- and role are kept, of an event its name and the number or the tool that it carries; the deltas that the
-- model's client publishes while it answers are left out.
pub mod Announcements
pub mod Bounds
mod Tests
use interview_helper.Prelude.{
  ℕ, zero, suc, ◌+◌, Bool, true, false, Option, none, some, List, [], ◌∷◌, ◌++◌, leb, ◌==◌,
  if◌then◌else◌, length,
}

abbrev pub is_empty : {A : Type 0} → List A → Bool
is_empty [] = true
is_empty _ = false

pub data Role : Type 0 where
  candidate interviewer tool : Role

-- The tools by name: the two that the loop tells apart, and the others.
pub data Tool : Type 0 where
  reveal_hint record_observation : Tool
  another : ℕ → Tool

pub data Scope : Type 0 where
  session day : Scope

pub data Event : Type 0 where
  item_presented : Event
  budget_warning : Scope → Event
  tool_use : Tool → Event
  tool_result : Tool → Bool → Event
  hint_revealed observation_recorded : Event
  message_done : ℕ → Event

pub record TurnRow : Type 0 where
  pub seq : ℕ
  pub role : Role

-- What comes of a call of the model: the tools it asks for, and whether a fifth or less is left of the tokens
-- of the session, and of those of the day.
pub record Answer : Type 0 where
  pub uses : List Tool
  pub session_in_sight : Bool
  pub day_in_sight : Bool

abbrev pub max_tool_rounds : ℕ
max_tool_rounds = 5

abbrev pub max_tool_calls_per_turn : ℕ
max_tool_calls_per_turn = 12

-- A turn as far as it has come; `evidence` counts the observations that were written to the projection.
pub record Turn (C : Type 0) : Type 0 where
  pub seq : ℕ
  pub rows : List TurnRow
  pub written : ℕ
  pub calls : List Tool
  pub context : C
  pub evidence : ℕ
  pub events : List Event

-- How a turn ends: with a reply, with the reply of the cap, or with an exception of the model.
pub data Ending (C : Type 0) : Type 0 where
  replied capped failed : Turn C → Ending C

module _ {C : Type 0} where
  -- `_write`, and the number for the next row.
  unfoldable pub write : Role → Turn C → Turn C
  write role t = record t {
    rows = t.rows ++ (record { seq = t.seq; role = role } ∷ []);
    seq = suc t.seq;
    written = suc t.written;
  }

  unfoldable pub publish : List Event → Turn C → Turn C
  publish events t = record t { events = t.events ++ events }

  -- A row of the interviewer whose text is published as the message.
  unfoldable pub say : Turn C → Turn C
  say t = publish (message_done t.seq ∷ []) (write interviewer t)

-- `_warn_if_close_to_a_ceiling`
unfoldable pub warnings : Answer → List Event
warnings answer =
    (if answer.session_in_sight then budget_warning session ∷ [] else [])
    ++ (if answer.day_in_sight then budget_warning day ∷ [] else [])

-- What is published after a successful use of the two tools.
unfoldable pub announced : Tool → List Event
announced reveal_hint = hint_revealed ∷ []
announced record_observation = observation_recorded ∷ []
announced (another i) = []

-- The rows of evidence that a successful use writes.
unfoldable pub observed : Tool → ℕ
observed reveal_hint = 0
observed record_observation = 1
observed (another i) = 0

module _ {C : Type 0} (dispatch : Tool → C → C × Bool) where
  -- One pass of the loop over the uses; `dispatch` answers whether the tool failed.
  unfoldable pub run_tool : Tool → Turn C → Turn C
  run_tool asked t =
      let outcome = dispatch asked t.context in
      let is_error = outcome.1 in
      write tool (record t {
        context = outcome.0;
        evidence = if is_error then t.evidence else t.evidence + observed asked;
        calls = t.calls ++ (asked ∷ []);
        events =
            t.events
            ++ (tool_use asked
                ∷ tool_result asked is_error
                ∷ (if is_error then [] else announced asked));
      })

  -- The loop over the uses of one answer, and whether it was cut short.
  unfoldable pub run_tools : List Tool → Turn C → Turn C × Bool
  run_tools [] t = (t, false)
  run_tools (asked ∷ uses) t =
      let rest = run_tools uses (run_tool asked t) in
      if leb max_tool_calls_per_turn (length t.calls) then (t, true) else rest

module _ {C : Type 0} (ask : List TurnRow → C → Option Answer)
    (dispatch : Tool → C → C × Bool) where
  -- The loop over the rounds that are left.
  unfoldable pub rounds : ℕ → Turn C → Ending C
  rounds zero t = capped (say t)
  rounds (suc left) t = elim (ask t.rows t.context) [
    | none ↦ failed t
    | some answer ↦
        let warned = publish (warnings answer) t in
        let used = run_tools dispatch answer.uses (write interviewer warned) in
        let onward = rounds left used.0 in
        if is_empty answer.uses
        then replied (say warned)
        else if used.1
        then capped (say used.0)
        else onward
  ]

  -- A turn whose first free number is `next_seq`, the first of a session where that is 1.
  unfoldable pub run_turn : ℕ → C → Ending C
  run_turn next_seq context = rounds max_tool_rounds (
      write candidate (record {
        seq = next_seq;
        rows = [];
        written = 0;
        calls = [];
        context = context;
        evidence = 0;
        events = if suc next_seq == 2 then item_presented ∷ [] else [];
      }))
