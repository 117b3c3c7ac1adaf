-- ===== src/Agent/Announcements.antt =====
-- What a turn of the interviewer publishes (`run_turn`, apps/api/src/api/agent/loop.py).
use interview_helper.Prelude.{
  ℕ, ◌≤◌, ◌≡◌, refl, ap, Bool, true, false, List, [], ◌∷◌, ◌++◌, arith, if◌then◌else◌, length,
}
use interview_helper.Agent.{
  Tool, reveal_hint, record_observation, another, Event, item_presented, budget_warning, session,
  day, Answer, warnings, tool_use, tool_result, hint_revealed, observation_recorded, message_done,
  announced,
}

-- The ids of the published messages.
unfoldable pub done_of : List Event → List ℕ
done_of [] = []
done_of (item_presented ∷ es) = done_of es
done_of (budget_warning w ∷ es) = done_of es
done_of (tool_use t ∷ es) = done_of es
done_of (tool_result t e ∷ es) = done_of es
done_of (hint_revealed ∷ es) = done_of es
done_of (observation_recorded ∷ es) = done_of es
done_of (message_done n ∷ es) = n ∷ done_of es

pub done-append : (xs ys : List Event) → done_of (xs ++ ys) ≡ done_of xs ++ done_of ys
unfolding done_of
done-append [] ys = refl
done-append (item_presented ∷ xs) ys = done-append xs ys
done-append (budget_warning w ∷ xs) ys = done-append xs ys
done-append (tool_use t ∷ xs) ys = done-append xs ys
done-append (tool_result t e ∷ xs) ys = done-append xs ys
done-append (hint_revealed ∷ xs) ys = done-append xs ys
done-append (observation_recorded ∷ xs) ys = done-append xs ys
done-append (message_done n ∷ xs) ys = ap (λ ns. n ∷ ns) (done-append xs ys)

-- What a use of a tool publishes.
abbrev pub heard : Tool → Bool → List Event
heard asked is_error =
    tool_use asked ∷ tool_result asked is_error ∷ (if is_error then [] else announced asked)

pub heard_is_short : (asked : Tool) (is_error : Bool) → length (heard asked is_error) ≤ 3
unfolding announced
heard_is_short asked true = omega arith
heard_is_short reveal_hint false = omega arith
heard_is_short record_observation false = omega arith
heard_is_short (another i) false = omega arith

pub heard_is_silent : (asked : Tool) (is_error : Bool) → done_of (heard asked is_error) ≡ []
unfolding done_of announced
heard_is_silent asked true = refl
heard_is_silent reveal_hint false = refl
heard_is_silent record_observation false = refl
heard_is_silent (another i) false = refl

-- What is published before the first round.
abbrev pub opening : Bool → List Event
opening is_first = if is_first then item_presented ∷ [] else []

pub opening_is_short : (is_first : Bool) → length (opening is_first) ≤ 1
opening_is_short true = omega arith
opening_is_short false = omega arith

pub opening_is_silent : (is_first : Bool) → done_of (opening is_first) ≡ []
unfolding done_of
opening_is_silent true = refl
opening_is_silent false = refl

pub warnings_are_few : (answer : Answer) → length (warnings answer) ≤ 2
unfolding warnings
warnings_are_few answer = few answer.session_in_sight answer.day_in_sight
  where
    few :
        (a b : Bool)
        → length (
            (if a then budget_warning session ∷ [] else [])
            ++ (if b then budget_warning day ∷ [] else []))
          ≤ 2
    few true true = omega arith
    few true false = omega arith
    few false true = omega arith
    few false false = omega arith

pub warnings_are_silent : (answer : Answer) → done_of (warnings answer) ≡ []
unfolding warnings done_of
warnings_are_silent answer = silent answer.session_in_sight answer.day_in_sight
  where
    silent :
        (a b : Bool)
        → done_of (
            (if a then budget_warning session ∷ [] else [])
            ++ (if b then budget_warning day ∷ [] else []))
          ≡ []
    silent true true = refl
    silent true false = refl
    silent false true = refl
    silent false false = refl
