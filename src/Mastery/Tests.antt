-- ===== src/Mastery/Tests.antt =====
-- Concrete runs: an attempt whose grading has two rows on the primary concept, and an observation.
use interview_helper.Prelude.{ℕ, ◌+◌, ◌-◌, ◌*◌, ◌/◌, ◌≡◌, refl, some, List, [], ◌∷◌, map}
use interview_helper.Mastery.{
  Source, session_grading, interviewer_observation, Evidence, Arithmetic, Item, Store, earliest,
  is_first, moves_item, item_of, put_item, row_for, put_row, advance_row, move_item, apply_evidence,
  record_evidence, recompute, reset_item,
}
use interview_helper.Mastery.Replay.{Reach, fresh, records, recompute-Reach, recompute_twice}

-- Ratings in whole points, scores in hundredths.
abbrev plain : Arithmetic ℕ ℕ
plain = record {
  add = λ x y. x + y;
  sub = λ x y. x - y;
  mul = λ x y. x * y / 100;
  expected_score = λ x y. 50 + (x - y) / 10 - (y - x) / 10;
  k_factor = λ n. 40 - n;
  k_item = 4;
  default_ability = 1550;
  new_card = λ e. e.ts;
  review_card = λ c e. c + e.score;
  stability = λ c. some c;
  due = λ c. c + 10;
}

abbrev row : ℕ → Source → ℕ → ℕ → Evidence ℕ
row i source concept score = record {
  id = i;
  concept_id = concept;
  source = source;
  item_id = some 5;
  session_id = some 1;
  score = score;
  confidence = 100;
  ts = 1000 + i;
}

abbrev items : List (Item ℕ)
items = record { id = 5; primary_concept_id = 2; difficulty_elo = 1600; elo = 1600 } ∷ []

abbrev graded : List (Evidence ℕ)
graded = row 2 session_grading 2 90 ∷ row 3 session_grading 2 80 ∷ row 4 session_grading 7 70 ∷ []

abbrev start : Store ℕ ℕ
start = record { evidence = []; projection = record { mastery = []; items = map reset_item items } }

abbrev observed : Store ℕ ℕ
observed = record_evidence plain start (row 1 interviewer_observation 2 60 ∷ [])

abbrev after : Store ℕ ℕ
after = record_evidence plain observed graded

-- The rating has moved once, from 1600.
moved_once : map (λ i. i.elo) after.projection.items ≡ 1599 ∷ []
unfolding record_evidence apply_evidence row_for put_row advance_row move_item item_of put_item
    moves_item is_first earliest
moved_once = refl

after-Reach : Reach plain after
unfolding record_evidence
after-Reach =
    records graded ((refl, (refl, (refl, tt))), ((refl, (refl, tt)), ((refl, tt), (tt, tt))))
      (records (row 1 interviewer_observation 2 60 ∷ []) (tt, tt) (fresh items))

recompute-Reach_example : recompute plain after ≡ after
recompute-Reach_example = recompute-Reach plain after-Reach

-- Two rows that are stored against their order.
abbrev crossed : Store ℕ ℕ
crossed = record start { evidence = row 3 session_grading 2 80 ∷ row 2 session_grading 2 90 ∷ [] }

recompute_twice_example : recompute plain (recompute plain crossed) ≡ recompute plain crossed
recompute_twice_example = recompute_twice plain crossed
