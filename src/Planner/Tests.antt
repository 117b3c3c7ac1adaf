-- ===== src/Planner/Tests.antt =====
-- Concrete runs: a corpus of three items, with a review that fits and with one that does not.
use interview_helper.Prelude.{
  ℕ, ◌+◌, ◌-◌, ◌≡◌, refl, ◌∙◌, sym, ap, ◌↔◌, true, some, List, [], ◌∷◌, all, Distinct, All,
  if◌then◌else◌, ◌==◌,
}
use mathlib.Core.List.{Memᴰ}
use mathlib.Core.List.Memᴰ
use interview_helper.Planner.{
  Item, Entry, Mastery, Inputs, coding, minutes_of, pool_of, is_serveable, entry_of, prereqs_of,
  weaker_of, weakest_from, prerequisite_substitution, band_distance, get_or, closest_from,
  distance_of, shortlisted, shortlist_from,
}
use interview_helper.Planner.Plan.{
  insert, sort, is_due, review_item, choose, fill, reserved_for, append_review, plan_within,
  build_plan, plan_item_ids, is_review,
}
use interview_helper.Planner.Substitution.{Verdict, prerequisite_substitution-Verdict}
use interview_helper.Planner.Budget.{Fits, build_plan-Fits}
use interview_helper.Planner.Items.{IsCandidate, build_plan-Distinct}
use interview_helper.Planner.Empty.{NoRoom, build_plan-empty}

abbrev item : ℕ → ℕ → ℕ → Item
item i primary minutes = record {
  id = i;
  is_instance = true;
  is_active = true;
  modality = coding;
  concepts = primary ∷ [];
  primary_concept = primary;
  expected_minutes = some minutes;
  elo = 1500;
}

abbrev entry : ℕ → ℕ → ℕ → Entry
entry c priority ability = record { concept_id = c; priority = priority; ability = ability }

abbrev score : ℕ → ℕ → ℕ
score ability elo = 500 + ability - elo

abbrev small : Inputs
small = record {
  candidates = item 10 1 25 ∷ item 11 2 20 ∷ item 12 3 30 ∷ [];
  ranked = entry 1 900 1500 ∷ entry 2 700 1550 ∷ entry 3 500 1700 ∷ [];
  edges = record { concept_id = 2; prereq_id = 1 } ∷ [];
  live_elo = [];
  ability = [];
  low = 600;
  high = 750;
}

abbrev single : Inputs
single = record small { candidates = item 12 3 30 ∷ [] }

abbrev due_rows : List Mastery
due_rows = record { concept_id = 3; ability = 1700; due_at = some 5 } ∷ []

small_is_planned : plan_item_ids (build_plan score 9 60 small due_rows) ≡ 10 ∷ 12 ∷ []
unfolding minutes_of pool_of is_serveable entry_of prereqs_of weaker_of weakest_from
    prerequisite_substitution band_distance get_or closest_from distance_of shortlisted
    shortlist_from insert sort is_due review_item choose fill reserved_for append_review plan_within
    build_plan plan_item_ids
small_is_planned = refl

single_is_empty : plan_item_ids (build_plan score 9 20 single due_rows) ≡ []
unfolding minutes_of pool_of is_serveable entry_of prereqs_of weaker_of weakest_from
    prerequisite_substitution band_distance get_or closest_from distance_of shortlisted
    shortlist_from insert sort is_due review_item choose fill reserved_for append_review plan_within
    build_plan plan_item_ids
single_is_empty = refl

single_without_review : plan_item_ids (build_plan score 9 20 single []) ≡ 12 ∷ []
unfolding minutes_of pool_of is_serveable entry_of prereqs_of weaker_of weakest_from
    prerequisite_substitution band_distance get_or closest_from distance_of shortlisted
    shortlist_from insert sort is_due review_item choose fill reserved_for append_review plan_within
    build_plan plan_item_ids
single_without_review = refl

build_plan-Fits_example : Fits 60 (build_plan score 9 60 small due_rows)
build_plan-Fits_example = build_plan-Fits score 9 60 small due_rows

abbrev pick : ℕ → Item
pick i = if i == 10 then item 10 1 25 else if i == 11 then item 11 2 20 else item 12 3 30

picked : (i : Item) → Memᴰ i small.candidates → i ≡ pick i.id
picked i (Memᴰ.head e) = e ∙ sym (ap (λ x. pick x.id) e)
picked i (Memᴰ.tail (Memᴰ.head e)) = e ∙ sym (ap (λ x. pick x.id) e)
picked i (Memᴰ.tail (Memᴰ.tail (Memᴰ.head e))) = e ∙ sym (ap (λ x. pick x.id) e)
picked i (Memᴰ.tail (Memᴰ.tail (Memᴰ.tail m))) = absurd (Memᴰ.not-nil m)

small_unique :
    (i j : Item) → Memᴰ i small.candidates → Memᴰ j small.candidates → i.id ≡ j.id → i ≡ j
small_unique i j mi mj h = picked i mi ∙ ap pick h ∙ sym (picked j mj)

build_plan-Distinct_example :
    Distinct (plan_item_ids (build_plan score 9 60 small due_rows))
    × All (IsCandidate small.candidates) (build_plan score 9 60 small due_rows).chosen
build_plan-Distinct_example = build_plan-Distinct score 9 60 small due_rows small_unique

build_plan-empty_example : ((build_plan score 9 20 single due_rows).chosen ≡ []) ↔ (
    (all
        (is_review (review_item 9 single.candidates due_rows))
        (shortlist_from score single [] single.ranked)
      ≡ true)
    × NoRoom 20 (review_item 9 single.candidates due_rows))
build_plan-empty_example = build_plan-empty score 9 20 single due_rows

prerequisite_substitution-Verdict_example :
    Verdict small.ranked small.candidates
      (prereqs_of small.edges 2)
      (entry 2 700 1550)
      (prerequisite_substitution small.ranked small.candidates small.edges (entry 2 700 1550))
prerequisite_substitution-Verdict_example =
    prerequisite_substitution-Verdict small.ranked small.candidates small.edges (entry 2 700 1550)
