-- ===== src/Planner/Budget.antt =====
-- The minutes of a plan (`build_plan`, apps/api/src/api/planner.py).
use interview_helper.Prelude.{
  ℕ, ◌+◌, ◌-◌, ◌≤◌, ◌≡◌, refl, ◌⊎◌, inl, inr, ◌↔◌, true, not, ◌&&◌, Option, none, some, List, [],
  ◌∷◌, ◌++◌, arith, ltb, leb, length, length-append, Bool-cases,
}
use interview_helper.Planner.{Row, Planned, Inputs, Mastery, minutes_of}
use interview_helper.Planner.Plan.{
  review_item, Choice, is_empty, is_review, planned, choose, fill, reserved_for, append_review,
  nothing, plan_within, build_plan,
}

unfoldable pub total_minutes : List Planned → ℕ
total_minutes [] = 0
total_minutes (p ∷ ps) = minutes_of p.expected_minutes + total_minutes ps

-- The estimate is the sum of the minutes of the items, and it is within the budget unless there is a
-- single item.
pub record Fits (budget : ℕ) (f : Choice) : Type 0 where
  pub estimated : f.spent ≡ total_minutes f.chosen
  pub within : (f.spent ≤ budget) ⊎ (length f.chosen ≤ 1)

total-append :
    (ps qs : List Planned) → total_minutes (ps ++ qs) ≡ total_minutes ps + total_minutes qs
unfolding total_minutes
total-append [] qs = omega arith
total-append (p ∷ ps) qs = omega (arith, total-append ps qs)

empty_length : (ps : List Planned) → (length ps ≤ 0) ↔ (is_empty ps ≡ true)
empty_length [] = (λ _. refl, λ _. omega arith)
empty_length (p ∷ ps) = (λ h. absurd (omega (arith, h)), λ h. absurd (ground (arith, h)))

choose-Fits :
    (budget : ℕ) (row : Row) (f : Choice)
    → Fits budget f
    → (is_empty f.chosen ≡ true) ⊎ (f.spent + minutes_of row.item.expected_minutes ≤ budget)
    → Fits budget (choose row f)
unfolding choose total_minutes
choose-Fits budget row f h room = record {
  estimated = omega (arith, h.estimated, total-append f.chosen (planned row ∷ []));
  within = elim room [
    | inl none_yet ↦
        let empty : length f.chosen ≤ 0 = (empty_length f.chosen).1 none_yet in
        inr (omega (arith, empty, length-append f.chosen (planned row ∷ [])))
    | inr fits ↦ inl fits
  ];
}

fill-Fits :
    (budget : ℕ) (review : Option Planned) (f : Choice) (rows : List Row)
    → Fits budget f
    → Fits budget (fill budget review f rows)
unfolding fill
fill-Fits budget review f [] h = h
fill-Fits budget review f (row ∷ rows) h =
    let skipped = fill-Fits budget review f rows h in
    elim (Bool-cases (is_review review row)) [
      | inl same ↦ rw (same, fill) skipped
      | inr other ↦ elim (Bool-cases (leb budget f.spent && not (is_empty f.chosen))) [
        | inl full ↦ rw (other, full, fill) h
        | inr room ↦
            elim (Bool-cases (
              not (is_empty f.chosen)
              && ltb budget (f.spent + minutes_of row.item.expected_minutes))) [
                | inl long ↦ rw (other, room, long, fill) skipped
                | inr short ↦
                    rw (other, room, short, fill)
                      (fill-Fits budget review (choose row f) rows
                        (choose-Fits budget row f h (ground (arith, short))))
              ]
      ]
    ]

append_review-Fits :
    (budget : ℕ) (review : Option Planned) (f : Choice)
    → Fits (budget - reserved_for review) f
    → Fits budget (append_review budget review f)
unfolding append_review reserved_for total_minutes
append_review-Fits budget none f h = record {
  estimated = h.estimated;
  within = ground (arith, h.within);
}
append_review-Fits budget (some r) f h =
    elim (Bool-cases (leb (f.spent + minutes_of r.expected_minutes) budget)) [
      | inl fits ↦
          rw (fits, append_review)
            (record {
              estimated = omega (arith, h.estimated, total-append f.chosen (r ∷ []));
              within = inl (ground (arith, fits));
            })
      | inr late ↦
          rw (late, append_review)
            (record { estimated = h.estimated; within = ground (arith, h.within) })
    ]

-- The minutes that a plan is estimated to take are the sum of those of its items (an item that
-- declares none counts for twenty), and they stay within the budget unless the plan is one item.
pub build_plan-Fits :
    (expected_score : ℕ → ℕ → ℕ) (now budget : ℕ) (inputs : Inputs) (mastery : List Mastery)
    → Fits budget (build_plan expected_score now budget inputs mastery)
unfolding build_plan plan_within total_minutes
build_plan-Fits expected_score now budget inputs mastery =
    let review = review_item now inputs.candidates mastery in
    append_review-Fits budget review _ (
      fill-Fits (budget - reserved_for review) review nothing _
        (record { estimated = refl; within = inl (omega arith) }))
