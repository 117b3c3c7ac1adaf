-- ===== src/Planner/Empty.antt =====
-- When a plan (`build_plan`, apps/api/src/api/planner.py) has no item at all.
use interview_helper.Prelude.{
  ℕ, ◌+◌, ◌-◌, ◌<◌, ◌≡◌, refl, ◌∙◌, sym, inl, inr, ◌↔◌, Bool, true, false, ◌&&◌, Option, none, some,
  List, [], ◌∷◌, ◌++◌, arith, leb, Bool-cases, all,
}
use interview_helper.Planner.{Row, Planned, Inputs, Mastery, minutes_of, shortlist_from}
use interview_helper.Planner.Plan.{
  insert, sort, review_item, Choice, is_empty, is_review, planned, choose, fill, reserved_for,
  append_review, nothing, plan_within, build_plan,
}

is_empty-snoc : (ps : List Planned) (p : Planned) → is_empty (ps ++ (p ∷ [])) ≡ false
is_empty-snoc [] p = refl
is_empty-snoc (q ∷ ps) p = refl

fill_keeps :
    (budget : ℕ) (review : Option Planned) (f : Choice) (rows : List Row)
    → is_empty f.chosen ≡ false
    → is_empty (fill budget review f rows).chosen ≡ false
unfolding fill choose
fill_keeps budget review f [] h = h
fill_keeps budget review f (row ∷ rows) h =
    let skipped = fill_keeps budget review f rows h in
    let taken =
      fill_keeps budget review (choose row f) rows (is_empty-snoc f.chosen (planned row)) in
    ground (arith, skipped, taken, h)

fill-empty :
    (budget : ℕ) (review : Option Planned) (rows : List Row)
    → is_empty (fill budget review nothing rows).chosen ≡ all (is_review review) rows
unfolding fill choose
fill-empty budget review [] = refl
fill-empty budget review (row ∷ rows) =
    let skipped = fill-empty budget review rows in
    let taken = fill_keeps budget review (choose row nothing) rows refl in
    ground (arith, skipped, taken)

fill-spent :
    (budget : ℕ) (review : Option Planned) (rows : List Row)
    → all (is_review review) rows ≡ true
    → (fill budget review nothing rows).spent ≡ 0
unfolding fill
fill-spent budget review [] h = refl
fill-spent budget review (row ∷ rows) h =
    let same : is_review review row ≡ true = ground (arith, h) in
    rw (same, fill) (fill-spent budget review rows (ground (arith, h)))

all-insert : (f : Row → Bool) (r : Row) (xs : List Row) → all f (insert r xs) ≡ (f r && all f xs)
unfolding insert
all-insert f r [] = refl
all-insert f r (x ∷ xs) = ground (arith, all-insert f r xs)

all-sort : (f : Row → Bool) (xs : List Row) → all f (sort xs) ≡ all f xs
unfolding sort
all-sort f [] = refl
all-sort f (x ∷ xs) = ground (arith, all-insert f x (sort xs), all-sort f xs)

-- No review fits, by itself, into the budget.
abbrev pub NoRoom : ℕ → Option Planned → Type 0
NoRoom budget none = Unit
NoRoom budget (some r) = budget < minutes_of r.expected_minutes

append_review-empty :
    (budget : ℕ) (review : Option Planned) (rows : List Row)
    → (is_empty
          (append_review budget review
            (fill (budget - reserved_for review) review nothing rows)).chosen
        ≡ true)
      ↔ ((all (is_review review) rows ≡ true) × NoRoom budget review)
unfolding append_review reserved_for
append_review-empty budget none rows =
    let filled = fill-empty (budget - 0) none rows in (λ h. (sym filled ∙ h, tt), λ h. filled ∙ h.0)
append_review-empty budget (some r) rows =
    let rest = budget - minutes_of r.expected_minutes in
    let filled = fill-empty rest (some r) rows in
    let f = fill rest (some r) nothing rows in
    let spent = fill-spent rest (some r) rows in
    elim (Bool-cases (leb (f.spent + minutes_of r.expected_minutes) budget)) [
      | inl fits ↦
          rw (fits, append_review)
            (
              λ h. absurd (ground (arith, h, is_empty-snoc f.chosen r)),
              λ h. absurd (ground (arith, fits, spent h.0, h.1)),
            )
      | inr late ↦
          rw (late, append_review)
            (
              λ h. let every = sym filled ∙ h in (every, ground (arith, late, spent every)),
              λ h. filled ∙ h.0,
            )
    ]

is_empty_iff : (ps : List Planned) → (ps ≡ []) ↔ (is_empty ps ≡ true)
is_empty_iff [] = (λ _. refl, λ _. refl)
is_empty_iff (p ∷ ps) = (λ h. absurd (ground (arith, h)), λ h. absurd (ground (arith, h)))

-- A plan is empty exactly if every row of the shortlist is for the item of the review, and that review,
-- if there is one, is longer than the budget.
pub build_plan-empty :
    (expected_score : ℕ → ℕ → ℕ) (now budget : ℕ) (inputs : Inputs) (mastery : List Mastery)
    → ((build_plan expected_score now budget inputs mastery).chosen ≡ []) ↔ (
        (all
            (is_review (review_item now inputs.candidates mastery))
            (shortlist_from expected_score inputs [] inputs.ranked)
          ≡ true)
        × NoRoom budget (review_item now inputs.candidates mastery))
unfolding build_plan plan_within
build_plan-empty expected_score now budget inputs mastery =
    let review = review_item now inputs.candidates mastery in
    let rows = shortlist_from expected_score inputs [] inputs.ranked in
    let empty = is_empty_iff (build_plan expected_score now budget inputs mastery).chosen in
    let whole = append_review-empty budget review (sort rows) in
    let same = all-sort (is_review review) rows in
    (
      λ h. let w = whole.0 (empty.0 h) in (sym same ∙ w.0, w.1),
      λ h. empty.1 (whole.1 (same ∙ h.0, h.1)),
    )
