-- ===== src/Planner/Plan.antt =====
-- `build_plan` and `_review_item` (apps/api/src/api/planner.py): the review is reserved first, the
-- shortlist fills the rest of the minutes in its order, and the review comes last.
use interview_helper.Prelude.{
  ℕ, ◌+◌, ◌-◌, Bool, true, false, not, ◌&&◌, ◌||◌, Option, none, some, List, [], ◌∷◌, ◌++◌, ltb,
  leb, ◌==◌, if◌then◌else◌, map,
}
use interview_helper.Planner.{
  Item, Mastery, for_review, Row, Planned, Inputs, minutes_of, review_ability_floor, pool_of,
  shortlist_from,
}

-- The sort key `(-round(priority, 6), distance, item.id)`, compared strictly.
abbrev pub is_before : Row → Row → Bool
is_before a b =
    ltb b.priority a.priority
    || (a.priority == b.priority
        && (ltb a.distance b.distance || (a.distance == b.distance && ltb a.item.id b.item.id)))

unfoldable pub insert : Row → List Row → List Row
insert r [] = r ∷ []
insert r (x ∷ xs) = let behind = insert r xs in if is_before x r then x ∷ behind else r ∷ x ∷ xs

unfoldable pub sort : List Row → List Row
sort [] = []
sort (r ∷ rs) = insert r (sort rs)

-- A concept that is due, and that the user is good at.
unfoldable pub is_due : ℕ → Mastery → Bool
is_due now row = elim row.due_at [
  | none ↦ false
  | some due ↦ leb due now && leb review_ability_floor row.ability
]

-- The rows come as the query orders them, by the time they are due and by concept.
unfoldable pub review_item : ℕ → List Item → List Mastery → Option Planned
review_item now candidates [] = none
review_item now candidates (row ∷ rows) =
    let later = review_item now candidates rows in
    if is_due now row
    then elim (pool_of candidates row.concept_id) [
      | [] ↦ later
      | i ∷ _ ↦ some (record {
        item_id = i.id;
        primary_concept = row.concept_id;
        expected_minutes = i.expected_minutes;
        note = for_review;
      })
    ]
    else later

-- What was chosen so far, the newest last, and the minutes it takes.
pub record Choice : Type 0 where
  pub chosen : List Planned
  pub spent : ℕ

abbrev pub is_empty : List Planned → Bool
is_empty [] = true
is_empty (_ ∷ _) = false

-- `review is not None and item.id == review["item_id"]`
abbrev pub is_review : Option Planned → Row → Bool
is_review none row = false
is_review (some r) row = row.item.id == r.item_id

abbrev pub planned : Row → Planned
planned row = record {
  item_id = row.item.id;
  primary_concept = row.concept_id;
  expected_minutes = row.item.expected_minutes;
  note = row.note;
}

unfoldable pub choose : Row → Choice → Choice
choose row f = record {
  chosen = f.chosen ++ (planned row ∷ []);
  spent = f.spent + minutes_of row.item.expected_minutes;
}

-- The loop over the sorted shortlist.
unfoldable pub fill : ℕ → Option Planned → Choice → List Row → Choice
fill budget review f [] = f
fill budget review f (row ∷ rows) =
    let skipped = fill budget review f rows in
    let taken = fill budget review (choose row f) rows in
    if is_review review row
    then skipped
    else if leb budget f.spent && not (is_empty f.chosen)
    then f
    else if not (is_empty f.chosen) && ltb budget (f.spent + minutes_of row.item.expected_minutes)
    then skipped
    else taken

-- The minutes that the review is given in advance.
unfoldable pub reserved_for : Option Planned → ℕ
reserved_for none = 0
reserved_for (some r) = minutes_of r.expected_minutes

-- `if review is not None and spent + reserved <= budget_minutes`
unfoldable pub append_review : ℕ → Option Planned → Choice → Choice
append_review budget none f = f
append_review budget (some r) f =
    if leb (f.spent + reserved_for (some r)) budget
    then record { chosen = f.chosen ++ (r ∷ []); spent = f.spent + reserved_for (some r) }
    else f

abbrev pub nothing : Choice
nothing = record { chosen = []; spent = 0 }

-- The items of the plan and the minutes that it is estimated to take.
unfoldable pub plan_within : ℕ → Option Planned → List Row → Choice
plan_within budget review rows =
    append_review budget review (fill (budget - reserved_for review) review nothing rows)

module _ (expected_score : ℕ → ℕ → ℕ) where
  unfoldable pub build_plan : ℕ → ℕ → Inputs → List Mastery → Choice
  build_plan now budget inputs mastery =
      plan_within budget (review_item now inputs.candidates mastery)
        (sort (shortlist_from expected_score inputs [] inputs.ranked))

-- `plan_item_ids`
unfoldable pub plan_item_ids : Choice → List ℕ
plan_item_ids f = map (λ p. p.item_id) f.chosen
