-- ===== src/Planner.antt =====
-- apps/api/src/api/planner.py: the choice of the items of a session. Ids, ratings and scores are
-- numbers, the scores in thousandths and a priority in millionths, to which it is rounded for the
-- sort. Arguments are `expected_score` (floating point), the ranking of the concepts and the band,
-- which the difficulty bias has shifted already.
pub mod Plan
pub mod Substitution
pub mod Choice
pub mod Items
pub mod Empty
pub mod Budget
mod Tests
use interview_helper.Prelude.{
  ℕ, zero, suc, ◌+◌, ◌-◌, ◌≡◌, Bool, true, false, not, ◌&&◌, ◌||◌, Option, none, some, List, [],
  ◌∷◌, ◌++◌, ltb, leb, ◌==◌, if◌then◌else◌, select, any, contains, map,
}

pub data Modality : Type 0 where
  coding quant design behavioral : Modality

abbrev pub same_modality : Modality → Modality → Bool
same_modality coding coding = true
same_modality quant quant = true
same_modality design design = true
same_modality behavioral behavioral = true
same_modality _ _ = false

-- An item of the corpus.
pub record Item : Type 0 where
  pub id : ℕ
  pub is_instance : Bool
  pub is_active : Bool
  pub modality : Modality
  pub concepts : List ℕ
  pub primary_concept : ℕ
  pub expected_minutes : Option ℕ
  pub elo : ℕ

-- A concept as `rank_concepts` ranks it.
pub record Entry : Type 0 where
  pub concept_id : ℕ
  pub priority : ℕ
  pub ability : ℕ

pub record Edge : Type 0 where
  pub concept_id : ℕ
  pub prereq_id : ℕ

-- A row of mastery of the user.
pub record Mastery : Type 0 where
  pub concept_id : ℕ
  pub ability : ℕ
  pub due_at : Option ℕ

pub data Note : Type 0 where
  no_note not_measured : Note
  substituted : ℕ → Note
  for_review : Note

pub record Row : Type 0 where
  pub priority : ℕ
  pub distance : ℕ
  pub concept_id : ℕ
  pub item : Item
  pub note : Note

-- An entry of the plan.
pub record Planned : Type 0 where
  pub item_id : ℕ
  pub primary_concept : ℕ
  pub expected_minutes : Option ℕ
  pub note : Note

abbrev pub assumed_minutes : ℕ
assumed_minutes = 20

abbrev pub review_ability_floor : ℕ
review_ability_floor = 1610

-- `expected_minutes or ASSUMED_MINUTES`
unfoldable pub minutes_of : Option ℕ → ℕ
minutes_of none = assumed_minutes
minutes_of (some zero) = assumed_minutes
minutes_of (some (suc n)) = suc n

unfoldable pub instances_of : Modality → List Item → List Item
instances_of mode corpus =
    select (λ i. i.is_instance && i.is_active && same_modality i.modality mode) corpus

unfoldable pub eligible_items : Modality → List ℕ → List Item → List Item
eligible_items mode [] corpus = instances_of mode corpus
eligible_items mode (f ∷ focus) corpus =
    select (λ i. any (λ c. contains c (f ∷ focus)) i.concepts) (instances_of mode corpus)

-- `by_primary.get(concept_id, [])`
unfoldable pub pool_of : List Item → ℕ → List Item
pool_of candidates c = select (λ i. i.primary_concept == c) candidates

-- `concept_id in by_primary`
unfoldable pub is_serveable : List Item → ℕ → Bool
is_serveable candidates c = any (λ i. i.primary_concept == c) candidates

-- `by_id.get(concept_id)`: of two entries for a concept the later one counts.
unfoldable pub entry_of : List Entry → ℕ → Option Entry
entry_of [] c = none
entry_of (e ∷ es) c = elim (entry_of es c) [
  | some later ↦ some later
  | none ↦ if e.concept_id == c then some e else none
]

unfoldable pub prereqs_of : List Edge → ℕ → List ℕ
prereqs_of edges c = map (λ e. e.prereq_id) (select (λ e. e.concept_id == c) edges)

-- `[by_id[p] for p in prereqs if p in by_id and by_id[p].ability < entry.ability]`
unfoldable pub weaker_of : List Entry → ℕ → List ℕ → List Entry
weaker_of ranked ability [] = []
weaker_of ranked ability (p ∷ ps) =
    let rest = weaker_of ranked ability ps in
    elim (entry_of ranked p) [
      | none ↦ rest
      | some e ↦ if ltb e.ability ability then e ∷ rest else rest
    ]

-- `min(..., key=lambda candidate: candidate.ability)`: the first of the least.
unfoldable pub weakest_from : Entry → List Entry → Entry
weakest_from least [] = least
weakest_from least (e ∷ es) = weakest_from (if ltb e.ability least.ability then e else least) es

unfoldable pub prerequisite_substitution : List Entry → List Item → List Edge → Entry → ℕ × Note
prerequisite_substitution ranked candidates edges entry =
    elim (weaker_of ranked entry.ability (prereqs_of edges entry.concept_id)) [
      | [] ↦ (entry.concept_id, no_note)
      | e ∷ es ↦
          let weakest = weakest_from e es in
          if is_serveable candidates weakest.concept_id
          then (weakest.concept_id, substituted entry.concept_id)
          else (entry.concept_id, not_measured)
    ]

unfoldable pub band_distance : ℕ → ℕ → ℕ → ℕ
band_distance expected low high =
    if ltb expected low then low - expected else if ltb high expected then expected - high else 0

-- `dict.get(key, default)`, on the pairs of a dict
unfoldable pub get_or : List (ℕ × ℕ) → ℕ → ℕ → ℕ
get_or [] key default = default
get_or ((k, v) ∷ rest) key default =
    let behind = get_or rest key default in if k == key then v else behind

-- `(distance, id)` of one item against that of another
abbrev pub is_closer : (Item → ℕ) → Item → Item → Bool
is_closer distance i j =
    ltb (distance i) (distance j) || (distance i == distance j && ltb i.id j.id)

unfoldable pub closest_from : (Item → ℕ) → Item → List Item → Item
closest_from distance best [] = best
closest_from distance best (i ∷ rest) =
    closest_from distance (if is_closer distance i best then i else best) rest

-- What the choice reads: the candidates, the ranking, the edges, the live ratings, the abilities of
-- the mastery rows, and the band.
pub record Inputs : Type 0 where
  pub candidates : List Item
  pub ranked : List Entry
  pub edges : List Edge
  pub live_elo : List (ℕ × ℕ)
  pub ability : List (ℕ × ℕ)
  pub low : ℕ
  pub high : ℕ

-- `[entry for entry in ranked if entry.concept_id in wanted] or ranked`
unfoldable pub focus_entries : List ℕ → List Entry → List Entry
focus_entries [] ranked = ranked
focus_entries (f ∷ focus) ranked = elim (select (λ e. contains e.concept_id (f ∷ focus)) ranked) [
  | [] ↦ ranked
  | e ∷ es ↦ e ∷ es
]

-- What `build_plan` reads for a request.
abbrev pub inputs_for :
    Modality
    → List ℕ
    → List Item
    → List Entry
    → List Edge
    → List (ℕ × ℕ)
    → List (ℕ × ℕ)
    → ℕ
    → ℕ
    → Inputs
inputs_for mode focus corpus ranked edges live_elo ability low high = record {
  candidates = eligible_items mode focus corpus;
  ranked = focus_entries focus ranked;
  edges = edges;
  live_elo = live_elo;
  ability = ability;
  low = low;
  high = high;
}

module _ (expected_score : ℕ → ℕ → ℕ) where
  unfoldable pub distance_of : Inputs → ℕ → Entry → Item → ℕ
  distance_of inputs c target i =
      band_distance
        (expected_score (get_or inputs.ability c target.ability)
          (get_or inputs.live_elo i.id i.elo))
        inputs.low inputs.high

  -- The row that an entry of the ranking adds to the shortlist, if it adds one.
  unfoldable pub shortlisted : Inputs → List ℕ → Entry → Option Row
  shortlisted inputs seen entry =
      let choice = prerequisite_substitution inputs.ranked inputs.candidates inputs.edges entry in
      let c = choice.0 in
      if contains c seen then none else elim (pool_of inputs.candidates c) [
        | [] ↦ none
        | first ∷ rest ↦
            let target : Entry = elim (entry_of inputs.ranked c) [ none ↦ entry | some e ↦ e ] in
            let item = closest_from (distance_of inputs c target) first rest in
            some (record {
              priority = target.priority;
              distance = distance_of inputs c target item;
              concept_id = c;
              item = item;
              note = choice.1;
            })
      ]

  unfoldable pub shortlist_from : Inputs → List ℕ → List Entry → List Row
  shortlist_from inputs seen [] = []
  shortlist_from inputs seen (entry ∷ entries) = elim (shortlisted inputs seen entry) [
    | none ↦ shortlist_from inputs seen entries
    | some row ↦ row ∷ shortlist_from inputs (row.concept_id ∷ seen) entries
  ]
