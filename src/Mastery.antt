-- ===== src/Mastery.antt =====
-- apps/api/src/api/mastery.py: the projection of the evidence onto the user's mastery and the ratings of
-- the items, and its rebuild. Numbers of the ratings are of any type: `Arithmetic` has the operations on
-- floats, the Elo expectation, the K factor and the scheduler, which is a library's. Times and ids are
-- numbers, and the user is the only one.
pub mod Order
pub mod Replay
mod Tests
use interview_helper.Prelude.{
  ℕ, zero, suc, ◌+◌, ◌≡◌, Bool, true, false, ◌&&◌, ◌||◌, Option, none, some, List, [], ◌∷◌, ◌++◌,
  foldl, map, ltb, ◌==◌, if◌then◌else◌, select,
}

pub data Source : Type 0 where
  session_grading interviewer_observation practice_log : Source

abbrev pub is_grading : Source → Bool
is_grading session_grading = true
is_grading _ = false

-- A row of evidence.
pub record Evidence (Real : Type 0) : Type 0 where
  pub id : ℕ
  pub concept_id : ℕ
  pub source : Source
  pub item_id : Option ℕ
  pub session_id : Option ℕ
  pub score : Real
  pub confidence : Real
  pub ts : ℕ

pub record Arithmetic (Real Card : Type 0) : Type 0 where
  pub add : Real → Real → Real
  pub sub : Real → Real → Real
  pub mul : Real → Real → Real
  pub expected_score : Real → Real → Real
  pub k_factor : ℕ → Real
  pub k_item : Real
  pub default_ability : Real
  pub new_card : Evidence Real → Card
  pub review_card : Card → Evidence Real → Card
  pub stability : Card → Option Real
  pub due : Card → ℕ

pub record Mastery (Real Card : Type 0) : Type 0 where
  pub concept_id : ℕ
  pub ability : Real
  pub observations : ℕ
  pub fsrs_card : Option Card
  pub stability : Option Real
  pub due_at : Option ℕ
  pub last_seen : Option ℕ

pub record Item (Real : Type 0) : Type 0 where
  pub id : ℕ
  pub primary_concept_id : ℕ
  pub difficulty_elo : Real
  pub elo : Real

pub record Projection (Real Card : Type 0) : Type 0 where
  pub mastery : List (Mastery Real Card)
  pub items : List (Item Real)

-- The evidence, which is only ever added to, and what was made of it.
pub record Store (Real Card : Type 0) : Type 0 where
  pub evidence : List (Evidence Real)
  pub projection : Projection Real Card

abbrev pub same_id : Option ℕ → Option ℕ → Bool
same_id none none = true
same_id (some a) (some b) = a == b
same_id _ _ = false

module _ {Real : Type 0} where
  -- `ORDER BY ts, id`
  abbrev pub is_before : Evidence Real → Evidence Real → Bool
  is_before a b = ltb a.ts b.ts || (a.ts == b.ts && ltb a.id b.id)

  -- The first row of a query under that order.
  unfoldable pub earliest : List (Evidence Real) → Option (Evidence Real)
  earliest [] = none
  earliest (x ∷ xs) = elim (earliest xs) [
    | none ↦ some x
    | some y ↦ if is_before y x then some y else some x
  ]

  -- The gradings of the attempt that a row of evidence comes from, on its concept.
  abbrev pub same_attempt : Evidence Real → Evidence Real → Bool
  same_attempt e x =
      same_id x.session_id e.session_id
      && same_id x.item_id e.item_id
      && x.concept_id == e.concept_id
      && is_grading x.source

  -- `first is None or first == evidence.id`
  abbrev pub is_own : Evidence Real → Option (Evidence Real) → Bool
  is_own e none = true
  is_own e (some first) = first.id == e.id

  unfoldable pub is_first : List (Evidence Real) → Evidence Real → Bool
  is_first table e = is_own e (earliest (select (same_attempt e) table))

  -- Whether a row of evidence moves the rating of its item.
  unfoldable pub moves_item : List (Evidence Real) → Evidence Real → Item Real → Bool
  moves_item table e i =
      is_grading e.source && e.concept_id == i.primary_concept_id && is_first table e

  unfoldable pub item_of : List (Item Real) → Option ℕ → Option (Item Real)
  item_of items none = none
  item_of [] (some i) = none
  item_of (x ∷ xs) (some i) = let rest = item_of xs (some i) in if x.id == i then some x else rest

  unfoldable pub put_item : Item Real → List (Item Real) → List (Item Real)
  put_item i [] = []
  put_item i (x ∷ xs) = let rest = put_item i xs in if x.id == i.id then i ∷ xs else x ∷ rest

  abbrev pub reset_item : Item Real → Item Real
  reset_item i = record i { elo = i.difficulty_elo }

  unfoldable pub insert : Evidence Real → List (Evidence Real) → List (Evidence Real)
  insert e [] = e ∷ []
  insert e (x ∷ xs) = let rest = insert e xs in if is_before x e then x ∷ rest else e ∷ x ∷ xs

  unfoldable pub sort : List (Evidence Real) → List (Evidence Real)
  sort [] = []
  sort (e ∷ es) = insert e (sort es)

module _ {Real Card : Type 0} (a : Arithmetic Real Card) where
  abbrev pub new_row : ℕ → Mastery Real Card
  new_row c = record {
    concept_id = c;
    ability = a.default_ability;
    observations = 0;
    fsrs_card = none;
    stability = none;
    due_at = none;
    last_seen = none;
  }

  unfoldable pub row_for : List (Mastery Real Card) → ℕ → Mastery Real Card
  row_for [] c = new_row c
  row_for (r ∷ rs) c = let rest = row_for rs c in if r.concept_id == c then r else rest

  unfoldable pub put_row : Mastery Real Card → List (Mastery Real Card) → List (Mastery Real Card)
  put_row r [] = r ∷ []
  put_row r (x ∷ xs) =
      let rest = put_row r xs in if x.concept_id == r.concept_id then r ∷ xs else x ∷ rest

  -- A row of mastery after one row of evidence, whose score was that far from the expected one.
  unfoldable pub advance_row : Evidence Real → Real → Mastery Real Card → Mastery Real Card
  advance_row e delta row =
      let first : Card = elim row.fsrs_card [ none ↦ a.new_card e | some c ↦ c ] in
      let card = a.review_card first e in
      record {
        concept_id = row.concept_id;
        ability =
            a.add row.ability (a.mul (a.mul (a.k_factor row.observations) e.confidence) delta);
        observations = suc row.observations;
        fsrs_card = some card;
        stability = a.stability card;
        due_at = some (a.due card);
        last_seen = some e.ts;
      }

  unfoldable pub move_item : Evidence Real → Real → Item Real → Item Real
  move_item e delta i = record i { elo = a.sub i.elo (a.mul (a.mul a.k_item delta) e.confidence) }

  -- `apply_evidence`, on the table of evidence that it queries.
  unfoldable pub apply_evidence :
      List (Evidence Real) → Projection Real Card → Evidence Real → Projection Real Card
  apply_evidence table p e =
      let row = row_for p.mastery e.concept_id in
      elim (item_of p.items e.item_id) [
        | none ↦
            let delta = a.sub e.score (a.expected_score row.ability row.ability) in
            record p { mastery = put_row (advance_row e delta row) p.mastery }
        | some i ↦
            let delta = a.sub e.score (a.expected_score row.ability i.elo) in
            record {
              mastery = put_row (advance_row e delta row) p.mastery;
              items =
                  if moves_item table e i then put_item (move_item e delta i) p.items else p.items;
            }
      ]

  -- Evidence is written under the lock: the rows go into the table, and then each is applied.
  unfoldable pub record_evidence : Store Real Card → List (Evidence Real) → Store Real Card
  record_evidence s rows =
      let table = s.evidence ++ rows in
      record { evidence = table; projection = foldl (apply_evidence table) s.projection rows }

  unfoldable pub recompute : Store Real Card → Store Real Card
  recompute s = record s {
    projection =
        foldl (apply_evidence s.evidence)
          (record { mastery = []; items = map reset_item s.projection.items }) (sort s.evidence);
  }
