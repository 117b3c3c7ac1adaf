-- ===== src/Planner/Choice.antt =====
-- The shortlist of a plan (`build_plan`, apps/api/src/api/planner.py).
use interview_helper.Prelude.{
  ℕ, ◌≡◌, refl, ◌∙◌, sym, ap, inl, inr, false, none, some, List, [], ◌∷◌, map, arith, ◌==◌, ==_iff,
  Bool-cases, Option-cases, List-cases, contains, All, All-map, select-Memᴰ, Distinct,
  some-injective, none≢some,
}
use mathlib.Core.Path.{subst}
use mathlib.Core.List.{Memᴰ}
use mathlib.Core.List.Memᴰ
use interview_helper.Planner.{
  Item, Entry, Row, Inputs, pool_of, closest_from, is_closer, shortlisted, shortlist_from,
  prerequisite_substitution, entry_of, distance_of,
}

-- A row serves a candidate for the concept that it chiefly measures.
abbrev pub IsServed : List Item → Row → Type 0
IsServed candidates row = Memᴰ row.item candidates × (row.item.primary_concept ≡ row.concept_id)

closest_from-member :
    (distance : Item → ℕ) (best : Item) (rest : List Item)
    → Memᴰ (closest_from distance best rest) (best ∷ rest)
unfolding closest_from
closest_from-member distance best [] = Memᴰ.head refl
closest_from-member distance best (i ∷ rest) = elim (Bool-cases (is_closer distance i best)) [
  | inl on ↦ rw (on, closest_from) (Memᴰ.tail (closest_from-member distance i rest))
  | inr off ↦
      rw (off, closest_from)
        (elim (Memᴰ.cases_cons (closest_from-member distance best rest)) [
          | inl e ↦ Memᴰ.head e
          | inr m ↦ Memᴰ.tail (Memᴰ.tail m)
        ])
]

new_concept :
    (c : ℕ) (rows : List Row)
    → All (λ r. (r.concept_id == c) ≡ false) rows
    → contains c (map (λ r. r.concept_id) rows) ≡ false
new_concept c [] h = refl
new_concept c (r ∷ rows) h = ground (arith, h.0, new_concept c rows h.1)

module _ (expected_score : ℕ → ℕ → ℕ) (inputs : Inputs) where
  shortlisted-IsServed :
      (seen : List ℕ) (entry : Entry) (row : Row)
      → shortlisted expected_score inputs seen entry ≡ some row
      → IsServed inputs.candidates row × (contains row.concept_id seen ≡ false)
  unfolding shortlisted pool_of
  shortlisted-IsServed seen entry row h =
      let c = (prerequisite_substitution inputs.ranked inputs.candidates inputs.edges entry).0 in
      elim (Bool-cases (contains c seen)) [
        | inl on ↦ absurd (none≢some (rw (on, shortlisted) at h))
        | inr off ↦ elim (List-cases (pool_of inputs.candidates c)) [
          | inl empty ↦ absurd (none≢some (rw (off, empty, shortlisted) at h))
          | inr pool ↦
              let e = some-injective (rw (off, pool.2, shortlisted) at h) in
              let target : Entry = elim (entry_of inputs.ranked c) [ none ↦ entry | some t ↦ t ] in
              let distance = distance_of expected_score inputs c target in
              let item = closest_from distance pool.0 pool.1 in
              let m =
                select-Memᴰ (λ i. i.primary_concept == c) item inputs.candidates
                  (subst (Memᴰ item) (sym pool.2) (closest_from-member distance pool.0 pool.1)) in
              subst (λ r. IsServed inputs.candidates r × (contains r.concept_id seen ≡ false)) e
                ((m.0, (==_iff item.primary_concept c).0 m.1), off)
        ]
      ]

  pub shortlist_from-IsServed :
      (seen : List ℕ) (entries : List Entry)
      → All
          (λ r. IsServed inputs.candidates r × (contains r.concept_id seen ≡ false))
          (shortlist_from expected_score inputs seen entries)
        × Distinct (map (λ r. r.concept_id) (shortlist_from expected_score inputs seen entries))
  unfolding shortlist_from
  shortlist_from-IsServed seen [] = (tt, tt)
  shortlist_from-IsServed seen (entry ∷ entries) =
      elim (Option-cases (shortlisted expected_score inputs seen entry)) [
        | inl skipped ↦ rw (skipped, shortlist_from) (shortlist_from-IsServed seen entries)
        | inr added ↦
            let row : Row = added.0 in
            let here = shortlisted-IsServed seen entry row added.1 in
            let behind = shortlist_from-IsServed (row.concept_id ∷ seen) entries in
            let rows = shortlist_from expected_score inputs (row.concept_id ∷ seen) entries in
            rw (added.1, shortlist_from)
              (
                (here, All-map rows (λ r h. (h.0, ground (arith, h.1))) behind.0),
                (
                  new_concept row.concept_id rows
                      (All-map rows (λ r h. ground (arith, h.1)) behind.0),
                  behind.1,
                ),
              )
      ]

-- Candidates of different concepts have different ids.
pub rows-Distinct :
    (candidates : List Item)
    → ((i j : Item) → Memᴰ i candidates → Memᴰ j candidates → i.id ≡ j.id → i ≡ j)
    → (rows : List Row) → All (IsServed candidates) rows
    → Distinct (map (λ r. r.concept_id) rows)
    → Distinct (map (λ r. r.item.id) rows)
rows-Distinct candidates unique [] h d = tt
rows-Distinct candidates unique (r ∷ rows) h d =
    (new_item rows h.1 d.0, rows-Distinct candidates unique rows h.1 d.1)
  where
    new_item :
        (xs : List Row)
        → All (IsServed candidates) xs
        → contains r.concept_id (map (λ x. x.concept_id) xs) ≡ false
        → contains r.item.id (map (λ x. x.item.id) xs) ≡ false
    new_item [] hs n = refl
    new_item (x ∷ xs) hs n = elim (Bool-cases (r.item.id == x.item.id)) [
      | inl same ↦
          let e : r.item ≡ x.item =
            unique r.item x.item h.0.0 hs.0.0 ((==_iff r.item.id x.item.id).0 same) in
          let c : r.concept_id ≡ x.concept_id =
            sym h.0.1 ∙ ap (λ i. i.primary_concept) e ∙ hs.0.1 in
          absurd (ground (arith, n, c))
      | inr other ↦ ground (arith, other, new_item xs hs.1 (ground (arith, n)))
    ]
