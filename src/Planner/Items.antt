-- ===== src/Planner/Items.antt =====
-- The items of a plan (`build_plan`, apps/api/src/api/planner.py).
use interview_helper.Prelude.{
  ℕ, ◌+◌, ◌-◌, ◌≡◌, refl, ◌∙◌, sym, ap, inl, inr, false, not, ◌&&◌, ◌||◌, Option, none, some, List,
  [], ◌∷◌, ◌++◌, map, arith, ltb, leb, ◌==◌, ==_iff, Bool-cases, List-cases, contains, All,
  All-append, All-map, select-Memᴰ, Distinct, Distinct-snoc, Distinct-prefix, Distinct-without,
  map-append, some-injective, none≢some, append-nil, append_assoc,
}
use mathlib.Core.Path.{subst}
use mathlib.Core.List.{Memᴰ}
use interview_helper.Planner.{
  Item, Row, Planned, Inputs, Mastery, minutes_of, pool_of, shortlist_from,
}
use interview_helper.Planner.Plan.{
  is_before, insert, sort, is_due, review_item, Choice, is_empty, is_review, planned, choose, fill,
  reserved_for, append_review, nothing, plan_within, build_plan, plan_item_ids,
}
use interview_helper.Planner.Choice.{IsServed, shortlist_from-IsServed, rows-Distinct}

abbrev ids_of : List Row → List ℕ
ids_of rows = map (λ r. r.item.id) rows

insert-All {κ} : (P : Row → Type κ) (r : Row) (xs : List Row) → P r → All P xs → All P (insert r xs)
unfolding insert
insert-All P r [] h hs = (h, hs)
insert-All P r (x ∷ xs) h hs = elim (Bool-cases (is_before x r)) [
  | inl on ↦ rw (on, insert) (hs.0, insert-All P r xs h hs.1)
  | inr off ↦ rw (off, insert) (h, hs)
]

pub sort-All {κ} : (P : Row → Type κ) (xs : List Row) → All P xs → All P (sort xs)
unfolding sort
sort-All P [] h = h
sort-All P (x ∷ xs) h = insert-All P x (sort xs) h.0 (sort-All P xs h.1)

contains-insert :
    (a : ℕ) (r : Row) (xs : List Row)
    → contains a (ids_of (insert r xs)) ≡ (a == r.item.id || contains a (ids_of xs))
unfolding insert
contains-insert a r [] = refl
contains-insert a r (x ∷ xs) = elim (Bool-cases (is_before x r)) [
  | inl on ↦ rw (on, insert) (ground (arith, contains-insert a r xs))
  | inr off ↦ rw (off, insert) refl
]

contains-sort : (a : ℕ) (xs : List Row) → contains a (ids_of (sort xs)) ≡ contains a (ids_of xs)
unfolding sort
contains-sort a [] = refl
contains-sort a (x ∷ xs) =
    contains-insert a x (sort xs) ∙ ap (λ b. a == x.item.id || b) (contains-sort a xs)

insert-Distinct :
    (r : Row) (xs : List Row)
    → contains r.item.id (ids_of xs) ≡ false
    → Distinct (ids_of xs)
    → Distinct (ids_of (insert r xs))
unfolding insert
insert-Distinct r [] n h = (refl, tt)
insert-Distinct r (x ∷ xs) n h = elim (Bool-cases (is_before x r)) [
  | inl on ↦
      rw (on, insert)
        (
          ground (arith, n, h.0, contains-insert x.item.id r xs),
          insert-Distinct r xs (ground (arith, n)) h.1,
        )
  | inr off ↦ rw (off, insert) (n, h)
]

sort-Distinct : (xs : List Row) → Distinct (ids_of xs) → Distinct (ids_of (sort xs))
unfolding sort
sort-Distinct [] h = h
sort-Distinct (x ∷ xs) h =
    insert-Distinct x (sort xs) (contains-sort x.item.id xs ∙ h.0) (sort-Distinct xs h.1)

abbrev planned_ids : List Planned → List ℕ
planned_ids ps = map (λ p. p.item_id) ps

-- An entry of the plan is a candidate, under the concept that it chiefly measures.
abbrev pub IsCandidate : List Item → Planned → Type 0
IsCandidate candidates p =
    (i : Item) × Memᴰ i candidates
    × (i.id ≡ p.item_id)
    × (i.primary_concept ≡ p.primary_concept)
    × (i.expected_minutes ≡ p.expected_minutes)

-- The test against the review, on an id.
abbrev IsOther : Option Planned → ℕ → Type 0
IsOther none i = Unit
IsOther (some r) i = (r.item_id == i) ≡ false

IsOther-planned :
    (review : Option Planned) (row : Row)
    → is_review review row ≡ false
    → IsOther review row.item.id
IsOther-planned none row h = tt
IsOther-planned (some r) row h = ground (arith, h)

module _ (candidates : List Item) (review : Option Planned) where
  record IsChoice (rows : List Row) (f : Choice) : Type 0 where
    distinct : Distinct (planned_ids f.chosen ++ ids_of rows)
    served : All (IsCandidate candidates) f.chosen
    other : All (λ p. IsOther review p.item_id) f.chosen

  choose-IsChoice :
      (row : Row) (rows : List Row) (f : Choice)
      → IsServed candidates row
      → is_review review row ≡ false
      → IsChoice (row ∷ rows) f
      → IsChoice rows (choose row f)
  unfolding choose
  choose-IsChoice row rows f here not_review h = record {
    distinct =
        subst (λ l. Distinct l)
          (sym (append_assoc (planned_ids f.chosen) (row.item.id ∷ []) (ids_of rows))
            ∙ ap (λ l. l ++ ids_of rows)
                (sym (map-append (λ p. p.item_id) f.chosen (planned row ∷ []))))
          h.distinct;
    served =
        All-append (IsCandidate candidates) f.chosen (planned row ∷ []) h.served
          ((row.item, here.0, refl, here.1, refl), tt);
    other =
        All-append (λ p. IsOther review p.item_id) f.chosen (planned row ∷ []) h.other
          (IsOther-planned review row not_review, tt);
  }

  fill-IsChoice :
      (budget : ℕ) (rows : List Row) (f : Choice)
      → All (IsServed candidates) rows
      → IsChoice rows f
      → IsChoice [] (fill budget review f rows)
  unfolding fill
  fill-IsChoice budget [] f hs h = h
  fill-IsChoice budget (row ∷ rows) f hs h =
      let skipped = fill-IsChoice budget rows f hs.1 (record {
        distinct = Distinct-without (planned_ids f.chosen) row.item.id (ids_of rows) h.distinct;
        served = h.served;
        other = h.other;
      }) in
      elim (Bool-cases (is_review review row)) [
        | inl same ↦ rw (same, fill) skipped
        | inr other ↦ elim (Bool-cases (leb budget f.spent && not (is_empty f.chosen))) [
          | inl full ↦
              rw (other, full, fill)
                (record {
                  distinct =
                      rw (append-nil (planned_ids f.chosen))
                        (Distinct-prefix (planned_ids f.chosen) (ids_of (row ∷ rows)) h.distinct);
                  served = h.served;
                  other = h.other;
                })
          | inr room ↦
              let taken =
                fill-IsChoice budget rows (choose row f) hs.1
                  (choose-IsChoice row rows f hs.0 other h) in
              elim (Bool-cases (
                not (is_empty f.chosen)
                && ltb budget (f.spent + minutes_of row.item.expected_minutes))) [
                  | inl long ↦ rw (other, room, long, fill) skipped
                  | inr short ↦ rw (other, room, short, fill) taken
                ]
        ]
      ]

review_item-IsCandidate :
    (now : ℕ) (candidates : List Item) (mastery : List Mastery) (r : Planned)
    → review_item now candidates mastery ≡ some r
    → IsCandidate candidates r
unfolding review_item pool_of
review_item-IsCandidate now candidates [] r h = absurd (none≢some h)
review_item-IsCandidate now candidates (row ∷ rows) r h = elim (Bool-cases (is_due now row)) [
  | inr off ↦ review_item-IsCandidate now candidates rows r (rw (off, review_item) at h)
  | inl on ↦ elim (List-cases (pool_of candidates row.concept_id)) [
    | inl empty ↦ review_item-IsCandidate now candidates rows r (rw (on, empty, review_item) at h)
    | inr pool ↦
        let m =
          select-Memᴰ (λ i. i.primary_concept == row.concept_id) pool.0 candidates
            (subst (Memᴰ pool.0) (sym pool.2) (Memᴰ.head refl)) in
        subst (IsCandidate candidates) (some-injective (rw (on, pool.2, review_item) at h))
          (pool.0, m.0, refl, (==_iff pool.0.primary_concept row.concept_id).0 m.1, refl)
  ]
]

others :
    (r : Planned) (ps : List Planned)
    → All (λ p. IsOther (some r) p.item_id) ps
    → contains r.item_id (planned_ids ps) ≡ false
others r [] h = refl
others r (p ∷ ps) h = ground (arith, h.0, others r ps h.1)

append_review-Distinct :
    (candidates : List Item) (budget : ℕ) (review : Option Planned) (f : Choice)
    → ((r : Planned) → review ≡ some r → IsCandidate candidates r)
    → IsChoice candidates review [] f
    → Distinct (plan_item_ids (append_review budget review f))
      × All (IsCandidate candidates) (append_review budget review f).chosen
unfolding append_review plan_item_ids
append_review-Distinct candidates budget none f known h =
    (rw (append-nil (planned_ids f.chosen)) at h.distinct, h.served)
append_review-Distinct candidates budget (some r) f known h =
    let ids : Distinct (planned_ids f.chosen) =
      rw (append-nil (planned_ids f.chosen)) at h.distinct in
    elim (Bool-cases (leb (f.spent + reserved_for (some r)) budget)) [
      | inr late ↦ rw (late, append_review) (ids, h.served)
      | inl fits ↦
          rw (fits, append_review)
            (
              subst (λ l. Distinct l) (sym (map-append (λ p. p.item_id) f.chosen (r ∷ [])))
                  (Distinct-snoc (planned_ids f.chosen) r.item_id ids (others r f.chosen h.other)),
              All-append (IsCandidate candidates) f.chosen (r ∷ []) h.served (known r refl, tt),
            )
    ]

-- If no two candidates share an id, a plan names no item twice, and each of its items is a candidate
-- under the concept that it chiefly measures, the review included.
pub build_plan-Distinct :
    (expected_score : ℕ → ℕ → ℕ) (now budget : ℕ) (inputs : Inputs) (mastery : List Mastery)
    → ((i j : Item) → Memᴰ i inputs.candidates → Memᴰ j inputs.candidates → i.id ≡ j.id → i ≡ j)
    → Distinct (plan_item_ids (build_plan expected_score now budget inputs mastery))
      × All
          (IsCandidate inputs.candidates)
          (build_plan expected_score now budget inputs mastery).chosen
unfolding build_plan plan_within
build_plan-Distinct expected_score now budget inputs mastery unique =
    let candidates = inputs.candidates in
    let review = review_item now candidates mastery in
    let rows = shortlist_from expected_score inputs [] inputs.ranked in
    let short = shortlist_from-IsServed expected_score inputs [] inputs.ranked in
    let served : All (IsServed candidates) rows = All-map rows (λ r h. h.0) short.0 in
    append_review-Distinct candidates budget review _
      (review_item-IsCandidate now candidates mastery)
      (fill-IsChoice candidates review (budget - reserved_for review) (sort rows) nothing
        (sort-All (IsServed candidates) rows served)
        (record {
          distinct = sort-Distinct rows (rows-Distinct candidates unique rows served short.1);
          served = tt;
          other = tt;
        }))
