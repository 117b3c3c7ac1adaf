-- ===== src/Corpus/Paint.antt =====
-- The colours of the concepts under a walk of `check_concept_graph`
-- (packages/corpus/src/corpus/validate.py), and how many rounds those that are still white can cost.
use interview_helper.Prelude.{
  ℕ, ◌+◌, ◌≤◌, ◌≡◌, refl, ◌∙◌, ap, ◌⊎◌, inl, inr, true, false, some, List, [], ◌∷◌, arith, ◌==◌,
  if◌then◌else◌, ==_iff, Bool-cases, length, some-injective,
}
use interview_helper.Corpus.{
  Index, Concept, lookup, Colour, white, grey, is_white, paint, Stack, push_prereqs, is_pushed,
  size,
}

pub paint-cases :
    (i j : ℕ) (c : Colour) (colour : ℕ → Colour)
    → ((i ≡ j) × (paint i c colour j ≡ c)) ⊎ (((i == j) ≡ false) × (paint i c colour j ≡ colour j))
unfolding paint
paint-cases i j c colour = elim (Bool-cases (i == j)) [
  | inl same ↦ inl ((==_iff i j).0 same, rw same refl)
  | inr other ↦ inr (other, rw other refl)
]

pub paint-coloured :
    (i j : ℕ) (c : Colour) (colour : ℕ → Colour)
    → is_white c ≡ false
    → (i ≡ j) ⊎ (is_white (colour j) ≡ false)
    → is_white (paint i c colour j) ≡ false
paint-coloured i j c colour hc h = elim (paint-cases i j c colour) [
  | inl same ↦ ap is_white same.1 ∙ hc
  | inr other ↦ elim h [
    | inl e ↦ absurd (ground (arith, e, other.0))
    | inr coloured ↦ ap is_white other.1 ∙ coloured
  ]
]

-- The rounds that the concepts which are still white can cost.
unfoldable pub unseen : (ℕ → Colour) → Index → ℕ
unseen colour [] = 0
unseen colour ((i, c) ∷ rest) =
    (if is_white (colour i) then 1 + length c.prereqs else 0) + unseen colour rest

pub unseen-le-size : (colour : ℕ → Colour) (by_id : Index) → unseen colour by_id ≤ size by_id
unfolding unseen size
unseen-le-size colour [] = omega arith
unseen-le-size colour ((i, c) ∷ rest) = ground (arith, unseen-le-size colour rest)

pub unseen-paint :
    (i : ℕ) (c : Colour) (colour : ℕ → Colour) (by_id : Index)
    → is_white c ≡ false
    → unseen (paint i c colour) by_id ≤ unseen colour by_id
unfolding unseen
unseen-paint i c colour [] h = omega arith
unseen-paint i c colour ((j, d) ∷ rest) h =
    let behind = unseen-paint i c colour rest h in
    elim (paint-cases i j c colour) [
      | inl same ↦
          let e : is_white (paint i c colour j) ≡ false = ap is_white same.1 ∙ h in
          rw e (ground (arith, behind))
      | inr other ↦ rw other.1 (ground (arith, behind))
    ]

pub unseen-enter :
    (i : ℕ) (c : Concept) (colour : ℕ → Colour) (by_id : Index)
    → colour i ≡ white
    → lookup i by_id ≡ some c
    → unseen (paint i grey colour) by_id + 1 + length c.prereqs ≤ unseen colour by_id
unfolding unseen lookup
unseen-enter i c colour [] fresh found = absurd (ground (arith, found))
unseen-enter i c colour ((j, d) ∷ rest) fresh found =
    let behind = unseen-paint i grey colour rest refl in
    elim (Bool-cases (j == i)) [
      | inl same ↦
          let e : d ≡ c = some-injective (rw same at found) in
          let j_is : j ≡ i = (==_iff j i).0 same in
          let was_white : is_white (colour j) ≡ true = ap is_white (ap colour j_is ∙ fresh) in
          let is_grey : is_white (paint i grey colour j) ≡ false =
            elim (paint-cases i j grey colour) [
              | inl here ↦ ap is_white here.1
              | inr elsewhere ↦ absurd (ground (arith, elsewhere.0, j_is))
            ] in
          let prereqs : length d.prereqs ≡ length c.prereqs = ap (λ x. length x.prereqs) e in
          rw (was_white, is_grey) (omega (arith, behind, prereqs))
      | inr other ↦
          let deeper = unseen-enter i c colour rest fresh (rw other at found) in
          elim (paint-cases i j grey colour) [
            | inl same ↦ absurd (ground (arith, other, same.0))
            | inr kept ↦ rw kept.1 (omega (arith, deeper))
          ]
    ]

pub length-push :
    (by_id : Index) (colour : ℕ → Colour) (ps : List ℕ) (stack : Stack)
    → length (push_prereqs by_id colour ps stack) ≤ length ps + length stack
unfolding push_prereqs
length-push by_id colour [] stack = omega arith
length-push by_id colour (p ∷ ps) stack = elim (Bool-cases (is_pushed by_id colour p)) [
  | inl on ↦ rw on (omega (arith, length-push by_id colour ps ((p, false) ∷ stack)))
  | inr off ↦ rw off (omega (arith, length-push by_id colour ps stack))
]
