-- ===== src/Corpus/WellFormed.antt =====
-- The graphs of concepts that `check_concept_graph` (packages/corpus/src/corpus/validate.py) has nothing to say about.
use interview_helper.Prelude.{
  ℕ, ◌≡◌, refl, inl, inr, ◌↔◌, true, false, ◌&&◌, ◌||◌, List, [], ◌∷◌, ◌++◌, map, arith, ◌==◌,
  ==_iff, Bool-cases, contains, All, Distinct,
}
use text.Mathlib.Text.{◌==◌ as str_eq}
use interview_helper.Corpus.{
  Index, Concept, lookup, put, is_known, is_blank, Finding, duplicate_id, index_from, check_topic,
  check_prereqs, check_entries,
}
use interview_helper.Corpus.Cycles.{Trail}

-- The index that the check builds.
abbrev pub index_of : List Concept → Index
index_of cs = (index_from [] [] cs).0

-- An entry whose prerequisites are other concepts, and which has a topic if it is for coding.
abbrev pub IsFiled : Index → ℕ × Concept → Type 0
IsFiled by_id (i, c) =
    ((str_eq c.domain "coding" && is_blank c.topic) ≡ false)
    × All (λ p. (is_known by_id p ≡ true) × ((p == i) ≡ false)) c.prereqs

-- A graph of concepts as it is meant to be.
pub record IsWellFormed (cs : List Concept) : Type 0 where
  pub distinct : Distinct (map (λ c. c.id) cs)
  pub filed : All (IsFiled (index_of cs)) (index_of cs)
  pub acyclic : (n : ℕ) (c : List ℕ) → Trail (index_of cs) n c n → ⊥

pub append-nil_iff : (xs ys : List Finding) → (xs ++ ys ≡ []) ↔ ((xs ≡ []) × (ys ≡ []))
append-nil_iff [] ys = (λ e. (refl, e), λ p. p.1)
append-nil_iff (x ∷ xs) ys = (λ e. absurd (ground (arith, e)), λ p. absurd (ground (arith, p.0)))

is_known-cons :
    (k j : ℕ) (d : Concept) (rest : Index)
    → is_known ((k, d) ∷ rest) j ≡ (k == j || is_known rest j)
unfolding is_known lookup
is_known-cons k j d rest = elim (Bool-cases (k == j)) [
  | inl same ↦ rw (same, is_known, lookup) refl
  | inr other ↦ rw (other, is_known, lookup) refl
]

is_known-put :
    (i j : ℕ) (c : Concept) (by_id : Index)
    → is_known (put i c by_id) j ≡ (i == j || is_known by_id j)
unfolding put
is_known-put i j c [] = is_known-cons i j c []
is_known-put i j c ((k, d) ∷ rest) =
    let listed = is_known-cons k j d rest in
    elim (Bool-cases (k == i)) [
      | inl same ↦
          let e : k ≡ i = (==_iff k i).0 same in
          let replaced = is_known-cons k j c rest in
          rw (same, put) (ground (arith, e, listed, replaced))
      | inr other ↦
          let behind = is_known-cons k j d (put i c rest) in
          rw (other, put) (ground (arith, listed, behind, is_known-put i j c rest))
    ]

-- Every id is new to the index and to the ids before it.
unfoldable pub Fresh : Index → List Concept → Type 0
Fresh by_id [] = Unit
Fresh by_id (c ∷ cs) = (is_known by_id c.id ≡ false) × Fresh (put c.id c by_id) cs

All-put :
    (i : ℕ) (c : Concept) (by_id : Index) (cs : List Concept)
    → All (λ x. is_known (put i c by_id) x.id ≡ false) cs
      ↔ (All (λ x. is_known by_id x.id ≡ false) cs × (contains i (map (λ x. x.id) cs) ≡ false))
All-put i c by_id [] = (λ h. (tt, refl), λ h. tt)
All-put i c by_id (x ∷ cs) =
    let rest = All-put i c by_id cs in
    let known = is_known-put i x.id c by_id in
    (
      λ h.
          let r = rest.0 h.1 in
          ((ground (arith, known, h.0), r.0), ground (arith, known, h.0, r.1)),
      λ h. (ground (arith, known, h.0.0, h.1), rest.1 (h.0.1, ground (arith, h.1))),
    )

pub Fresh-iff :
    (by_id : Index) (cs : List Concept)
    → Fresh by_id cs ↔ (All (λ c. is_known by_id c.id ≡ false) cs × Distinct (map (λ c. c.id) cs))
unfolding Fresh
Fresh-iff by_id [] = (λ h. (tt, tt), λ h. tt)
Fresh-iff by_id (c ∷ cs) =
    let rest = Fresh-iff (put c.id c by_id) cs in
    let here = All-put c.id c by_id cs in
    (
      λ h. let r = rest.0 h.1 in let k = here.0 r.0 in ((h.0, k.0), (k.1, r.1)),
      λ h. (h.0.0, rest.1 (here.1 (h.0.1, h.1.0), h.1.1)),
    )

check_prereqs-nil :
    (by_id : Index) (i : ℕ) (ps : List ℕ)
    → (check_prereqs by_id i ps ≡ []) ↔ All (λ p. (is_known by_id p ≡ true) × ((p == i) ≡ false)) ps
unfolding check_prereqs
check_prereqs-nil by_id i [] = (λ _. tt, λ _. refl)
check_prereqs-nil by_id i (p ∷ ps) =
    let rest = check_prereqs-nil by_id i ps in
    elim (Bool-cases (is_known by_id p)) [
      | inl on ↦ elim (Bool-cases (p == i)) [
        | inl same ↦
            rw (on, same, check_prereqs)
              (λ e. absurd (ground (arith, e)), λ h. absurd (ground (arith, h.0.1)))
        | inr other ↦ rw (on, other, check_prereqs) (λ e. ((refl, refl), rest.0 e), λ h. rest.1 h.1)
      ]
      | inr off ↦
          rw (off, check_prereqs)
            (λ e. absurd (ground (arith, e)), λ h. absurd (ground (arith, h.0.0)))
    ]

check_topic-nil :
    (i : ℕ) (c : Concept)
    → (check_topic i c ≡ []) ↔ ((str_eq c.domain "coding" && is_blank c.topic) ≡ false)
unfolding check_topic
check_topic-nil i c = elim (Bool-cases (str_eq c.domain "coding" && is_blank c.topic)) [
  | inl on ↦ rw (on, check_topic) (λ e. absurd (ground (arith, e)), λ e. absurd (ground (arith, e)))
  | inr off ↦ rw (off, check_topic) (λ e. refl, λ e. refl)
]

pub check_entries-nil :
    (by_id entries : Index) → (check_entries by_id entries ≡ []) ↔ All (IsFiled by_id) entries
unfolding check_entries
check_entries-nil by_id [] = (λ _. tt, λ _. refl)
check_entries-nil by_id ((i, c) ∷ rest) =
    let outer = append-nil_iff (check_topic i c) _ in
    let inner = append-nil_iff (check_prereqs by_id i c.prereqs) (check_entries by_id rest) in
    let topic = check_topic-nil i c in
    let prereqs = check_prereqs-nil by_id i c.prereqs in
    let behind = check_entries-nil by_id rest in
    (
      λ e. let o = outer.0 e in let n = inner.0 o.1 in ((topic.0 o.0, prereqs.0 n.0), behind.0 n.1),
      λ h. outer.1 (topic.1 h.0.0, inner.1 (prereqs.1 h.0.1, behind.1 h.1)),
    )

pub index_from-nil :
    (by_id : Index) (findings : List Finding) (cs : List Concept)
    → ((index_from by_id findings cs).1 ≡ []) ↔ ((findings ≡ []) × Fresh by_id cs)
unfolding index_from Fresh
index_from-nil by_id findings [] = (λ e. (e, tt), λ h. h.0)
index_from-nil by_id findings (c ∷ cs) = elim (Bool-cases (is_known by_id c.id)) [
  | inl on ↦
      let rest = index_from-nil (put c.id c by_id) (findings ++ (duplicate_id c.id ∷ [])) cs in
      rw (on, index_from)
        (
          λ e. absurd (ground (arith, ((append-nil_iff findings _).0 (rest.0 e).0).1)),
          λ h. absurd (ground (arith, h.1.0)),
        )
  | inr off ↦
      let rest = index_from-nil (put c.id c by_id) findings cs in
      rw (off, index_from) (λ e. let r = rest.0 e in (r.0, (refl, r.1)), λ h. rest.1 (h.0, h.1.1))
]
