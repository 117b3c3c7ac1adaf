-- ===== src/Corpus/Findings.antt =====
-- The answers of `check_concept_graph` (packages/corpus/src/corpus/validate.py).
use interview_helper.Prelude.{
  ℕ, ◌≡◌, refl, ap, inl, inr, ◌↔◌, false, ◌&&◌, some, List, [], ◌∷◌, map, arith, ◌==◌, Bool-cases,
  All, All-Memᴰ, All-append, some-injective,
}
use text.Mathlib.Text.{◌==◌ as str_eq}
use mathlib.Core.Path.{subst}
use mathlib.Core.List.{Memᴰ}
use interview_helper.Corpus.{
  Index, Concept, lookup, put, is_known, is_blank, Finding, duplicate_id, no_topic, unknown_prereq,
  own_prereq, cycle, index_from, check_topic, check_prereqs, check_entries, check_concept_graph,
}
use interview_helper.Corpus.Cycles.{Trail}
use interview_helper.Corpus.WellFormed.{
  index_of, IsWellFormed, append-nil_iff, Fresh-iff, check_entries-nil, index_from-nil,
}
use interview_helper.Corpus.Acyclic.{search_cycles_sound, no_return, Trail-is_known}

-- What the report of a cycle promises.
Reason : Index → Finding → Type 0
Reason by_id (cycle c) = (n : ℕ) × Trail by_id n c n
Reason by_id (duplicate_id _) = Unit
Reason by_id (no_topic _) = Unit
Reason by_id (unknown_prereq _ _) = Unit
Reason by_id (own_prereq _ _) = Unit

module _ (g : Index) where
  index_from-Reason :
      (by_id : Index) (findings : List Finding) (cs : List Concept)
      → All (Reason g) findings
      → All (Reason g) (index_from by_id findings cs).1
  unfolding index_from Reason
  index_from-Reason by_id findings [] h = h
  index_from-Reason by_id findings (c ∷ cs) h =
      index_from-Reason (put c.id c by_id) _ cs (elim (Bool-cases (is_known by_id c.id)) [
        | inl on ↦ rw on (All-append (Reason g) findings (duplicate_id c.id ∷ []) h (tt, tt))
        | inr off ↦ rw off h
      ])

  check_prereqs-Reason :
      (by_id : Index) (i : ℕ) (ps : List ℕ) → All (Reason g) (check_prereqs by_id i ps)
  unfolding check_prereqs Reason
  check_prereqs-Reason by_id i [] = tt
  check_prereqs-Reason by_id i (p ∷ ps) =
      let rest = check_prereqs-Reason by_id i ps in
      elim (Bool-cases (is_known by_id p)) [
        | inl on ↦ elim (Bool-cases (p == i)) [
          | inl same ↦ rw (on, same) (tt, rest)
          | inr other ↦ rw (on, other) rest
        ]
        | inr off ↦ rw off (tt, rest)
      ]

  check_topic-Reason : (i : ℕ) (c : Concept) → All (Reason g) (check_topic i c)
  unfolding check_topic Reason
  check_topic-Reason i c = elim (Bool-cases (str_eq c.domain "coding" && is_blank c.topic)) [
    | inl on ↦ rw on (tt, tt)
    | inr off ↦ rw off tt
  ]

  check_entries-Reason : (by_id entries : Index) → All (Reason g) (check_entries by_id entries)
  unfolding check_entries
  check_entries-Reason by_id [] = tt
  check_entries-Reason by_id ((i, c) ∷ rest) =
      All-append (Reason g) (check_topic i c) _ (check_topic-Reason i c) (
        All-append (Reason g) (check_prereqs by_id i c.prereqs) _
          (check_prereqs-Reason by_id i c.prereqs) (check_entries-Reason by_id rest))

  cycles-Reason :
      (cycles : List (List ℕ))
      → All (λ c. (n : ℕ) × Trail g n c n) cycles
      → All (Reason g) (map cycle cycles)
  unfolding Reason
  cycles-Reason [] h = tt
  cycles-Reason (c ∷ cycles) h = (h.0, cycles-Reason cycles h.1)

-- `check_concept_graph` returns a list of findings for any concepts: no lookup and no `pop` of it
-- fails, and a walk takes at most two rounds more than there are concepts and listed prerequisites.
pub check_concept_graph_returns :
    (cs : List Concept) → (findings : List Finding) × (check_concept_graph cs ≡ some findings)
unfolding check_concept_graph
check_concept_graph_returns cs =
    let r = search_cycles_sound (index_of cs) in rw (r.1, check_concept_graph) (_, refl)

-- Every cycle that `check_concept_graph` reports is one: it starts and ends at the same concept, and
-- each concept on it lists the next one as a prerequisite.
pub reported_cycle_closes :
    (cs : List Concept) (findings : List Finding) (c : List ℕ)
    → check_concept_graph cs ≡ some findings
    → Memᴰ (cycle c) findings
    → (n : ℕ) × Trail (index_of cs) n c n
unfolding check_concept_graph Reason
reported_cycle_closes cs findings c h m =
    let g = index_of cs in
    let r = search_cycles_sound g in
    let all : All (Reason g) findings =
      subst (All (Reason g)) (some-injective (rw (r.1, check_concept_graph) at h)) (
        All-append (Reason g) _ _ (index_from-Reason g [] [] cs tt) (
          All-append (Reason g) _ _ (check_entries-Reason g g g)
            (cycles-Reason g r.0.cycles r.2))) in
    All-Memᴰ (Reason g) (cycle c) findings all m

no_cycles : (cycles : List (List ℕ)) → map cycle cycles ≡ [] → cycles ≡ []
no_cycles [] e = refl
no_cycles (c ∷ cycles) e = absurd (ground (arith, e))

no_trails :
    (g : Index)
    → ((n : ℕ) (c : List ℕ) → Trail g n c n → ⊥)
    → (cycles : List (List ℕ)) → All (λ c. (n : ℕ) × Trail g n c n) cycles
    → map cycle cycles ≡ []
no_trails g acyclic [] h = refl
no_trails g acyclic (c ∷ cycles) h = absurd (acyclic h.0.0 c h.0.1)

all_unknown : (cs : List Concept) → All (λ x. is_known [] x.id ≡ false) cs
unfolding is_known lookup
all_unknown [] = tt
all_unknown (c ∷ cs) = (refl, all_unknown cs)

-- The check passes, with no finding at all, exactly on the graphs that are as they are meant to be:
-- ids are distinct, prerequisites are other concepts, coding concepts have a topic, and no trail of
-- prerequisites returns to its start.
pub check_concept_graph_passes :
    (cs : List Concept) → (check_concept_graph cs ≡ some []) ↔ IsWellFormed cs
unfolding check_concept_graph
check_concept_graph_passes cs =
    let g = index_of cs in
    let r = search_cycles_sound g in
    let outer = append-nil_iff (index_from [] [] cs).1 _ in
    let inner = append-nil_iff (check_entries g g) (map cycle r.0.cycles) in
    (
      λ h.
          let o = outer.0 (some-injective (rw (r.1, check_concept_graph) at h)) in
          let n = inner.0 o.1 in
          record {
            distinct = ((Fresh-iff [] cs).0 ((index_from-nil [] [] cs).0 o.0).1).1;
            filed = (check_entries-nil g g).0 n.0;
            acyclic = λ m c trail.
                no_return g (r.3 (no_cycles r.0.cycles n.1) m (Trail-is_known g trail)) trail;
          },
      λ w.
          let fresh : (index_from [] [] cs).1 ≡ [] =
            (index_from-nil [] [] cs).1 (refl, (Fresh-iff [] cs).1 (all_unknown cs, w.distinct)) in
          let silent : map cycle r.0.cycles ≡ [] = no_trails g w.acyclic r.0.cycles r.2 in
          rw (r.1, check_concept_graph)
            (ap some (outer.1 (fresh, inner.1 ((check_entries-nil g g).1 w.filed, silent)))),
    )
