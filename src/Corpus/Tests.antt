-- ===== src/Corpus/Tests.antt =====
-- Concrete runs: a chain of three concepts, and two concepts that are prerequisites of each other.
use interview_helper.Prelude.{ℕ, ◌≡◌, refl, ◌↔◌, some, List, [], ◌∷◌}
use mathlib.Core.List.{Memᴰ}
use interview_helper.Corpus.{
  Concept, Finding, cycle, lookup, put, is_known, index_from, check_topic, check_prereqs,
  check_entries, paint, cycle_back, push_prereqs, leave, report, enter, round, walk_from, walk,
  walk_all, size, search_cycles, check_concept_graph,
}
use interview_helper.Corpus.Cycles.{Trail}
use interview_helper.Corpus.WellFormed.{index_of, IsWellFormed}
use interview_helper.Corpus.Findings.{
  check_concept_graph_returns, reported_cycle_closes, check_concept_graph_passes,
}

abbrev concept : ℕ → List ℕ → Concept
concept i prereqs = record { id = i; domain = "coding"; topic = some "graphs"; prereqs = prereqs }

abbrev chain : List Concept
chain = concept 1 [] ∷ concept 2 (1 ∷ []) ∷ concept 3 (2 ∷ 1 ∷ []) ∷ []

abbrev knot : List Concept
knot = concept 1 (2 ∷ []) ∷ concept 2 (1 ∷ []) ∷ []

chain_is_clean : check_concept_graph chain ≡ some []
unfolding lookup put is_known index_from check_topic check_prereqs check_entries paint cycle_back
    push_prereqs leave report enter round walk_from walk walk_all size search_cycles
    check_concept_graph
chain_is_clean = refl

knot_is_reported : check_concept_graph knot ≡ some (cycle (1 ∷ 2 ∷ 1 ∷ []) ∷ [])
unfolding lookup put is_known index_from check_topic check_prereqs check_entries paint cycle_back
    push_prereqs leave report enter round walk_from walk walk_all size search_cycles
    check_concept_graph
knot_is_reported = refl

check_concept_graph_returns_example :
    (findings : List Finding) × (check_concept_graph knot ≡ some findings)
check_concept_graph_returns_example = check_concept_graph_returns knot

reported_cycle_closes_example : (n : ℕ) × Trail (index_of knot) n (1 ∷ 2 ∷ 1 ∷ []) n
reported_cycle_closes_example =
    reported_cycle_closes knot (cycle (1 ∷ 2 ∷ 1 ∷ []) ∷ []) (1 ∷ 2 ∷ 1 ∷ []) knot_is_reported
      (Memᴰ.head refl)

check_concept_graph_passes_example : (check_concept_graph chain ≡ some []) ↔ IsWellFormed chain
check_concept_graph_passes_example = check_concept_graph_passes chain
