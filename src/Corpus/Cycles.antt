-- ===== src/Corpus/Cycles.antt =====
-- The edges of the graph of prerequisites, the trails along them, and the cycle that a walk of
-- `check_concept_graph` (packages/corpus/src/corpus/validate.py) reads off its path.
use interview_helper.Prelude.{
  ℕ, ◌≡◌, refl, inl, inr, true, none, some, List, [], ◌∷◌, arith, ◌==◌, ==_iff, Bool-cases,
  contains, some-injective, none≢some,
}
use mathlib.Core.Path.{subst}
use mathlib.Core.List.{Memᴰ}
use interview_helper.Corpus.{Index, lookup, is_known, cycle_back}

-- The prerequisites that are listed for an id.
unfoldable pub prereqs_of : Index → ℕ → List ℕ
prereqs_of by_id i = elim (lookup i by_id) [ none ↦ [] | some c ↦ c.prereqs ]

module _ (by_id : Index) where
  -- `n` is a prerequisite of `m`, and a concept itself.
  abbrev pub Edge : ℕ → ℕ → Type 0
  Edge m n = Memᴰ n (prereqs_of by_id m) × (is_known by_id n ≡ true)

  -- A trail of at least one edge, with the nodes that it passes, both ends included.
  pub data Trail : ℕ → List ℕ → ℕ → Type 0 where
    last : {m n : ℕ} → Edge m n → Trail m (m ∷ n ∷ []) n
    next : {m k n : ℕ} {xs : List ℕ} → Edge m k → Trail k xs n → Trail m (m ∷ xs) n

  -- The edge from the newest node of a path, if there is one.
  abbrev pub Below : ℕ → List ℕ → Type 0
  Below n [] = Unit
  Below n (x ∷ _) = Edge x n

  -- Each node of a path, kept newest first, is a prerequisite of the one behind it.
  unfoldable pub IsPath : List ℕ → Type 0
  IsPath [] = Unit
  IsPath (x ∷ path) = Below x path × IsPath path

  abbrev pub Closes : ℕ → ℕ → List ℕ → Type 0
  Closes node a found = (x : ℕ) → Edge x a → Trail x (x ∷ found) node

  pub cycle_back-Trail :
      (node a : ℕ) (found path c : List ℕ)
      → Closes node a found
      → Below a path
      → IsPath path
      → cycle_back node found path ≡ some c
      → Trail node c node
  unfolding cycle_back IsPath
  cycle_back-Trail node a found [] c closes top linked h = absurd (none≢some h)
  cycle_back-Trail node a found (x ∷ path) c closes top linked h =
      elim (Bool-cases (contains node path)) [
        | inl further ↦
            cycle_back-Trail node x (x ∷ found) path c (λ y edge. next edge (closes x top)) linked.0
              linked.1 (rw further at h)
        | inr oldest ↦ elim (Bool-cases (x == node)) [
          | inl same ↦
              let e : x ≡ node = (==_iff x node).0 same in
              subst (λ k. Trail k c node) e
                (subst (λ l. Trail x l node) (some-injective (rw (oldest, same) at h))
                  (closes x top))
          | inr other ↦ absurd (none≢some (rw (oldest, other) at h))
        ]
      ]

pub cycle_back-some :
    (node : ℕ) (found path : List ℕ)
    → contains node path ≡ true
    → (c : List ℕ) × (cycle_back node found path ≡ some c)
unfolding cycle_back
cycle_back-some node found [] h = absurd (ground (arith, h))
cycle_back-some node found (x ∷ path) h = elim (Bool-cases (contains node path)) [
  | inl further ↦ rw further (cycle_back-some node (x ∷ found) path further)
  | inr oldest ↦
      let same : (x == node) ≡ true = ground (arith, h, oldest) in
      rw (oldest, same) (x ∷ found, refl)
]
