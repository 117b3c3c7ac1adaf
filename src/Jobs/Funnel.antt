-- ===== src/Jobs/Funnel.antt =====
-- The funnel and the counts of `stats` (apps/api/src/api/jobs.py): one pass over the rows for a
-- histogram of the furthest rungs, then a suffix sum. A rate is a pair of counts.
pub mod Counts
use interview_helper.Prelude.{
  ℕ, zero, suc, ◌+◌, ◌≤◌, ◌<◌, ◌≡◌, refl, ◌∙◌, Bool, true, false, List, [], ◌∷◌, arith, leb, ltb,
  ◌==◌, if◌then◌else◌, length, select, count, foldl,
}
use mathlib.Core.Logic.{ite}
use interview_helper.Jobs.{
  Stage, applied, oa, video_assessment, phone_screen, round_1, round_2, final, offer, rejected,
  withdrawn, ghosted, rank_or_zero, stages, Outcome, still_open, got_offer, was_rejected,
  JobApplication,
}
use interview_helper.Jobs.Moves.{Stage-discrete}

-- `at_rung[i] += 1`
bump : ℕ → List ℕ → List ℕ
bump i [] = []
bump zero (n ∷ ns) = (n + 1) ∷ ns
bump (suc i) (n ∷ ns) = n ∷ bump i ns

-- `at_rung`, filled by one pass.
pub at_rung : List JobApplication → List ℕ
unfolding bump
at_rung =
    foldl (λ h row. bump (rank_or_zero row.furthest_stage) h) (0 ∷ 0 ∷ 0 ∷ 0 ∷ 0 ∷ 0 ∷ 0 ∷ 0 ∷ [])

abbrev head_or_zero : List ℕ → ℕ
head_or_zero [] = 0
head_or_zero (n ∷ ns) = n

-- The backwards loop that keeps a running sum.
pub suffix_sums : List ℕ → List ℕ
suffix_sums [] = []
suffix_sums (n ∷ ns) = let rest = suffix_sums ns in (head_or_zero rest + n) ∷ rest

pub reached_per_stage : List JobApplication → List ℕ
unfolding at_rung suffix_sums
reached_per_stage rows = suffix_sums (at_rung rows)

abbrev pub nth : List ℕ → ℕ → ℕ
nth [] i = 0
nth (n ∷ ns) zero = n
nth (n ∷ ns) (suc i) = nth ns i

-- One bar of the funnel: the rows that reached the rung, of the rows that reached the one before.
pub record Bar : Type 0 where
  pub reached : ℕ
  pub previous : ℕ
  pub total : ℕ

pub bar : List JobApplication → ℕ → Bar
unfolding reached_per_stage
bar rows zero = record {
  reached = nth (reached_per_stage rows) 0;
  previous = length rows;
  total = length rows;
}
bar rows (suc i) = record {
  reached = nth (reached_per_stage rows) (suc i);
  previous = nth (reached_per_stage rows) i;
  total = length rows;
}

-- What the histogram is meant to hold: rows at exactly the rung, and rows at it or past it.
exactly : ℕ → List JobApplication → ℕ
exactly i = count (λ row. rank_or_zero row.furthest_stage == i)

pub at_least : ℕ → List JobApplication → ℕ
at_least i = count (λ row. leb i (rank_or_zero row.furthest_stage))

rank-lt : (s : Stage) → rank_or_zero s < 8
rank-lt applied = omega arith
rank-lt _ = omega arith

nth-bump :
    (i j : ℕ) (ns : List ℕ)
    → i < length ns
    → nth (bump i ns) j ≡ (if i == j then 1 else 0) + nth ns j
unfolding bump
nth-bump i j [] h = absurd (omega arith)
nth-bump zero zero (n ∷ ns) h = omega arith
nth-bump zero (suc j) (n ∷ ns) h = ground arith
nth-bump (suc i) zero (n ∷ ns) h = ground arith
nth-bump (suc i) (suc j) (n ∷ ns) h = ground (arith, nth-bump i j ns (omega arith))

length-bump : (i : ℕ) (ns : List ℕ) → length (bump i ns) ≡ length ns
unfolding bump
length-bump i [] = refl
length-bump zero (n ∷ ns) = refl
length-bump (suc i) (n ∷ ns) = omega (arith, length-bump i ns)

abbrev tally : List ℕ → JobApplication → List ℕ
tally h row = bump (rank_or_zero row.furthest_stage) h

nth-tally :
    (rows : List JobApplication) (h : List ℕ) (i : ℕ)
    → length h ≡ 8
    → nth (foldl tally h rows) i ≡ nth h i + exactly i rows
unfolding exactly
nth-tally [] h i e = omega arith
nth-tally (row ∷ rows) h i e =
    let fits : rank_or_zero row.furthest_stage < length h =
      omega (arith, rank-lt row.furthest_stage) in
    nth-tally rows (tally h row) i (length-bump (rank_or_zero row.furthest_stage) h ∙ e)
    ∙ omega (arith, nth-bump (rank_or_zero row.furthest_stage) i h fits)

length-tally : (rows : List JobApplication) (h : List ℕ) → length (foldl tally h rows) ≡ length h
length-tally [] h = refl
length-tally (row ∷ rows) h =
    length-tally rows (tally h row) ∙ length-bump (rank_or_zero row.furthest_stage) h

-- The rows at a rung or past it are those at it and those at the next or past it.
at_least-suc :
    (i : ℕ) (rows : List JobApplication) → at_least i rows ≡ at_least (suc i) rows + exactly i rows
unfolding at_least exactly
at_least-suc i [] = omega arith
at_least-suc i (row ∷ rows) = ground (arith, at_least-suc i rows)
