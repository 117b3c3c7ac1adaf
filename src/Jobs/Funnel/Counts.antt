-- ===== src/Jobs/Funnel/Counts.antt =====
-- The histogram and the suffix sum of `stats` (apps/api/src/api/jobs.py), and the rows they count.
use interview_helper.Prelude.{
  ℕ, zero, suc, ◌+◌, ◌≤◌, ◌<◌, ◌≡◌, refl, ◌∙◌, List, [], ◌∷◌, arith, length, replicate, foldl, ap,
}
use interview_helper.Jobs.{JobApplication}
use interview_helper.Jobs.Funnel.{
  at_rung, head_or_zero, suffix_sums, reached_per_stage, nth, bar, exactly, at_least, rank-lt,
  tally, nth-tally, length-tally, at_least-suc,
}

head-nth : (ns : List ℕ) → head_or_zero ns ≡ nth ns 0
head-nth [] = refl
head-nth (n ∷ ns) = refl

nth-suffix_sums :
    (rows : List JobApplication) (ns : List ℕ) (first : ℕ)
    → ((j : ℕ) → j < length ns → nth ns j ≡ exactly (first + j) rows)
    → at_least (first + length ns) rows ≡ 0
    → (i : ℕ) → i ≤ length ns
    → nth (suffix_sums ns) i ≡ at_least (first + i) rows
unfolding suffix_sums
nth-suffix_sums rows [] first h e i b = let z : i ≡ 0 = omega arith in rw z (omega arith)
nth-suffix_sums rows (n ∷ ns) first h e i b =
    let shift = λ (k : ℕ). (let q : suc first + k ≡ first + suc k = omega arith in q) in
    let later =
      nth-suffix_sums rows ns (suc first) (λ j l. rw (shift j) (h (suc j) (omega arith)))
        (rw (shift (length ns)) e) in
    by_index i b later
  where
    by_index :
        (i : ℕ)
        → i ≤ suc (length ns)
        → ((k : ℕ) → k ≤ length ns → nth (suffix_sums ns) k ≡ at_least (suc first + k) rows)
        → nth (suffix_sums (n ∷ ns)) i ≡ at_least (first + i) rows
    by_index zero b later =
        let z : first + 0 ≡ first = omega arith in
        let z' : suc first + 0 ≡ suc first = omega arith in
        let here : n ≡ exactly first rows = rw z at (h 0 (omega arith)) in
        let next : nth (suffix_sums ns) 0 ≡ at_least (suc first) rows =
          rw z' at (later 0 (omega arith)) in
        rw z (omega (arith, head-nth (suffix_sums ns), at_least-suc first rows))
    by_index (suc k) b later =
        let q : first + suc k ≡ suc first + k = omega arith in rw q (later k (omega arith))

at_least-past : (rows : List JobApplication) → at_least 8 rows ≡ 0
unfolding at_least
at_least-past [] = refl
at_least-past (row ∷ rows) = ground (arith, rank-lt row.furthest_stage, at_least-past rows)

at_least-zero : (rows : List JobApplication) → at_least 0 rows ≡ length rows
unfolding at_least
at_least-zero [] = refl
at_least-zero (row ∷ rows) = ground (arith, at_least-zero rows)

nth-zeros : (n i : ℕ) → nth (replicate n 0) i ≡ 0
nth-zeros zero i = refl
nth-zeros (suc n) zero = refl
nth-zeros (suc n) (suc i) = nth-zeros n i

reached-at_least :
    (rows : List JobApplication) (i : ℕ) → i ≤ 8 → nth (reached_per_stage rows) i ≡ at_least i rows
unfolding reached_per_stage at_rung
reached-at_least rows i b =
    let wide = length-tally rows (replicate 8 0) in
    let past : at_least (0 + length (foldl tally (replicate 8 0) rows)) rows ≡ 0 =
      rw wide (at_least-past rows) in
    let sums =
      nth-suffix_sums rows (foldl tally (replicate 8 0) rows) 0
        (λ j l.
          let z : 0 + j ≡ j = omega arith in
          rw z (nth-tally rows (replicate 8 0) j refl ∙ omega (arith, nth-zeros 8 j)))
        past i (rw wide b) in
    let z : 0 + i ≡ i = omega arith in sums ∙ ap (λ k. at_least k rows) z

-- Bar `i` of the funnel counts exactly the rows whose furthest stage is rung `i` or a later one, a
-- rejected row included; the first bar counts every row, and no bar is higher than the one before.
pub bar_counts :
    (rows : List JobApplication) (i : ℕ)
    → i < 8
    → ((bar rows i).reached ≡ at_least i rows)
      × ((bar rows 0).reached ≡ length rows)
      × ((bar rows i).reached ≤ (bar rows i).previous)
unfolding bar
bar_counts rows zero h =
    let first = reached-at_least rows 0 (omega arith) in
    (first, omega (arith, at_least-zero rows), omega (arith, at_least-zero rows))
bar_counts rows (suc i) h = (
  reached-at_least rows (suc i) (omega arith),
  omega (arith, at_least-zero rows, reached-at_least rows 0 (omega arith)),
  omega (
    arith,
    reached-at_least rows (suc i) (omega arith),
    reached-at_least rows i (omega arith),
    at_least-suc i rows,
  ),
)
