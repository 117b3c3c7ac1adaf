-- ===== src/Executor/Probe.antt =====
-- The verdict of the complexity probe: `judge` of apps/executor/src/executor/complexity.py. Times are in
-- nanoseconds and slopes in hundredths, as the ceilings are; `classify_target` and the fit of a slope, which the source
-- computes with logarithms of floats, are arguments.
use interview_helper.Prelude.{
  ℕ, ◌+◌, ◌≤◌, ◌≡◌, refl, ◌⊎◌, inl, inr, Bool, true, false, ◌&&◌, Option, none, some, List, [], ◌∷◌,
  arith, ltb, leb, if◌then◌else◌, length, max, Bool-cases, Option-cases,
}
use interview_helper.Executor.{ℤ, pos, negsuc}

pub data Verdict : Type 0 where
  matches slower_than_target inconclusive : Verdict

pub data Band : Type 0 where
  constant log linear linearithmic quadratic cubic : Band

unfoldable pub band_ceiling : Band → ℕ
band_ceiling constant = 50
band_ceiling log = 50
band_ceiling linear = 130
band_ceiling linearithmic = 175
band_ceiling quadratic = 260
band_ceiling cubic = 360

abbrev pub margin : ℕ
margin = 35

-- `_MIN_SIGNIFICANT_SECONDS`
abbrev pub min_significant : ℕ
min_significant = 200000

-- `_ABSURD_FIRST_SIZE_SECONDS`
abbrev pub absurd_first_size : ℕ
absurd_first_size = 1000000000

-- A size and the time it took.
pub record Point : Type 0 where
  pub size : ℕ
  pub time : ℕ

pub record ProbeResult : Type 0 where
  pub verdict : Verdict
  pub slope : Option ℤ

abbrev pub penalises : Verdict → Bool
penalises slower_than_target = true
penalises _ = false

unfoldable pub at_most : ℤ → ℕ → Bool
at_most (pos slope) bound = leb slope bound
at_most (negsuc slope) bound = true

unfoldable pub at_least : ℤ → ℕ → Bool
at_least (pos slope) bound = leb bound slope
at_least (negsuc slope) bound = false

unfoldable pub largest_time : List Point → ℕ
largest_time [] = 0
largest_time (p ∷ points) = max p.time (largest_time points)

unfoldable pub first_is_absurd : List Point → Bool
first_is_absurd [] = false
first_is_absurd (p ∷ points) = ltb absurd_first_size p.time

abbrev pub is_measured : List Point → Bool
is_measured [] = false
is_measured (p ∷ points) = true

-- The verdict on a slope.
unfoldable pub judge_slope : Band → ℤ → Verdict
judge_slope band slope =
    if at_most slope (band_ceiling band)
    then matches
    else if at_least slope (band_ceiling band + margin)
    then slower_than_target
    else inconclusive

module _ (fit_slope : List Point → Option ℤ) where
  -- `judge`, of a target that has a band.
  unfoldable pub judge_band : Band → List Point → Bool → ProbeResult
  judge_band band points truncated =
      if truncated && is_measured points
      then record {
        verdict = slower_than_target;
        slope = if leb 3 (length points) then fit_slope points else none;
      }
      else if first_is_absurd points
      then record { verdict = slower_than_target; slope = none }
      else if ltb (length points) 3
      then record { verdict = inconclusive; slope = none }
      else if ltb (largest_time points) min_significant
      then record { verdict = inconclusive; slope = none }
      else elim (fit_slope points) [
        | none ↦ record { verdict = inconclusive; slope = none }
        | some slope ↦ record { verdict = judge_slope band slope; slope = some slope }
      ]

  unfoldable pub judge : Option Band → List Point → Bool → ProbeResult
  judge none points truncated = record { verdict = inconclusive; slope = none }
  judge (some band) points truncated = judge_band band points truncated

  judge_slope-penalises :
      (band : Band) (slope : ℤ)
      → penalises (judge_slope band slope) ≡ true
      → at_least slope (band_ceiling band + margin) ≡ true
  unfolding judge_slope
  judge_slope-penalises band slope called = elim (Bool-cases (at_most slope (band_ceiling band))) [
    | inl within ↦ ground (arith, rw within at called)
    | inr above ↦ elim (Bool-cases (at_least slope (band_ceiling band + margin))) [
      | inl beyond ↦ beyond
      | inr near ↦ ground (arith, rw near at (rw above at called))
    ]
  ]

  -- A submission is called slower than its target only if the target has a band and the sweep was cut
  -- short with a size measured, or the first size alone took more than a second, or three sizes and a
  -- sample above the noise floor gave a slope that clears the band's ceiling by the whole margin.
  pub judge-penalises :
      (target : Option Band) (points : List Point) (truncated : Bool)
      → penalises (judge target points truncated).verdict ≡ true
      → (band : Band) × (target ≡ some band)
        × (((truncated && is_measured points) ≡ true)
            ⊎ (first_is_absurd points ≡ true)
            ⊎ ((3 ≤ length points)
                × (min_significant ≤ largest_time points)
                × ((slope : ℤ) × (fit_slope points ≡ some slope)
                    × (at_least slope (band_ceiling band + margin) ≡ true))))
  unfolding judge judge_band
  judge-penalises none points truncated called = ground (arith, called)
  judge-penalises (some band) points truncated called = (
    band,
    refl,
    elim (Bool-cases (truncated && is_measured points)) [
      | inl cut ↦ inl cut
      | inr full ↦
          let c1 = (rw full at called) in
          elim (Bool-cases (first_is_absurd points)) [
            | inl slow ↦ inr (inl slow)
            | inr quick ↦
                let c2 = (rw quick at c1) in
                elim (Bool-cases (ltb (length points) 3)) [
                  | inl few ↦ ground (arith, rw few at c2)
                  | inr enough ↦
                      let c3 = (rw enough at c2) in
                      elim (Bool-cases (ltb (largest_time points) min_significant)) [
                        | inl noise ↦ ground (arith, rw noise at c3)
                        | inr signal ↦
                            let c4 = (rw signal at c3) in
                            elim (Option-cases (fit_slope points)) [
                              | inl unfit ↦ ground (arith, rw unfit at c4)
                              | inr fit ↦ inr (
                                  inr (
                                    ground (arith, enough),
                                    ground (arith, signal),
                                    (
                                      fit.0,
                                      fit.1,
                                      judge_slope-penalises band fit.0 (rw fit.1 at c4),
                                    ),
                                  ))
                            ]
                      ]
                ]
          ]
    ],
  )
