-- ===== src/Grading/Scores.antt =====
-- The bounds of scores and confidences of apps/api/src/api/grading/coding.py, and what hints cost.
use interview_helper.Prelude.{
  ℕ, zero, suc, ◌-◌, ◌*◌, ◌≤◌, ◌<◌, ◌≡◌, inl, inr, true, Option, List, [], ◌∷◌, arith, ltb, length,
  Bool-cases, ltb→lt,
}
use interview_helper.Executor.{Kind, example, edge, stress, adversarial, other}
use interview_helper.Executor.Probe.{Verdict}
use interview_helper.Grading.Fraction.{
  Fraction, percent, ratio, times, IsUnit, IsAtMost, times-IsUnit, times-IsAtMost, times-monotone,
  times-monotone_left, IsAtMost-trans,
}
use interview_helper.Grading.Coding.{
  penalty_after, hint_retention, base_confidence, failure_softness, total_softness, confidence_from,
  is_slower, complexity_retention, final_score,
}

percent-IsUnit : (p : ℕ) → p ≤ 100 → IsUnit (percent p)
percent-IsUnit p small = record { bounded = small; proper = omega arith }

penalty-IsUnit : (level : ℕ) → IsUnit (percent (100 - penalty_after level))
penalty-IsUnit level = percent-IsUnit (100 - penalty_after level) (omega arith)

hint_retention-IsUnit : (hints : ℕ) → IsUnit (hint_retention hints)
unfolding hint_retention
hint_retention-IsUnit zero = record { bounded = omega arith; proper = omega arith }
hint_retention-IsUnit (suc level) =
    times-IsUnit (hint_retention level) (percent (100 - penalty_after level))
      (hint_retention-IsUnit level) (penalty-IsUnit level)

one_more : (level : ℕ) → IsAtMost (hint_retention (suc level)) (hint_retention level)
unfolding hint_retention
one_more level =
    times-IsAtMost (hint_retention level) (percent (100 - penalty_after level))
      (penalty-IsUnit level)

IsAtMost-refl : (x : Fraction) → IsAtMost x x
IsAtMost-refl x = omega arith

hint_retention-antitone :
    (hints more : ℕ) → hints ≤ more → IsAtMost (hint_retention more) (hint_retention hints)
hint_retention-antitone hints zero fewer =
    let none_ : hints ≡ 0 = omega (arith, fewer) in rw none_ (IsAtMost-refl (hint_retention 0))
hint_retention-antitone hints (suc more) fewer = elim (Bool-cases (ltb more hints)) [
  | inl all_ ↦
      let same : hints ≡ suc more = omega (arith, fewer, ltb→lt more hints all_) in
      rw same (IsAtMost-refl (hint_retention (suc more)))
  | inr fewer_ ↦
      IsAtMost-trans (hint_retention (suc more)) (hint_retention more) (hint_retention hints)
        (hint_retention-IsUnit more).proper (one_more more)
        (hint_retention-antitone hints more (ground (arith, fewer_)))
]

softness-bounded : (kind : Kind) → failure_softness kind ≤ 100
unfolding failure_softness
softness-bounded example = omega arith
softness-bounded edge = omega arith
softness-bounded stress = omega arith
softness-bounded adversarial = omega arith
softness-bounded other = omega arith

total_softness-bounded : (failures : List Kind) → total_softness failures ≤ length failures * 100
unfolding total_softness
total_softness-bounded [] = omega arith
total_softness-bounded (kind ∷ failures) =
    omega (arith, softness-bounded kind, total_softness-bounded failures)

pub confidence_from-IsUnit : (failures : List Kind) → IsUnit (confidence_from failures)
unfolding confidence_from
confidence_from-IsUnit [] = percent-IsUnit 90 (omega arith)
confidence_from-IsUnit (kind ∷ failures) =
    times-IsUnit base_confidence _ (percent-IsUnit 90 (omega arith))
      (record { bounded = total_softness-bounded (kind ∷ failures); proper = omega arith })

complexity_retention-IsUnit : (verdict : Option Verdict) → IsUnit (complexity_retention verdict)
unfolding complexity_retention
complexity_retention-IsUnit verdict = elim (Bool-cases (is_slower verdict)) [
  | inl slower ↦ rw slower (percent-IsUnit 75 (omega arith))
  | inr fine ↦ rw fine (record { bounded = omega arith; proper = omega arith })
]

pub final_score-IsUnit :
    (passed total : ℕ) (verdict : Option Verdict) (hints : ℕ)
    → passed ≤ total
    → 0 < total
    → IsUnit (final_score passed total verdict hints)
unfolding final_score
final_score-IsUnit passed total verdict hints within some_ =
    times-IsUnit _ _
      (times-IsUnit (ratio passed total) _ (record { bounded = within; proper = some_ })
        (complexity_retention-IsUnit verdict))
      (hint_retention-IsUnit hints)

-- Whatever the run and the verdict were, a candidate who took more hints scores at most what one who
-- took fewer does.
pub hints_cost :
    (passed total : ℕ) (verdict : Option Verdict) (hints more : ℕ)
    → hints ≤ more
    → IsAtMost (final_score passed total verdict more) (final_score passed total verdict hints)
unfolding final_score
hints_cost passed total verdict hints more fewer =
    times-monotone (times (ratio passed total) (complexity_retention verdict)) (hint_retention more)
      (hint_retention hints) (hint_retention-antitone hints more fewer)

slower_keeps_less :
    (slower verdict : Option Verdict)
    → is_slower slower ≡ true
    → IsAtMost (complexity_retention slower) (complexity_retention verdict)
unfolding complexity_retention
slower_keeps_less slower verdict called = elim (Bool-cases (is_slower verdict)) [
  | inl too ↦ rw (called, too) (omega arith)
  | inr fine ↦ rw (called, fine) (omega arith)
]

-- The score of a submission that the probe found slower than its target is at most its score with any
-- other verdict, or with none, for the same tests and hints.
pub slower_costs :
    (passed total : ℕ) (slower verdict : Option Verdict) (hints : ℕ)
    → is_slower slower ≡ true
    → IsAtMost (final_score passed total slower hints) (final_score passed total verdict hints)
unfolding final_score
slower_costs passed total slower verdict hints called =
    let tests_ = ratio passed total in
    times-monotone_left (times tests_ (complexity_retention slower))
      (times tests_ (complexity_retention verdict)) (hint_retention hints)
      (times-monotone tests_ (complexity_retention slower) (complexity_retention verdict)
        (slower_keeps_less slower verdict called))
