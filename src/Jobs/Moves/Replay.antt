-- ===== src/Jobs/Moves/Replay.antt =====
-- `recompute_all` (apps/api/src/api/jobs.py): the board rebuilt from the history.
use interview_helper.Prelude.{
  ℕ, ◌≡◌, ◌≢◌, refl, ◌∙◌, sym, ap, ◌⊎◌, ◌↔◌, inl, inr, true, false, List, [], ◌∷◌, arith, ◌==◌, All,
  Bool-cases,
}
use mathlib.Core.Logic.{if_pos, if_neg}
use mathlib.Core.Bool.{false≢true}
use interview_helper.Jobs.{JobApplication}
use interview_helper.Jobs.Projection.{project, Standing}
use interview_helper.Jobs.Board.{Board, events_of, standing_of}
use interview_helper.Jobs.Moves.{Standing-discrete, is_standing, replay, recompute_all}
use interview_helper.Jobs.Moves.Agreement.{Agrees, IsConsistent}

is_standing_iff :
    (a : JobApplication) (s : Standing) → (is_standing a s ≡ true) ↔ (standing_of a ≡ s)
unfolding is_standing
is_standing_iff a s = elim (Standing-discrete (standing_of a) s) [
  | yes same ↦ (λ _. same, λ _. if_pos _ same true false)
  | no differs ↦ (
    λ h. absurd (false≢true (sym (if_neg _ differs true false) ∙ h)),
    λ same. absurd (differs same),
  )
]

module _ (b : Board) (user now : ℕ) where
  replay-Agrees :
      (xs : List JobApplication)
      → All (λ a. (a.user_id ≢ user) ⊎ Agrees b a) (replay b user now xs).0
  unfolding replay
  replay-Agrees [] = tt
  replay-Agrees (a ∷ rest) =
      let before = replay-Agrees rest in
      elim (Bool-cases (a.user_id == user)) [
        | inr other ↦ rw other (inl (ground arith), before)
        | inl mine ↦ elim (Bool-cases (is_standing a (project (events_of b a.id)))) [
          | inl same ↦
              rw (mine, same)
                (inr ((is_standing_iff a (project (events_of b a.id))).0 same), before)
          | inr differs ↦ rw (mine, differs) (inr refl, before)
        ]
      ]

  replay-same : (xs : List JobApplication) → All (Agrees b) xs → replay b user now xs ≡ (xs, 0)
  unfolding replay
  replay-same [] h = refl
  replay-same (a ∷ rest) h =
      let before = replay-same rest h.1 in
      elim (Bool-cases (a.user_id == user)) [
        | inr other ↦ rw (other, before) refl
        | inl mine ↦ rw (mine, (is_standing_iff a (project (events_of b a.id))).1 h.0, before) refl
      ]

  -- Whatever the rows said before, a replay leaves every row of the user in agreement with its
  -- events, and it writes no event.
  pub recompute_all-Agrees :
      let b' = (recompute_all b user now).0 in
      (b'.events ≡ b.events) × All (λ a. (a.user_id ≢ user) ⊎ Agrees b' a) b'.applications
  unfolding recompute_all events_of
  recompute_all-Agrees = (refl, replay-Agrees b.applications)

  -- On a board that agrees with its history a replay corrects no row and changes nothing.
  pub recompute_all-consistent :
      IsConsistent b → ((recompute_all b user now).0 ≡ b) × ((recompute_all b user now).2 ≡ 0)
  unfolding recompute_all
  recompute_all-consistent c =
      let same = replay-same b.applications c.agrees in
      (
        ap (λ (r : List JobApplication × ℕ). record b { applications = r.0 }) same,
        ap (λ r. r.1) same,
      )
