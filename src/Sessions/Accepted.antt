-- ===== src/Sessions/Accepted.antt =====
-- What a request of apps/api/src/api/sessions.py did when it was not refused.
use interview_helper.Prelude.{
  ℕ, true, false, ◌||◌, not, ◌≡◌, ◌≢◌, refl, sym, ◌⊎◌, inl, inr, Option, none, some, List, [], ◌∷◌,
  arith, ◌==◌, if◌then◌else◌, any, Bool-cases, Option-cases,
}
use Prim.Native.String.{String}
use interview_helper.Sessions.{
  SessionState, briefing, interviewing, abandoned, Mode, ArtifactKind, Artifact, Interview, is_open,
  is_briefing, is_reportable, artifact_for, move_to,
}
use interview_helper.Sessions.Service.{
  CorpusItem, Refusal, Result, ok, err, same_kind, artifact_kind, choose_language, is_empty,
  create_session, end_session, current_item, begin_turn, store_artifact, submit_to, insert_artifact,
  record_submission,
}

pub err≢ok : {A : Type 0} {refusal : Refusal} {a : A} → err refusal ≢ ok a
err≢ok e = ground arith

pub ok-injective : {A : Type 0} {a b : A} → ok a ≡ ok b → a ≡ b
ok-injective e = cc

pub Result-cases :
    {A : Type 0} (r : Result A) → ((refusal : Refusal) × (r ≡ err refusal)) ⊎ ((a : A) × (r ≡ ok a))
Result-cases (err refusal) = inl (refusal, refl)
Result-cases (ok a) = inr (a, refl)

module _ {V P : Type 0} where
  pub end_session-accepted :
      (seen : SessionState) (now : ℕ) (s s' : Interview V P)
      → end_session seen now s ≡ ok s'
      → (is_reportable s.status ≡ false)
        × (s' ≡ move_to abandoned (record s { ended_at = some now }))
  unfolding end_session
  end_session-accepted seen now s s' accepted =
      elim (Bool-cases (is_reportable seen || is_reportable s.status)) [
        | inl refused ↦ absurd (err≢ok (rw refused at accepted))
        | inr live ↦ (ground (arith, live), sym (ok-injective (rw live at accepted)))
      ]

  pub create_session-accepted :
      (mode : Mode) (projection : P) (plan seeded : List ℕ) (s : Interview V P)
      → create_session mode projection plan seeded ≡ ok s
      → (is_empty s.plan ≡ false) × (s.status ≡ briefing) × (s.artifacts ≡ []) × (s.gradings ≡ [])
  unfolding create_session
  create_session-accepted mode projection [] seeded s accepted = absurd (err≢ok accepted)
  create_session-accepted mode projection (item ∷ plan) seeded s accepted =
      elim (Bool-cases (any (λ i. not (any (λ row. row == i) seeded)) (item ∷ plan))) [
        | inl missing ↦ absurd (err≢ok (rw missing at accepted))
        | inr present ↦
            let made = ok-injective (rw present at accepted) in rw (← made) (refl, refl, refl, refl)
      ]

-- What a submission that is taken does: the item had none, and its row is stored.
abbrev pub Stored : {V P : Type 0} → SessionState → ℕ → ℕ → Interview V P → Interview V P → Type 0
Stored seen id item_id s s' =
    (a : Artifact) × (artifact_for item_id s.artifacts ≡ none)
    × (a.id ≡ id)
    × (a.item_id ≡ item_id)
    × (s' ≡ store_artifact seen a s)

module _ {V P : Type 0} where
  submit_to-accepted :
      (item : CorpusItem) (seen : SessionState) (id item_id : ℕ) (kind : ArtifactKind)
      (content : String) (language : Option String) (elapsed : ℕ) (s s' : Interview V P)
      → submit_to item seen id item_id kind content language elapsed s ≡ ok s'
      → Stored seen id item_id s s'
  unfolding submit_to insert_artifact
  submit_to-accepted item seen id item_id kind content language elapsed s s' accepted =
      elim (Result-cases (choose_language item kind language)) [
        | inl bad ↦ absurd (err≢ok (rw (bad.1, submit_to) at accepted))
        | inr chosen ↦
            let in_language = (rw (chosen.1, submit_to) at accepted) in
            elim (Option-cases (artifact_for item_id s.artifacts)) [
              | inr twice ↦ absurd (err≢ok (rw (twice.1, insert_artifact) at in_language))
              | inl first ↦ (
                _,
                first,
                refl,
                refl,
                sym (ok-injective (rw (first, insert_artifact) at in_language)),
              )
            ]
      ]

module _ {V P : Type 0} (corpus_item : ℕ → Option CorpusItem) where
  pub begin_turn-accepted :
      (seen : SessionState) (s s' : Interview V P)
      → begin_turn corpus_item seen s ≡ ok s'
      → (is_open seen ≡ true) × (s' ≡ (if is_briefing seen then move_to interviewing s else s))
  unfolding begin_turn
  begin_turn-accepted seen s s' accepted = elim (Bool-cases (is_open seen)) [
    | inl open_ ↦ elim (Option-cases (current_item corpus_item s)) [
      | inl over ↦ absurd (err≢ok (rw over at (rw open_ at accepted)))
      | inr item ↦ (open_, sym (ok-injective (rw item.1 at (rw open_ at accepted))))
    ]
    | inr closed ↦ absurd (err≢ok (rw closed at accepted))
  ]

  pub record_submission-accepted :
      (seen : SessionState) (id item_id : ℕ) (kind : ArtifactKind) (content : String)
      (language : Option String) (elapsed : ℕ) (s s' : Interview V P)
      → record_submission corpus_item seen id item_id kind content language elapsed s ≡ ok s'
      → (is_open seen ≡ true)
        × (any (λ planned. planned == item_id) s.plan ≡ true)
        × Stored seen id item_id s s'
  unfolding record_submission
  record_submission-accepted seen id item_id kind content language elapsed s s' accepted =
      elim (Bool-cases (is_open seen)) [
        | inr closed ↦ absurd (err≢ok (rw closed at accepted))
        | inl open_ ↦
            let in_state = (rw open_ at accepted) in
            elim (Bool-cases (any (λ planned. planned == item_id) s.plan)) [
              | inr unplanned ↦ absurd (err≢ok (rw unplanned at in_state))
              | inl planned ↦
                  let in_plan = (rw planned at in_state) in
                  elim (Bool-cases (same_kind kind (artifact_kind s.mode))) [
                    | inr wrong ↦ absurd (err≢ok (rw wrong at in_plan))
                    | inl right ↦ elim (Option-cases (corpus_item item_id)) [
                      | inl missing ↦ absurd (err≢ok (rw missing at (rw right at in_plan)))
                      | inr item ↦ (
                        open_,
                        planned,
                        submit_to-accepted item.0 seen id item_id kind content language elapsed s s'
                            (rw item.1 at (rw right at in_plan)),
                      )
                    ]
                  ]
            ]
      ]
