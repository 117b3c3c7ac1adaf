-- ===== src/Sessions/Outcomes.antt =====
-- How the status of a planned item changes, and what the completion check leaves behind
-- (apps/api/src/api/sessions.py).
use interview_helper.Prelude.{
  ℕ, Bool, true, false, ◌&&◌, ◌≡◌, refl, inl, inr, none, List, [], ◌∷◌, arith, ◌==◌, any, all,
  ==_iff, Bool-cases,
}
use interview_helper.Sessions.{
  briefing, interviewing, ItemStatus, not_attempted, awaiting_grade, settled, Grading, Interview,
  is_completable, is_terminal, grading_for, all_terminal, move_to, announce, maybe_complete,
}

-- A session that can still finish waits for an item.
abbrev pub IsWaiting : {V P : Type 0} → Interview V P → Type 0
IsWaiting s = (is_completable s.status && all_terminal s) ≡ false

module _ {V P : Type 0} where
  pub maybe_complete-IsWaiting : (now : ℕ) (s : Interview V P) → IsWaiting (maybe_complete now s)
  unfolding maybe_complete move_to announce
  maybe_complete-IsWaiting now s = elim (Bool-cases (is_completable s.status && all_terminal s)) [
    | inl done ↦ rw done refl
    | inr waits ↦ rw waits waits
  ]

pub and_false : (a b : Bool) → b ≡ false → (a && b) ≡ false
and_false true b h = h
and_false false b h = refl

pub all-ext :
    (p q : ℕ → Bool) (items : List ℕ) → ((item : ℕ) → p item ≡ q item) → all p items ≡ all q items
all-ext p q [] same = refl
all-ext p q (item ∷ items) same = rw (same item, all-ext p q items same) refl

pub interviewing-is_terminal :
    (status : ItemStatus) → is_terminal briefing status ≡ is_terminal interviewing status
interviewing-is_terminal not_attempted = refl
interviewing-is_terminal awaiting_grade = refl
interviewing-is_terminal (settled status) = refl

-- A planned item that fails a test refutes that all of them pass it.
pub all-refuted :
    (p : ℕ → Bool) (item : ℕ) (items : List ℕ)
    → any (λ planned. planned == item) items ≡ true
    → p item ≡ false
    → all p items ≡ false
all-refuted p item [] listed fails = ground arith
all-refuted p item (planned ∷ items) listed fails = elim (Bool-cases (planned == item)) [
  | inl here ↦ rw ((==_iff planned item).0 here, fails) refl
  | inr there ↦
      let rest = all-refuted p item items (rw there at listed) fails in ground (arith, rest)
]

module _ {V : Type 0} where
  pub grading_for-fresh :
      (id : ℕ) (gradings : List (Grading V))
      → any (λ g. g.artifact_id == id) gradings ≡ false
      → grading_for id gradings ≡ none
  unfolding grading_for
  grading_for-fresh id [] fresh = refl
  grading_for-fresh id (g ∷ gradings) fresh = ground (arith, grading_for-fresh id gradings)
