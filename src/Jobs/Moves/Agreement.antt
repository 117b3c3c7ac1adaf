-- ===== src/Jobs/Moves/Agreement.antt =====
-- When a board of apps/api/src/api/jobs.py agrees with its history, and `recompute` and `advance` on such
-- a board.
use interview_helper.Prelude.{
  ℕ, ◌≡◌, ◌≢◌, refl, ◌∙◌, sym, ap, ◌⊎◌, inl, inr, Bool, true, Option, some, List, [], ◌∷◌, arith,
  ◌==◌, if◌then◌else◌, select, any, All, All-map, All-append, select-append, append-nil, Bool-cases,
  Option-cases,
}
use Prim.Native.String.{String}
use native.Mathlib.Decide.{ℕ_discrete}
use interview_helper.Jobs.{Stage, stage_of, JobApplication, ok}
use interview_helper.Jobs.Projection.{sort, project, Standing}
use interview_helper.Jobs.Board.{
  Board, find, update, events_of, last_event, standing_of, stand, recompute,
}
use interview_helper.Jobs.Moves.{append_event, is_there, next_sequence, or_now, advance_to, advance}

abbrev pub is_listed : ℕ → List JobApplication → Bool
is_listed id = any (λ a. a.id == id)

abbrev pub Agrees : Board → JobApplication → Type 0
Agrees b a = standing_of a ≡ project (events_of b a.id)

-- Every event belongs to a row, and every row agrees with its events.
pub record IsConsistent (b : Board) : Type 0 where
  pub owned : All (λ e. is_listed e.application_id b.applications ≡ true) b.events
  pub agrees : All (Agrees b) b.applications

is_listed_of_find :
    (id : ℕ) (as' : List JobApplication) (a : JobApplication)
    → find id as' ≡ some a
    → is_listed id as' ≡ true
unfolding find
is_listed_of_find id [] a h = cc
is_listed_of_find id (x ∷ xs) a h = ground (arith, is_listed_of_find id xs a)

is_listed-update :
    (id j : ℕ) (s : Standing) (now : ℕ) (xs : List JobApplication)
    → is_listed j (update id (stand s now) xs) ≡ is_listed j xs
unfolding update
is_listed-update id j s now [] = refl
is_listed-update id j s now (x ∷ xs) = ground (arith, is_listed-update id j s now xs)

-- `recompute` writes the row that it names from its events, so it is enough that the others agree.
All-update :
    (b : Board) (id now : ℕ) (xs : List JobApplication)
    → All (λ a. (a.id ≡ id) ⊎ Agrees b a) xs
    → All (Agrees b) (update id (stand (project (events_of b id)) now) xs)
unfolding update
All-update b id now [] h = tt
All-update b id now (x ∷ xs) h = (one x h.0, All-update b id now xs h.1)
  where
    one :
        (a : JobApplication)
        → (a.id ≡ id) ⊎ Agrees b a
        → Agrees b (if a.id == id then stand (project (events_of b id)) now a else a)
    one a k = elim (Bool-cases (a.id == id)) [
      | inl same ↦ let e : a.id ≡ id = ground arith in rw (same, e) refl
      | inr other ↦ rw other (elim k [ inl e ↦ absurd (ground arith) | inr agree ↦ agree ])
    ]

recomputed : Board → ℕ → ℕ → Board
recomputed b id now = record b {
  applications = update id (stand (project (events_of b id)) now) b.applications;
}

recompute-recomputed :
    (b : Board) (id now : ℕ) {b' : Board} {a : JobApplication}
    → recompute b id now ≡ ok (b', a)
    → b' ≡ recomputed b id now
unfolding recompute recomputed
recompute-recomputed b id now h = ground arith

recomputed-IsConsistent :
    (b : Board) (id now : ℕ)
    → All (λ e. is_listed e.application_id b.applications ≡ true) b.events
    → All (λ x. (x.id ≡ id) ⊎ Agrees b x) b.applications
    → IsConsistent (recomputed b id now)
unfolding recomputed events_of
recomputed-IsConsistent b id now owned others = record {
  owned =
      All-map b.events (λ e h. is_listed-update id e.application_id _ now b.applications ∙ h) owned;
  agrees = All-update b id now b.applications others;
}

-- After a `recompute` that finds its row, the board is consistent if all the other rows agreed.
pub recompute-IsConsistent :
    (b : Board) (id now : ℕ) {b' : Board} {a : JobApplication}
    → All (λ e. is_listed e.application_id b.applications ≡ true) b.events
    → All (λ x. (x.id ≡ id) ⊎ Agrees b x) b.applications
    → recompute b id now ≡ ok (b', a)
    → IsConsistent b'
recompute-IsConsistent b id now owned others h =
    rw (recompute-recomputed b id now h) (recomputed-IsConsistent b id now owned others)

events_of-append_other :
    (b : Board) (id j : ℕ) (s : Stage) (remark : Option String) (at sequence : ℕ)
    → j ≢ id
    → events_of (append_event b id s remark at sequence) j ≡ events_of b j
unfolding events_of append_event
events_of-append_other b id j s remark at sequence h = ap sort (
    select-append (λ e. e.application_id == j) b.events _
    ∙ ground (arith, append-nil (select (λ e. e.application_id == j) b.events)))

advance_to-cases :
    (b : Board) (id : ℕ) (s : Stage) (remark : Option String) (occurred : Option ℕ) (now : ℕ)
    {b' : Board} {a : JobApplication}
    → advance_to b id s remark occurred now ≡ ok (b', a)
    → (b' ≡ b)
      ⊎ ((x : JobApplication) × (find id b.applications ≡ some x)
          × (recompute
                (append_event b id s remark
                  (or_now occurred now)
                  (next_sequence (last_event (events_of b id))))
                id
                now
              ≡ ok (b', a)))
unfolding advance_to
advance_to-cases b id s remark occurred now h = elim (Option-cases (find id b.applications)) [
  | inl missing ↦ absurd (ground arith)
  | inr (x, found) ↦ elim (Bool-cases (is_there (last_event (events_of b id)) s)) [
    | inl there ↦ inl (ground arith)
    | inr new ↦ inr (x, found, ground arith)
  ]
]

appended-IsConsistent :
    (b : Board) (id : ℕ) (s : Stage) (remark : Option String) (at sequence now : ℕ)
    {x : JobApplication} {b' : Board} {a : JobApplication}
    → IsConsistent b
    → find id b.applications ≡ some x
    → recompute (append_event b id s remark at sequence) id now ≡ ok (b', a)
    → IsConsistent b'
unfolding append_event
appended-IsConsistent b id s remark at sequence now {x} c found h =
    recompute-IsConsistent (append_event b id s remark at sequence) id now
      (All-append (λ e. is_listed e.application_id b.applications ≡ true) b.events _ c.owned
        (is_listed_of_find id b.applications x found, tt))
      (All-map b.applications (λ y agree. same_or_agrees y agree) c.agrees) h
  where
    same_or_agrees :
        (y : JobApplication)
        → Agrees b y
        → (y.id ≡ id) ⊎ Agrees (append_event b id s remark at sequence) y
    same_or_agrees y agree = elim (ℕ_discrete y.id id) [
      | yes e ↦ inl e
      | no ne ↦
          inr (agree ∙ sym (ap project (events_of-append_other b id y.id s remark at sequence ne)))
    ]

-- A stage change that succeeds leaves a consistent board consistent.
pub advance-IsConsistent :
    (b : Board) (id : ℕ) (stage : String) (remark : Option String) (occurred : Option ℕ) (now : ℕ)
    {b' : Board} {a : JobApplication}
    → IsConsistent b
    → advance b id stage remark occurred now ≡ ok (b', a)
    → IsConsistent b'
unfolding advance
advance-IsConsistent b id stage remark occurred now c h = elim (Option-cases (stage_of stage)) [
  | inl unknown ↦ ground arith
  | inr (s, known) ↦ elim (advance_to-cases b id s remark occurred now (rw (known, advance) at h)) [
    | inl same ↦ rw same c
    | inr (x, found, done) ↦
        appended-IsConsistent b id s remark (or_now occurred now)
          (next_sequence (last_event (events_of b id))) now c found done
  ]
]
