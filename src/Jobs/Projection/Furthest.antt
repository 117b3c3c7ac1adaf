-- ===== src/Jobs/Projection/Furthest.antt =====
-- The furthest stage of `project` (apps/api/src/api/jobs.py) and the ranks of the events.
use interview_helper.Prelude.{
  ℕ, ◌<◌, ◌≡◌, refl, ◌∙◌, ap, max, List, [], ◌∷◌, ◌++◌, arith, if◌then◌else◌, All, none, ◌≢◌,
}
use interview_helper.Jobs.{Stage, applied, rank, rank_or_zero, outcome_for_stage, JobEvent}
use interview_helper.Jobs.Projection.{
  insert, sort, is_further, furthest_from, last_stage, standing, project,
}

-- The independent description: the highest rank among the events, off-ladder stages counting 0.
pub highest : List JobEvent → ℕ
highest [] = 0
highest (e ∷ es) = max (rank_or_zero e.stage) (highest es)

-- A stage that is a place on the ladder, and no way that a pipeline ends.
abbrev pub IsRung : Stage → Type 0
IsRung s = rank s ≢ none

step_rank :
    (furthest : Stage) (s : Stage)
    → rank_or_zero (if is_further furthest s then s else furthest)
      ≡ max (rank_or_zero furthest) (rank_or_zero s)
step_rank furthest s = ground arith

furthest_from-rank :
    (furthest : Stage) (es : List JobEvent)
    → rank_or_zero (furthest_from furthest es) ≡ max (rank_or_zero furthest) (highest es)
unfolding furthest_from highest
furthest_from-rank furthest [] = omega arith
furthest_from-rank furthest (e ∷ es) = omega (
  arith,
  furthest_from-rank (if is_further furthest e.stage then e.stage else furthest) es,
  step_rank furthest e.stage,
)

highest-insert :
    (e : JobEvent) (es : List JobEvent)
    → highest (insert e es) ≡ max (rank_or_zero e.stage) (highest es)
unfolding insert highest
highest-insert e [] = refl
highest-insert e (x ∷ xs) = ground (arith, highest-insert e xs)

highest-sort : (es : List JobEvent) → highest (sort es) ≡ highest es
unfolding sort highest
highest-sort [] = refl
highest-sort (e ∷ es) = omega (arith, highest-insert e (sort es), highest-sort es)

step-IsRung :
    (furthest s : Stage) → IsRung furthest → IsRung (if is_further furthest s then s else furthest)
step-IsRung furthest s h = ground arith

furthest_from-IsRung :
    (furthest : Stage) (es : List JobEvent) → IsRung furthest → IsRung (furthest_from furthest es)
unfolding furthest_from
furthest_from-IsRung furthest [] h = h
furthest_from-IsRung furthest (e ∷ es) h =
    furthest_from-IsRung (if is_further furthest e.stage then e.stage else furthest) es
      (step-IsRung furthest e.stage h)

standing-furthest :
    (es : List JobEvent)
    → IsRung (standing es).furthest × (rank_or_zero (standing es).furthest ≡ highest es)
unfolding standing highest
standing-furthest [] = (λ e. cc, refl)
standing-furthest (e ∷ es) = (
  furthest_from-IsRung applied (e ∷ es) (λ h. cc),
  omega (arith, furthest_from-rank applied (e ∷ es)),
)

-- The furthest stage of any list of events is a rung of the ladder, and it is the highest rung that
-- any event names, whatever the order of the list; a terminal stage never counts.
pub project-furthest :
    (es : List JobEvent)
    → IsRung (project es).furthest × (rank_or_zero (project es).furthest ≡ highest es)
unfolding project
project-furthest es = let (on, top) = standing-furthest (sort es) in (on, top ∙ highest-sort es)

-- Two rungs with the same rank are the same stage.
pub rung_of_rank : (a b : Stage) → IsRung a → IsRung b → rank_or_zero a ≡ rank_or_zero b → a ≡ b
rung_of_rank a b ha hb e = ground arith

pub highest-append : (es fs : List JobEvent) → highest (es ++ fs) ≡ max (highest es) (highest fs)
unfolding highest
highest-append [] fs = omega arith
highest-append (e ∷ es) fs = omega (arith, highest-append es fs)

-- Every event of the list comes before the given sequence number.
abbrev pub AllBefore : ℕ → List JobEvent → Type 0
AllBefore n = All (λ e. e.sequence < n)

insert-last :
    (e : JobEvent) (es : List JobEvent) (l : JobEvent)
    → e.sequence < l.sequence
    → insert e (es ++ (l ∷ [])) ≡ insert e es ++ (l ∷ [])
unfolding insert
insert-last e [] l h = ground arith
insert-last e (x ∷ xs) l h = ground (arith, insert-last e xs l h)

sort-last :
    (es : List JobEvent) (l : JobEvent)
    → AllBefore l.sequence es
    → sort (es ++ (l ∷ [])) ≡ sort es ++ (l ∷ [])
unfolding sort insert
sort-last [] l h = refl
sort-last (e ∷ es) l h = rw (sort-last es l h.1) (insert-last e (sort es) l h.0)

last_stage-append :
    (s : Stage) (es : List JobEvent) (l : JobEvent) → last_stage s (es ++ (l ∷ [])) ≡ l.stage
unfolding last_stage
last_stage-append s [] l = refl
last_stage-append s (e ∷ es) l = last_stage-append e.stage es l

standing-append :
    (es : List JobEvent) (l : JobEvent)
    → ((standing (es ++ (l ∷ []))).current ≡ l.stage)
      × ((standing (es ++ (l ∷ []))).outcome ≡ outcome_for_stage l.stage)
unfolding standing last_stage
standing-append [] l = (refl, refl)
standing-append (e ∷ es) l =
    (last_stage-append e.stage es l, ap outcome_for_stage (last_stage-append e.stage es l))

-- A later event becomes the current stage and decides the outcome, and it raises the furthest stage
-- to its own rung or leaves it.
pub project-append :
    (es : List JobEvent) (l : JobEvent)
    → AllBefore l.sequence es
    → ((project (es ++ (l ∷ []))).current ≡ l.stage)
      × ((project (es ++ (l ∷ []))).outcome ≡ outcome_for_stage l.stage)
      × (rank_or_zero (project (es ++ (l ∷ []))).furthest
          ≡ max (rank_or_zero (project es).furthest) (rank_or_zero l.stage))
unfolding project highest
project-append es l h =
    let (now, result) = standing-append (sort es) l in
    (
      rw (sort-last es l h) now,
      rw (sort-last es l h) result,
      omega (
        arith,
        (project-furthest (es ++ (l ∷ []))).1,
        (project-furthest es).1,
        highest-append es (l ∷ []),
      ),
    )

-- A rejection, a withdrawal or a ghosting that comes last leaves the furthest stage as it was.
pub terminal_keeps_furthest :
    (es : List JobEvent) (l : JobEvent)
    → AllBefore l.sequence es
    → rank l.stage ≡ none
    → ((project (es ++ (l ∷ []))).current ≡ l.stage)
      × ((project (es ++ (l ∷ []))).furthest ≡ (project es).furthest)
terminal_keeps_furthest es l h off =
    let (now, _, top) = project-append es l h in
    let zero_rank : rank_or_zero l.stage ≡ 0 = ground arith in
    (
      now,
      rung_of_rank _ _ (project-furthest (es ++ (l ∷ []))).0 (project-furthest es).0 (omega arith),
    )
