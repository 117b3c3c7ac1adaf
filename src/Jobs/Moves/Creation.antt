-- ===== src/Jobs/Moves/Creation.antt =====
-- `create_application` (apps/api/src/api/jobs.py), made twice.
use interview_helper.Prelude.{
  ℕ, ◌≡◌, ◌≢◌, refl, ap, ◌∙◌, ◌⊎◌, inl, inr, Bool, true, ◌&&◌, none, some, List, [], ◌∷◌, ◌++◌,
  arith, sym, any-append, if◌then◌else◌, Bool-cases, Option-cases,
}
use Prim.Native.String.{String}
use text.Mathlib.Text.{◌==◌ as str_eq}
use text.Mathlib.TextEquality.{eq_iff}
use text.Mathlib.TextPositions.{eq_refl}
use interview_helper.Jobs.{JobApplication, Stage, stage_of, ok, err, integrity_error}
use interview_helper.Jobs.Board.{
  Board, NewApplication, new_application, same_index, is_refused, insert_application,
}
use interview_helper.Jobs.Moves.{
  commit_application, first_match, is_match, is_known, existing, create_application,
}

first_match-append :
    (p : JobApplication → Bool) (xs : List JobApplication) (a : JobApplication)
    → first_match p xs ≡ none
    → first_match p (xs ++ (a ∷ [])) ≡ (if p a then some a else none)
unfolding first_match
first_match-append p [] a h = refl
first_match-append p (x ∷ xs) a h = ground (arith, first_match-append p xs a)

ok-injective : {A : Type 0} {x y : A} → ok x ≡ ok y → x ≡ y
ok-injective h = cc

-- What was committed is what was written.
committed :
    (lower : String → String) (b : Board) (written : Board × JobApplication)
    {r : Board × JobApplication}
    → commit_application lower b written ≡ ok r
    → written ≡ r
unfolding commit_application
committed lower b written h = elim (Bool-cases (is_refused lower written.1 b.applications)) [
  | inl refused_ ↦ absurd (ground (arith, rw refused_ at h))
  | inr free ↦ ok-injective (rw free at h)
]

-- The index refuses a row beside one of the same owner, company and role.
twice_is_refused :
    (lower : String → String) (b : Board) (n m : NewApplication) (id now id' now' : ℕ)
    → m.user_id ≡ n.user_id
    → m.company ≡ n.company
    → m.role ≡ n.role
    → is_refused lower (new_application m id' now') (insert_application b n id now).0.applications
      ≡ true
unfolding is_refused same_index insert_application new_application
twice_is_refused lower b n m id now id' now' user company role =
    any-append (same_index lower (new_application m id' now')) b.applications
      (new_application n id now ∷ [])
    ∙ rw (user, company, role) (ground (arith, eq_refl (lower n.company), eq_refl (lower n.role)))

module _ (strip lower : String → String) where
  pub create-cases :
      (b : Board) (n : NewApplication) (stage : String) (id now : ℕ) {b' : Board}
      {a : JobApplication}
      → create_application strip lower b n stage id now ≡ ok (b', a)
      → (s : Stage) × (stage_of stage ≡ some s)
        × (is_known n.subcategory ≡ true)
        × (((existing strip lower b n.user_id n.company n.role ≡ some a) × (b' ≡ b))
            ⊎ ((existing strip lower b n.user_id n.company n.role ≡ none)
                × ((b', a) ≡ insert_application b (record n { stage = s }) id now)))
  unfolding create_application
  create-cases b n stage id now {b'} {a} h = elim (Option-cases (stage_of stage)) [
    | inl unknown ↦ absurd (ground arith)
    | inr (s, known) ↦ elim (Bool-cases (is_known n.subcategory)) [
      | inr strange ↦ absurd (ground arith)
      | inl fine ↦ elim (Option-cases (existing strip lower b n.user_id n.company n.role)) [
        | inl new ↦
            let written = insert_application b (record n { stage = s }) id now in
            let committed_ : commit_application lower b written ≡ ok (b', a) = ground arith in
            (s, known, fine, inr (new, sym (committed lower b written committed_)))
        | inr (x, old) ↦ (s, known, fine, inl (ground arith, ground arith))
      ]
    ]
  ]

  create-known :
      (b : Board) (n : NewApplication) (stage : String) (id now : ℕ) {s : Stage}
      → stage_of stage ≡ some s
      → is_known n.subcategory ≡ true
      → create_application strip lower b n stage id now
        ≡ elim (existing strip lower b n.user_id n.company n.role) [
          | some a ↦ ok (b, a)
          | none ↦ commit_application lower b (insert_application b (record n { stage = s }) id now)
        ]
  unfolding create_application
  create-known b n stage id now known fine = rw (known, create_application) (rw fine)

  -- After the insertion of a row that was not there, the look-up finds it just if it matches itself.
  existing-inserted :
      (b : Board) (n : NewApplication) (s : Stage) (id now : ℕ)
      → existing strip lower b n.user_id n.company n.role ≡ none
      → let (b', a) = insert_application b (record n { stage = s }) id now in
        existing strip lower b' n.user_id n.company n.role ≡ (
          if str_eq (lower n.company) (lower (strip n.company))
            && str_eq (lower n.role) (lower (strip n.role))
          then some a
          else none)
  unfolding existing insert_application new_application
  existing-inserted b n s id now absent =
      first_match-append (is_match strip lower n.user_id n.company n.role) b.applications _ absent
      ∙ ground arith

  second_is_refused :
      (b b' : Board) (n : NewApplication) (s : Stage) (id now id' now' : ℕ) {a : JobApplication}
      → (b', a) ≡ insert_application b (record n { stage = s }) id now
      → is_refused lower (insert_application b' (record n { stage = s }) id' now').1 b'.applications
        ≡ true
  unfolding insert_application
  second_is_refused b b' n s id now id' now' made =
      rw (ap (λ (r : Board × JobApplication). r.0) made) (
        twice_is_refused lower b (record n { stage = s }) (record n { stage = s }) id now id' now'
          refl refl refl)

  module _ (b : Board) (n : NewApplication) (stage : String) (id now id' now' : ℕ) {b' : Board}
      {a : JobApplication} where
    -- A row whose company and role carry no surrounding space is found again: a second request
    -- returns the row of the first and writes nothing.
    pub create-idempotent :
        strip n.company ≡ n.company
        → strip n.role ≡ n.role
        → create_application strip lower b n stage id now ≡ ok (b', a)
        → create_application strip lower b' n stage id' now' ≡ ok (b', a)
    create-idempotent sc sr h =
        let (s, known, fine, how) = create-cases b n stage id now h in
        elim how [
          | inl (old, same) ↦
              let again = create-known b' n stage id' now' known fine in
              let old' : existing strip lower b' n.user_id n.company n.role ≡ some a =
                rw same old in
              rw (again, old')
          | inr (new, made) ↦
              let again = create-known b' n stage id' now' known fine in
              let stored = existing-inserted b n s id now new in
              let found : existing strip lower b' n.user_id n.company n.role ≡ some a =
                ground (arith, stored, eq_refl (lower n.company), eq_refl (lower n.role)) in
              rw (again, found)
        ]

    -- A new row whose company changes under `strip`, as lowered, is not found again: an identical second
    -- request does not return it, but fails on the unique index.
    pub create-not_idempotent :
        lower n.company ≢ lower (strip n.company)
        → existing strip lower b n.user_id n.company n.role ≡ none
        → create_application strip lower b n stage id now ≡ ok (b', a)
        → create_application strip lower b' n stage id' now' ≡ err integrity_error
    unfolding commit_application
    create-not_idempotent ne absent h =
        let (s, known, fine, how) = create-cases b n stage id now h in
        let again = create-known b' n stage id' now' known fine in
        elim how [
          | inl (old, _) ↦ absurd (ground arith)
          | inr (new, made) ↦
              let stored = existing-inserted b n s id now new in
              let lost : existing strip lower b' n.user_id n.company n.role ≡ none =
                ground (arith, stored, eq_iff (lower n.company) (lower (strip n.company))) in
              let refused_ : is_refused lower
                    (insert_application b' (record n { stage = s }) id' now').1 b'.applications
                  ≡ true =
                second_is_refused b b' n s id now id' now' made in
              rw (again, lost) (rw refused_ refl)
        ]
