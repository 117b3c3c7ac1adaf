-- ===== src/Jobs/Ingest/Consistent.antt =====
-- The rows and events that an import (`ingest`, apps/api/src/api/jobs.py) adds to a board.
use interview_helper.Prelude.{
  ℕ, suc, ◌≤◌, ◌≡◌, ◌∙◌, inl, inr, Bool, false, some, List, [], ◌∷◌, arith, ◌==◌, any-append,
  Option-cases, none≢some,
}
use Prim.Native.String.{String}
use mathlib.Core.Path.{subst}
use interview_helper.Jobs.Board.{Board, new_application, insert_application}
use interview_helper.Jobs.Ingest.{
  ParsedJob, Seen, seen_at, Import, key_of, existing_index, candidates_from, new_of, write_rows,
  Research, after_research, ingest,
}
use interview_helper.Jobs.Ingest.Again.{committed}
use interview_helper.Jobs.Moves.Agreement.{is_listed, IsConsistent}
use interview_helper.Jobs.Moves.Lifecycle.{insert-IsConsistent}

-- No row has this identifier or a later one.
abbrev pub IsUnused : ℕ → Board → Type 0
IsUnused id b = (j : ℕ) → id ≤ j → is_listed j b.applications ≡ false

module _ (strip lower : String → String) (user now : ℕ) (model : String) where
  insert-IsUnused :
      (b : Board) (id : ℕ) (row : ParsedJob × Bool)
      → IsUnused id b
      → IsUnused (suc id) (insert_application b (new_of strip lower user now model row) id now).0
  unfolding insert_application new_application
  insert-IsUnused b id row free j h =
      let old = free j (omega (arith, h)) in
      let other : (id == j) ≡ false = ground (arith, h) in
      any-append (λ a. a.id == j) b.applications
        (new_application (new_of strip lower user now model row) id now ∷ [])
      ∙ ground (arith, old, other)

  write_rows-IsConsistent :
      (b : Board) (seen : Seen) (id : ℕ) (rows : List (ParsedJob × Bool))
      → IsUnused id b
      → IsConsistent b
      → IsConsistent (write_rows strip lower user now model b seen id rows).board
  unfolding write_rows
  write_rows-IsConsistent b seen id [] free c = c
  write_rows-IsConsistent b seen id (row ∷ rows) free c =
      let k = key_of strip lower row.0 in
      elim (Option-cases (seen_at k seen)) [
        | inl new ↦
            let n = new_of strip lower user now model row in
            rw (new, write_rows)
              (write_rows-IsConsistent (insert_application b n id now).0 ((k, id) ∷ seen) (suc id)
                rows (insert-IsUnused b id row free)
                (insert-IsConsistent b n id now c (free id (omega arith))))
        | inr found ↦ rw (found.1, write_rows) (write_rows-IsConsistent b seen id rows free c)
      ]

  -- An import under unused identifiers keeps the board in agreement, whatever research answers.
  pub ingest-IsConsistent :
      (b : Board) (id : ℕ) (rows : List ParsedJob) (research : Research) {r : Import}
      → IsUnused id b
      → IsConsistent b
      → ingest strip lower user now model b id rows research ≡ some r
      → IsConsistent r.board
  unfolding ingest
  ingest-IsConsistent b id [] research {r} free c h = absurd (none≢some h)
  ingest-IsConsistent b id (row ∷ rows) research {r} free c h =
      let seen = existing_index strip lower b user in
      elim (Option-cases
        (after_research (row ∷ rows) (candidates_from strip lower seen [] (row ∷ rows)) research)) [
          | inl failed ↦ absurd (none≢some (rw (failed, ingest) at h))
          | inr merged ↦
              subst (λ (i : Import). IsConsistent i.board)
                (committed lower (rw (merged.1, ingest) at h))
                (write_rows-IsConsistent b seen id merged.0 free c)
        ]
