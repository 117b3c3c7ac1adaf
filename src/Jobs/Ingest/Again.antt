-- ===== src/Jobs/Ingest/Again.antt =====
-- What an import (`ingest`, apps/api/src/api/jobs.py) leaves on the board, and a second one of the same
-- list.
use interview_helper.Prelude.{
  ℕ, suc, ◌+◌, ◌≡◌, refl, ◌∙◌, sym, ap, inl, inr, Bool, true, ◌&&◌, ◌||◌, some, List, [], ◌∷◌, ◌++◌,
  arith, ◌==◌, any, any-append, length, Bool-cases, Option-cases, All, All-map, some-injective,
  none≢some,
}
use Prim.Native.String.{String}
use mathlib.Core.Path.{subst}
use text.Mathlib.TextPositions.{eq_refl}
use interview_helper.Jobs.{JobApplication}
use interview_helper.Jobs.Board.{Board, is_indexed, new_application, insert_application}
use interview_helper.Jobs.Ingest.{
  ParsedJob, Key, same_key, Seen, seen_at, is_some, is_seen, Import, key, key_of, index_of,
  existing_index, new_of, write_rows, skipped, after_research, unmarked, commit_import, ingest,
}

seen-cons :
    (k l : Key) (id : ℕ) (rest : Seen)
    → is_seen k ((l, id) ∷ rest) ≡ (same_key k l || is_seen k rest)
unfolding seen_at
seen-cons k l id rest = elim (Bool-cases (same_key k l)) [
  | inl on ↦ rw (on, seen_at) refl
  | inr off ↦ rw (off, seen_at) refl
]

seen-append : (k : Key) (xs ys : Seen) → is_seen k (xs ++ ys) ≡ (is_seen k xs || is_seen k ys)
unfolding seen_at
seen-append k [] ys = refl
seen-append k ((l, id) ∷ xs) ys =
    ground (arith, seen-append k xs ys, seen-cons k l id xs, seen-cons k l id (xs ++ ys))

-- What was committed is what was written.
pub committed :
    (lower : String → String) {written r : Import}
    → commit_import lower written ≡ some r
    → written ≡ r
unfolding commit_import
committed lower {written} h = elim (Bool-cases (is_indexed lower written.board.applications)) [
  | inl indexed ↦ some-injective (rw indexed at h)
  | inr refused_ ↦ absurd (none≢some (rw refused_ at h))
]

length-unmarked : (rows : List ParsedJob) → length (unmarked rows) ≡ length rows
unfolding unmarked
length-unmarked [] = refl
length-unmarked (row ∷ rows) = ap suc (length-unmarked rows)

module _ (strip lower : String → String) (user : ℕ) where
  abbrev is_own : Key → JobApplication → Bool
  is_own k a = a.user_id == user && same_key k (key strip lower a.company a.role)

  -- The user has an application under the key.
  abbrev is_tracked : Key → Board → Bool
  is_tracked k b = any (is_own k) b.applications

  index_of-tracked :
      (k : Key) (xs : List JobApplication)
      → is_seen k (index_of strip lower user xs) ≡ any (is_own k) xs
  unfolding index_of seen_at
  index_of-tracked k [] = refl
  index_of-tracked k (a ∷ xs) =
      let rest = index_of-tracked k xs in
      let entry = (key strip lower a.company a.role, a.id) ∷ [] in
      let last = seen-cons k (key strip lower a.company a.role) a.id [] in
      let behind = seen-append k (index_of strip lower user xs) entry in
      elim (Bool-cases (a.user_id == user)) [
        | inl mine ↦ rw (mine, index_of) (ground (arith, rest, last, behind))
        | inr other ↦ rw (other, index_of) (ground (arith, rest))
      ]

  insert-tracked :
      (k : Key) (b : Board) (now id now' : ℕ) (model : String) (row : ParsedJob × Bool)
      → is_tracked k (insert_application b (new_of strip lower user now model row) id now').0
        ≡ (is_tracked k b || same_key k (key_of strip lower row.0))
  unfolding insert_application new_application new_of
  insert-tracked k b now id now' model row =
      any-append (is_own k) b.applications
        (new_application (new_of strip lower user now model row) id now' ∷ [])
      ∙ ground arith

  same_key_self : (k : Key) → same_key k k ≡ true
  same_key_self k = ground (arith, eq_refl k.0, eq_refl k.1)

  record Covers (now : ℕ) (model : String) (b : Board) (rows : List (ParsedJob × Bool)) (r : Import)
      : Type 0 where
    kept : (k : Key) → is_tracked k b ≡ true → is_tracked k r.board ≡ true
    written : All (λ row. is_tracked (key_of strip lower row.0) r.board ≡ true) rows
    counted : length r.created + length r.duplicates ≡ length rows

  write_rows-Covers :
      (now : ℕ) (model : String) (b : Board) (seen : Seen) (id : ℕ) (rows : List (ParsedJob × Bool))
      → ((k : Key) → is_seen k seen ≡ true → is_tracked k b ≡ true)
      → Covers now model b rows (write_rows strip lower user now model b seen id rows)
  unfolding write_rows
  write_rows-Covers now model b seen id [] sound = record {
    kept = λ k h. h;
    written = tt;
    counted = refl;
  }
  write_rows-Covers now model b seen id (row ∷ rows) sound =
      let k = key_of strip lower row.0 in
      elim (Option-cases (seen_at k seen)) [
        | inl new ↦
            let next = insert_application b (new_of strip lower user now model row) id now in
            let grown : (j : Key) → is_tracked j next.0 ≡ (is_tracked j b || same_key j k) =
              λ j. insert-tracked j b now id now model row in
            let rest = write_rows-Covers now model next.0 ((k, id) ∷ seen) (suc id) rows (λ j h.
              elim (Bool-cases (is_seen j seen)) [
                | inl old ↦ ground (arith, grown j, sound j old)
                | inr fresh ↦ ground (arith, grown j, h, fresh, seen-cons j k id seen)
              ]) in
            rw (new, write_rows)
              (record {
                kept = λ j h. rest.kept j (ground (arith, grown j, h));
                written = (rest.kept k (ground (arith, grown k, same_key_self k)), rest.written);
                counted = omega (arith, rest.counted);
              })
        | inr found ↦
            let rest = write_rows-Covers now model b seen id rows sound in
            let known : is_seen k seen ≡ true = ap is_some found.1 in
            rw (found.1, write_rows)
              (record {
                kept = rest.kept;
                written = (rest.kept k (sound k known), rest.written);
                counted = omega (arith, rest.counted);
              })
      ]

  write_rows-idle :
      (now : ℕ) (model : String) (b : Board) (seen : Seen) (id : ℕ) (rows : List (ParsedJob × Bool))
      → All (λ row. is_seen (key_of strip lower row.0) seen ≡ true) rows
      → ((write_rows strip lower user now model b seen id rows).board ≡ b)
        × ((write_rows strip lower user now model b seen id rows).created ≡ [])
  unfolding write_rows
  write_rows-idle now model b seen id [] h = (refl, refl)
  write_rows-idle now model b seen id (row ∷ rows) h =
      elim (Option-cases (seen_at (key_of strip lower row.0) seen)) [
        | inl new ↦ absurd (ground (arith, sym h.0 ∙ ap is_some new))
        | inr found ↦ rw (found.1, write_rows) (write_rows-idle now model b seen id rows h.1)
      ]

  index_is_tracked :
      (b : Board) (k : Key) → is_seen k (existing_index strip lower b user) ≡ is_tracked k b
  unfolding existing_index
  index_is_tracked b k = index_of-tracked k b.applications

  -- An import of a pasted list reports each row once, as made or as found. A second import of the same
  -- list, whenever it comes, makes nothing and leaves the board as it is. Research is skipped both times.
  pub ingest-again :
      (now later id next : ℕ) (model other : String) (b : Board) (rows : List ParsedJob)
      (first second : Import)
      → ingest strip lower user now model b id rows skipped ≡ some first
      → ingest strip lower user later other first.board next rows skipped ≡ some second
      → (length first.created + length first.duplicates ≡ length rows)
        × (second.board ≡ first.board)
        × (second.created ≡ [])
  unfolding ingest after_research
  ingest-again now later id next model other b [] first second h h' = absurd (none≢some h)
  ingest-again now later id next model other b (row ∷ rows) first second h h' =
      let covers =
        write_rows-Covers now model b (existing_index strip lower b user) id (unmarked (row ∷ rows))
          (λ k e. sym (index_is_tracked b k) ∙ e) in
      let is_first = committed lower h in
      let c = subst (Covers now model b (unmarked (row ∷ rows))) is_first covers in
      let idle =
        write_rows-idle later other first.board (existing_index strip lower first.board user) next
          (unmarked (row ∷ rows))
          (All-map (unmarked (row ∷ rows)) (λ x e. index_is_tracked first.board _ ∙ e) c.written) in
      let is_second = committed lower h' in
      (
        c.counted ∙ length-unmarked (row ∷ rows),
        sym (ap (λ r. r.board) is_second) ∙ idle.0,
        sym (ap (λ r. r.created) is_second) ∙ idle.1,
      )
