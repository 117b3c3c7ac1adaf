-- ===== src/Jobs/Moves/Lifecycle.antt =====
-- `insert_application` (apps/api/src/api/jobs.py): the new row and its events beside the old ones.
use interview_helper.Prelude.{
  ℕ, ◌≡◌, ◌≢◌, refl, ◌∙◌, sym, ap, inl, inr, true, false, List, [], ◌∷◌, ◌++◌, arith, ◌==◌, select,
  All, All-map, All-append, select-append, any-append, append-nil, Bool-cases,
}
use interview_helper.Jobs.{JobApplication, JobEvent}
use interview_helper.Jobs.Projection.{insert, sort, project}
use interview_helper.Jobs.Board.{
  Board, events_of, NewApplication, first_events, new_application, insert_application, is_applied,
}
use interview_helper.Jobs.Moves.Agreement.{is_listed, Agrees, IsConsistent}

select-unlisted :
    (id : ℕ) (xs : List JobApplication) (es : List JobEvent)
    → All (λ e. is_listed e.application_id xs ≡ true) es
    → is_listed id xs ≡ false
    → select (λ e. e.application_id == id) es ≡ []
select-unlisted id xs [] h fresh = refl
select-unlisted id xs (e ∷ es) h fresh = elim (Bool-cases (e.application_id == id)) [
  | inr other ↦ rw other (select-unlisted id xs es h.1 fresh)
  | inl same ↦
      let i : e.application_id ≡ id = ground arith in
      let listed : is_listed id xs ≡ true = rw (← i) h.0 in cc
]

All-others : (id : ℕ) (xs : List JobApplication) → is_listed id xs ≡ false → All (λ a. a.id ≢ id) xs
All-others id [] h = tt
All-others id (x ∷ xs) h = (λ e. ground arith, All-others id xs (ground arith))

first_events-other :
    (n : NewApplication) (id now j : ℕ)
    → j ≢ id
    → select (λ e. e.application_id == j) (first_events n id now) ≡ []
unfolding first_events
first_events-other n id now j h = elim (Bool-cases (is_applied n.stage)) [
  | inl at_start ↦ rw at_start (ground arith)
  | inr later ↦ rw later (ground arith)
]

first_events_self :
    (n : NewApplication) (id now : ℕ)
    → (select (λ e. e.application_id == id) (first_events n id now) ≡ first_events n id now)
      × (sort (first_events n id now) ≡ first_events n id now)
unfolding first_events sort insert
first_events_self n id now = elim (Bool-cases (is_applied n.stage)) [
  | inl at_start ↦ rw at_start (ground arith, refl)
  | inr later ↦ rw later (ground arith, refl)
]

All-zip {ℓ κ κ'} :
    {A : Type ℓ} (P : A → Type κ) (Q : A → Type κ') (xs : List A)
    → All P xs
    → All Q xs
    → All (λ x. P x × Q x) xs
All-zip P Q [] p q = tt
All-zip P Q (x ∷ xs) p q = ((p.0, q.0), All-zip P Q xs p.1 q.1)

All-first_events :
    (P : JobEvent → Type 0) (n : NewApplication) (id now : ℕ)
    → ((e : JobEvent) → e.application_id ≡ id → P e)
    → All P (first_events n id now)
unfolding first_events
All-first_events P n id now own = elim (Bool-cases (is_applied n.stage)) [
  | inl at_start ↦ rw at_start (own _ refl, tt)
  | inr later ↦ rw later (own _ refl, (own _ refl, tt))
]

module _ (b : Board) (n : NewApplication) (id now : ℕ) (c : IsConsistent b) where
  Agrees-old :
      (a : JobApplication) → (a.id ≢ id) × Agrees b a → Agrees (insert_application b n id now).0 a
  unfolding insert_application events_of
  Agrees-old a (other, agree) =
      agree
      ∙ ap (λ es. project (sort es))
          (sym (
            select-append (λ e. e.application_id == a.id) b.events (first_events n id now)
            ∙ rw (first_events-other n id now a.id other)
                (append-nil (select (λ e. e.application_id == a.id) b.events))))

  Agrees-new :
      is_listed id b.applications ≡ false
      → Agrees (insert_application b n id now).0 (new_application n id now)
  unfolding insert_application events_of new_application
  Agrees-new fresh =
      let (mine, ordered) = first_events_self n id now in
      let none_before = select-unlisted id b.applications b.events c.owned fresh in
      ap project (
        sym (
          ap sort (
            select-append (λ e. e.application_id == id) b.events (first_events n id now)
            ∙ rw (none_before, mine) refl)
          ∙ ordered))

  -- Inserting a row under an identifier that is not in use keeps the board in agreement.
  pub insert-IsConsistent :
      is_listed id b.applications ≡ false → IsConsistent (insert_application b n id now).0
  unfolding insert_application new_application first_events
  insert-IsConsistent fresh = record {
    owned =
        All-append (λ e. is_listed e.application_id (b.applications ++ (a ∷ [])) ≡ true) b.events
          (first_events n id now)
          (All-map b.events
            (λ e h. any-append (λ x. x.id == e.application_id) b.applications (a ∷ []) ∙ rw h refl)
            c.owned)
          (All-first_events (λ e. is_listed e.application_id (b.applications ++ (a ∷ [])) ≡ true) n
            id now (λ e i. rw i self));
    agrees =
        All-append (Agrees (insert_application b n id now).0) b.applications (a ∷ [])
          (All-map b.applications Agrees-old (
            All-zip (λ x. x.id ≢ id) (Agrees b) b.applications (All-others id b.applications fresh)
              c.agrees))
          (Agrees-new fresh, tt);
  }
    where
      a : JobApplication
      a = new_application n id now

      self : is_listed id (b.applications ++ (a ∷ [])) ≡ true
      self = any-append (λ x. x.id == id) b.applications (a ∷ []) ∙ ground arith
