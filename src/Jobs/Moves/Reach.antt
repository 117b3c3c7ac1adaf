-- ===== src/Jobs/Moves/Reach.antt =====
-- Boards that the operations of the tracker (apps/api/src/api/jobs.py) lead to.
use interview_helper.Prelude.{
  ℕ, ◌≡◌, ◌≢◌, refl, ◌∙◌, sym, ap, inl, inr, true, false, not, Option, some, List, [], ◌∷◌, arith,
  ◌==◌, select, All, All-map, Bool-cases, Option-cases,
}
use Prim.Native.String.{String}
use interview_helper.Jobs.{Category, category_of, tracked, JobApplication, JobEvent, ok}
use interview_helper.Jobs.Projection.{sort, project}
use interview_helper.Jobs.Board.{Board, find, update, events_of, standing_of, NewApplication}
use interview_helper.Jobs.Moves.{
  advance, set_classification, delete_application, recompute_all, create_application,
}
use interview_helper.Jobs.Ingest.{ParsedJob, Import, Research, ingest}
use interview_helper.Jobs.Ingest.Consistent.{IsUnused, ingest-IsConsistent}
use interview_helper.Jobs.Moves.Agreement.{is_listed, Agrees, IsConsistent, advance-IsConsistent}
use interview_helper.Jobs.Moves.Creation.{create-cases}
use interview_helper.Jobs.Moves.Lifecycle.{insert-IsConsistent}
use interview_helper.Jobs.Moves.Replay.{recompute_all-consistent}

is_listed-update :
    (id j : ℕ) (f : JobApplication → JobApplication)
    → ((a : JobApplication) → (f a).id ≡ a.id)
    → (xs : List JobApplication) → is_listed j (update id f xs) ≡ is_listed j xs
unfolding update
is_listed-update id j f keeps [] = refl
is_listed-update id j f keeps (x ∷ xs) = ground (arith, keeps x, is_listed-update id j f keeps xs)

All-update {ℓ} :
    {P : JobApplication → Type ℓ} (id : ℕ) (f : JobApplication → JobApplication)
    → ((a : JobApplication) → P a → P (f a))
    → (xs : List JobApplication) → All P xs
    → All P (update id f xs)
unfolding update
All-update id f keeps [] h = tt
All-update id f keeps (x ∷ xs) h = elim (Bool-cases (x.id == id)) [
  | inl same ↦ rw same (keeps x h.0, All-update id f keeps xs h.1)
  | inr other ↦ rw other (h.0, All-update id f keeps xs h.1)
]

-- The write of `set_classification`.
confirm : String → Category → ℕ → JobApplication → JobApplication
confirm subcategory k now x = record x {
  subcategory = some subcategory;
  category = some k;
  status = tracked;
  classification_confidence = some 1000000;
  updated_at = now;
}

confirmed-IsConsistent :
    (b : Board) (id : ℕ) (f : JobApplication → JobApplication)
    → ((a : JobApplication) → (f a).id ≡ a.id)
    → ((a : JobApplication) → standing_of (f a) ≡ standing_of a)
    → IsConsistent b
    → IsConsistent (record b { applications = update id f b.applications })
unfolding events_of
confirmed-IsConsistent b id f keeps stands c = record {
  owned =
      All-map b.events (λ e h. is_listed-update id e.application_id f keeps b.applications ∙ h)
        c.owned;
  agrees =
      All-update id f (λ a h. stands a ∙ h ∙ ap (λ i. project (events_of b i)) (sym (keeps a)))
        b.applications c.agrees;
}

-- Confirming a tag keeps the board in agreement.
pub set_classification-IsConsistent :
    (b : Board) (id : ℕ) (subcategory : String) (now : ℕ) {b' : Board} {a : JobApplication}
    → IsConsistent b
    → set_classification b id subcategory now ≡ ok (b', a)
    → IsConsistent b'
unfolding set_classification confirm
set_classification-IsConsistent b id subcategory now {b'} c h =
    elim (Option-cases (category_of subcategory)) [
      | inl unknown ↦ absurd (ground arith)
      | inr (k, known) ↦ elim (Option-cases (find id b.applications)) [
        | inl missing ↦ absurd (ground arith)
        | inr (x, found) ↦
            let same : b'
                ≡ record b { applications = update id (confirm subcategory k now) b.applications } =
              ground arith in
            rw same
              (confirmed-IsConsistent b id (confirm subcategory k now) (λ _. refl) (λ _. refl) c)
      ]
    ]

select-select :
    (id j : ℕ) (es : List JobEvent)
    → j ≢ id
    → select (λ e. e.application_id == j) (select (λ e. not (e.application_id == id)) es)
      ≡ select (λ e. e.application_id == j) es
select-select id j [] h = refl
select-select id j (e ∷ es) h = ground (arith, select-select id j es h)

is_listed-select :
    (id j : ℕ) (xs : List JobApplication)
    → j ≢ id
    → is_listed j (select (λ x. not (x.id == id)) xs) ≡ is_listed j xs
is_listed-select id j [] h = refl
is_listed-select id j (x ∷ xs) h = ground (arith, is_listed-select id j xs h)

All-select_events :
    (id : ℕ) (xs : List JobApplication) (es : List JobEvent)
    → All (λ e. is_listed e.application_id xs ≡ true) es
    → All
        (λ e. is_listed e.application_id (select (λ x. not (x.id == id)) xs) ≡ true)
        (select (λ e. not (e.application_id == id)) es)
All-select_events id xs [] h = tt
All-select_events id xs (e ∷ es) h = elim (Bool-cases (e.application_id == id)) [
  | inl same ↦ rw same (All-select_events id xs es h.1)
  | inr other ↦ rw other (
    is_listed-select id e.application_id xs (λ q. ground arith) ∙ h.0,
    All-select_events id xs es h.1,
  )
]

without : Board → ℕ → Board
without b id = record {
  applications = select (λ x. not (x.id == id)) b.applications;
  events = select (λ e. not (e.application_id == id)) b.events;
}

All-select-Agrees :
    (b : Board) (id : ℕ) (xs : List JobApplication)
    → All (Agrees b) xs
    → All (Agrees (without b id)) (select (λ x. not (x.id == id)) xs)
unfolding without events_of
All-select-Agrees b id [] h = tt
All-select-Agrees b id (x ∷ xs) h = elim (Bool-cases (x.id == id)) [
  | inl same ↦ rw same (All-select-Agrees b id xs h.1)
  | inr other ↦ rw other (
    h.0 ∙ ap (λ es. project (sort es)) (sym (select-select id x.id b.events (λ q. ground arith))),
    All-select-Agrees b id xs h.1,
  )
]

-- Deleting a row with its events keeps the board in agreement.
pub delete_application-IsConsistent :
    (b : Board) (id : ℕ) {b' : Board}
    → IsConsistent b
    → delete_application b id ≡ ok b'
    → IsConsistent b'
unfolding delete_application without
delete_application-IsConsistent b id {b'} c h =
    let same : b' ≡ without b id = ground arith in
    rw same (record {
      owned = All-select_events id b.applications b.events c.owned;
      agrees = All-select-Agrees b id b.applications c.agrees;
    })

-- One request: a row is made under a fresh identifier, moved, tagged or deleted, a list is imported under
-- fresh identifiers, or all rows are replayed.
pub data Step (strip lower : String → String) (b : Board) : Board → Type 0 where
  created :
      {b' : Board} (n : NewApplication) (stage : String) (id now : ℕ) (a : JobApplication)
      → is_listed id b.applications ≡ false
      → create_application strip lower b n stage id now ≡ ok (b', a)
      → Step strip lower b b'
  advanced :
      {b' : Board} (id : ℕ) (stage : String) (remark : Option String) (occurred : Option ℕ)
      (now : ℕ) (a : JobApplication)
      → advance b id stage remark occurred now ≡ ok (b', a)
      → Step strip lower b b'
  classified :
      {b' : Board} (id : ℕ) (subcategory : String) (now : ℕ) (a : JobApplication)
      → set_classification b id subcategory now ≡ ok (b', a)
      → Step strip lower b b'
  deleted : {b' : Board} (id : ℕ) → delete_application b id ≡ ok b' → Step strip lower b b'
  imported :
      (user now : ℕ) (model : String) (id : ℕ) (rows : List ParsedJob) (research : Research)
      (r : Import)
      → IsUnused id b
      → ingest strip lower user now model b id rows research ≡ some r
      → Step strip lower b r.board
  replayed : {b' : Board} (user now : ℕ) → b' ≡ (recompute_all b user now).0 → Step strip lower b b'

pub data Reach (strip lower : String → String) (b : Board) : Board → Type 0 where
  here : Reach strip lower b b
  next : {c d : Board} → Reach strip lower b c → Step strip lower c d → Reach strip lower b d

create-IsConsistent :
    (strip lower : String → String) (b : Board) (n : NewApplication) (stage : String) (id now : ℕ)
    {b' : Board} {a : JobApplication}
    → IsConsistent b
    → is_listed id b.applications ≡ false
    → create_application strip lower b n stage id now ≡ ok (b', a)
    → IsConsistent b'
create-IsConsistent strip lower b n stage id now c fresh h =
    let (s, known, fine, how) = create-cases strip lower b n stage id now h in
    elim how [
      | inl (old, same) ↦ rw same c
      | inr (new, made) ↦
          rw (ap (λ (r : Board × JobApplication). r.0) made)
            (insert-IsConsistent b (record n { stage = s }) id now c fresh)
    ]

Step-IsConsistent :
    {strip lower : String → String} {b b' : Board}
    → Step strip lower b b'
    → IsConsistent b
    → IsConsistent b'
Step-IsConsistent {strip} {lower} {b} (created n stage id now a fresh h) c =
    create-IsConsistent strip lower b n stage id now c fresh h
Step-IsConsistent {b = b} (advanced id stage remark occurred now a h) c =
    advance-IsConsistent b id stage remark occurred now c h
Step-IsConsistent {b = b} (classified id subcategory now a h) c =
    set_classification-IsConsistent b id subcategory now c h
Step-IsConsistent {b = b} (deleted id h) c = delete_application-IsConsistent b id c h
Step-IsConsistent {strip} {lower} {b} (imported user now model id rows research r free h) c =
    ingest-IsConsistent strip lower user now model b id rows research free c h
Step-IsConsistent {b = b} (replayed user now h) c =
    rw (h, (recompute_all-consistent b user now c).0) c

-- Whatever requests are made of a board that agrees with its history, in whatever order, every row
-- of the board that results says of its stages what its events say.
pub Reach-IsConsistent :
    {strip lower : String → String} {b b' : Board}
    → IsConsistent b
    → Reach strip lower b b'
    → IsConsistent b'
Reach-IsConsistent c here = c
Reach-IsConsistent c (next r s) = Step-IsConsistent s (Reach-IsConsistent c r)
