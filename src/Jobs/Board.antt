-- ===== src/Jobs/Board.antt =====
-- The two tables of the tracker and the operations that write them (apps/api/src/api/jobs.py). A
-- fresh identifier and the clock are arguments; `strip` and `lower` are Python's `str` methods,
-- and `lower` is the database's function of that name too.
use interview_helper.Prelude.{
  ℕ, Bool, true, false, ◌&&◌, not, Option, none, some, List, [], ◌∷◌, ◌++◌, leb, ◌==◌,
  if◌then◌else◌, select, any,
}
use Prim.Native.String.{String}
use text.Mathlib.Text.{◌==◌ as str_eq}
use interview_helper.Jobs.{
  Stage, applied, Category, category_of, auto_accept_confidence, tracked, pending_classification,
  Source, manual, JobApplication, JobEvent, not_found, Result, ok, err,
}
use interview_helper.Jobs.Projection.{sort, project, Standing}

pub record Board : Type 0 where
  pub applications : List JobApplication
  pub events : List JobEvent

-- `db.get(JobApplication, application_id)`
unfoldable pub find : ℕ → List JobApplication → Option JobApplication
find id [] = none
find id (a ∷ rest) = if a.id == id then some a else find id rest

unfoldable pub update :
    ℕ → (JobApplication → JobApplication) → List JobApplication → List JobApplication
update id f [] = []
update id f (a ∷ rest) = (if a.id == id then f a else a) ∷ update id f rest

unfoldable pub events_of : Board → ℕ → List JobEvent
events_of b id = sort (select (λ e. e.application_id == id) b.events)

unfoldable pub last_event : List JobEvent → Option JobEvent
last_event [] = none
last_event (e ∷ []) = some e
last_event (e ∷ f ∷ es) = last_event (f ∷ es)

abbrev pub standing_of : JobApplication → Standing
standing_of a = record {
  current = a.current_stage;
  furthest = a.furthest_stage;
  outcome = a.outcome;
}

abbrev pub stand : Standing → ℕ → JobApplication → JobApplication
stand s now a = record a {
  current_stage = s.current;
  furthest_stage = s.furthest;
  outcome = s.outcome;
  updated_at = now;
}

-- The arguments of `insert_application`.
pub record NewApplication : Type 0 where
  pub user_id : ℕ
  pub company : String
  pub role : String
  pub location : Option String
  pub url : Option String
  pub subcategory : Option String
  pub stage : Stage
  pub notes : Option String
  pub applied_at : Option ℕ
  pub source : Source
  pub confidence : Option ℕ
  pub model : Option String

-- A value that Python reads as true: present and not empty.
abbrev pub is_truthy : Option String → Bool
is_truthy none = false
is_truthy (some s) = not (str_eq s "")

abbrev pub is_applied : Stage → Bool
is_applied applied = true
is_applied _ = false

abbrev pub is_manual : Source → Bool
is_manual manual = true
is_manual _ = false

-- `confidence is None or confidence >= AUTO_ACCEPT_CONFIDENCE`
abbrev is_confident : Option ℕ → Bool
is_confident none = true
is_confident (some c) = leb auto_accept_confidence c

abbrev first_category : Option String → Option Category
first_category none = none
first_category (some s) = category_of s

unfoldable pub first_events : NewApplication → ℕ → ℕ → List JobEvent
first_events n id now =
    record {
      application_id = id;
      sequence = 0;
      stage = applied;
      note = if is_manual n.source then none else some "imported";
      occurred_at = elim n.applied_at [ none ↦ now | some t ↦ t ];
    }
    ∷ (if is_applied n.stage
        then []
        else record {
          application_id = id;
          sequence = 1;
          stage = n.stage;
          note = if is_manual n.source then none else some "from the imported list";
          occurred_at = now;
        }
          ∷ [])

unfoldable pub new_application : NewApplication → ℕ → ℕ → JobApplication
unfolding first_events
new_application n id now =
    let s = project (first_events n id now) in
    record {
      id = id;
      user_id = n.user_id;
      company = n.company;
      role = n.role;
      location = n.location;
      url = n.url;
      source = n.source;
      category = if is_truthy n.subcategory then first_category n.subcategory else none;
      subcategory = n.subcategory;
      classification_confidence = n.confidence;
      classification_model = n.model;
      status =
          if is_truthy n.subcategory && is_confident n.confidence
          then tracked
          else pending_classification;
      current_stage = s.current;
      furthest_stage = s.furthest;
      outcome = s.outcome;
      notes = n.notes;
      applied_at = elim n.applied_at [ none ↦ now | some t ↦ t ];
      created_at = now;
      updated_at = now;
    }

-- The unique index on the owner, the lowered company and the lowered role.
unfoldable pub same_index : (String → String) → JobApplication → JobApplication → Bool
same_index lower a b =
    a.user_id == b.user_id
    && str_eq (lower a.company) (lower b.company)
    && str_eq (lower a.role) (lower b.role)

-- Does the index refuse a row beside these?
unfoldable pub is_refused : (String → String) → JobApplication → List JobApplication → Bool
is_refused lower a rows = any (same_index lower a) rows

-- Do the rows respect the index?
unfoldable pub is_indexed : (String → String) → List JobApplication → Bool
unfolding is_refused
is_indexed lower [] = true
is_indexed lower (a ∷ rows) = not (is_refused lower a rows) && is_indexed lower rows

-- `insert_application` only adds to the open transaction: the index is checked when its caller commits.
unfoldable pub insert_application : Board → NewApplication → ℕ → ℕ → Board × JobApplication
insert_application b n id now =
    let a = new_application n id now in
    (
      record {
        applications = b.applications ++ (a ∷ []);
        events = b.events ++ first_events n id now;
      },
      a,
    )

-- `recompute`, on an application that is there or not.
unfoldable pub recompute : Board → ℕ → ℕ → Result (Board × JobApplication)
recompute b id now = elim (find id b.applications) [
  | none ↦ err not_found
  | some a ↦
      let s = project (events_of b id) in
      ok (record b { applications = update id (stand s now) b.applications }, stand s now a)
]
