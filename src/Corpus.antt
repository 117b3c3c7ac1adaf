-- ===== src/Corpus.antt =====
-- packages/corpus/src/corpus/validate.py: `check_concept_graph`, the check of the graph of
-- prerequisites, whose cycles are searched for depth first on an explicit stack. An id is a number.
-- An exception of Python is `none`, and so is a walk that runs out of fuel.
pub mod Cycles
pub mod Walks
pub mod Paint
pub mod Rounds
pub mod Returns
pub mod Acyclic
pub mod WellFormed
pub mod Findings
mod Tests
use interview_helper.Prelude.{
  ℕ, zero, suc, ◌+◌, ◌≡◌, Bool, true, false, not, ◌&&◌, Option, none, some, List, [], ◌∷◌, ◌++◌,
  map, ◌==◌, if◌then◌else◌, length, contains,
}
use Prim.Native.String.{String}
use text.Mathlib.Text.{◌==◌ as str_eq}

-- Of a concept the fields that the check reads.
pub record Concept : Type 0 where
  pub id : ℕ
  pub domain : String
  pub topic : Option String
  pub prereqs : List ℕ

pub data Finding : Type 0 where
  duplicate_id no_topic : ℕ → Finding
  unknown_prereq own_prereq : ℕ → ℕ → Finding
  cycle : List ℕ → Finding

-- `by_id`: a dict, in the order of its insertions.
abbrev pub Index : Type 0
Index = List (ℕ × Concept)

unfoldable pub lookup : ℕ → Index → Option Concept
lookup i [] = none
lookup i ((j, c) ∷ rest) = let found = lookup i rest in if j == i then some c else found

-- `by_id[i] = c`, which keeps the place of a key that is there
unfoldable pub put : ℕ → Concept → Index → Index
put i c [] = (i, c) ∷ []
put i c ((j, d) ∷ rest) =
    let behind = put i c rest in if j == i then (j, c) ∷ rest else (j, d) ∷ behind

unfoldable pub is_known : Index → ℕ → Bool
unfolding lookup
is_known by_id i = elim (lookup i by_id) [ none ↦ false | some _ ↦ true ]

unfoldable pub index_from : Index → List Finding → List Concept → Index × List Finding
index_from by_id findings [] = (by_id, findings)
index_from by_id findings (c ∷ cs) =
    index_from (put c.id c by_id)
      (if is_known by_id c.id then findings ++ (duplicate_id c.id ∷ []) else findings) cs

abbrev pub is_blank : Option String → Bool
is_blank none = true
is_blank (some topic) = str_eq topic ""

unfoldable pub check_topic : ℕ → Concept → List Finding
check_topic i c = if str_eq c.domain "coding" && is_blank c.topic then no_topic i ∷ [] else []

unfoldable pub check_prereqs : Index → ℕ → List ℕ → List Finding
check_prereqs by_id i [] = []
check_prereqs by_id i (pre ∷ pres) =
    let rest = check_prereqs by_id i pres in
    if not (is_known by_id pre)
    then unknown_prereq i pre ∷ rest
    else if pre == i
    then own_prereq i pre ∷ rest
    else rest

unfoldable pub check_entries : Index → Index → List Finding
check_entries by_id [] = []
check_entries by_id ((i, c) ∷ rest) =
    check_topic i c ++ (check_prereqs by_id i c.prereqs ++ check_entries by_id rest)

pub data Colour : Type 0 where
  white grey black : Colour

abbrev pub is_white : Colour → Bool
is_white white = true
is_white _ = false

abbrev pub is_black : Colour → Bool
is_black black = true
is_black _ = false

unfoldable pub paint : ℕ → Colour → (ℕ → Colour) → ℕ → Colour
paint i c colour j = if i == j then c else colour j

-- What a walk keeps besides its stack: the path newest first, and the cycles reported so far. Every
-- id that is looked up in `colour` is a key of it.
pub record Walk : Type 0 where
  pub colour : ℕ → Colour
  pub path : List ℕ
  pub cycles : List (List ℕ)

-- A node on the stack, and whether it is being left.
abbrev pub Stack : Type 0
Stack = List (ℕ × Bool)

-- `[*path[path.index(node) :], node]`, on a path that is kept newest first: everything back to the
-- oldest place of the node.
unfoldable pub cycle_back : ℕ → List ℕ → List ℕ → Option (List ℕ)
cycle_back node found [] = none
cycle_back node found (x ∷ path) =
    let further = cycle_back node (x ∷ found) path in
    if contains node path then further else if x == node then some (x ∷ found) else none

unfoldable pub leave : ℕ → Stack → Walk → Option (Stack × Walk)
leave node stack w = elim w.path [
  | [] ↦ none
  | _ ∷ path ↦ some (stack, record w { colour = paint node black w.colour; path = path })
]

unfoldable pub report : ℕ → Stack → Walk → Option (Stack × Walk)
report node stack w = elim (cycle_back node (node ∷ []) w.path) [
  | none ↦ none
  | some found ↦ some (stack, record w { cycles = w.cycles ++ (found ∷ []) })
]

module _ (by_id : Index) where
  abbrev pub is_pushed : (ℕ → Colour) → ℕ → Bool
  is_pushed colour pre = is_known by_id pre && not (is_black (colour pre))

  unfoldable pub push_prereqs : (ℕ → Colour) → List ℕ → Stack → Stack
  push_prereqs colour [] stack = stack
  push_prereqs colour (pre ∷ pres) stack =
      push_prereqs colour pres (if is_pushed colour pre then (pre, false) ∷ stack else stack)

  unfoldable pub enter : ℕ → Stack → Walk → Option (Stack × Walk)
  enter node stack w =
      let colour = paint node grey w.colour in
      elim (lookup node by_id) [
        | none ↦ none
        | some c ↦ some (
          push_prereqs colour c.prereqs ((node, true) ∷ stack),
          record w { colour = colour; path = node ∷ w.path },
        )
      ]

  -- One round of the loop of `walk`, on the node that was popped from the stack.
  unfoldable pub round : ℕ → Bool → Stack → Walk → Option (Stack × Walk)
  round node true stack w = leave node stack w
  round node false stack w = elim (w.colour node) [
    | black ↦ some (stack, w)
    | grey ↦ report node stack w
    | white ↦ enter node stack w
  ]

  unfoldable pub walk_from : ℕ → Stack → Walk → Option Walk
  walk_from zero stack w = none
  walk_from (suc fuel) [] w = some w
  walk_from (suc fuel) ((node, leaving) ∷ stack) w = elim (round node leaving stack w) [
    | none ↦ none
    | some next ↦ walk_from fuel next.0 next.1
  ]

  unfoldable pub walk : ℕ → ℕ → Walk → Option Walk
  walk fuel start w = walk_from fuel ((start, false) ∷ []) (record w { path = [] })

  -- `for cid in by_id: if colour[cid] == _WHITE: walk(cid)`
  unfoldable pub walk_all : ℕ → List ℕ → Walk → Option Walk
  walk_all fuel [] w = some w
  walk_all fuel (i ∷ rest) w =
      if is_white (w.colour i)
      then elim (walk fuel i w) [ none ↦ none | some w' ↦ walk_all fuel rest w' ]
      else walk_all fuel rest w

abbrev pub keys : Index → List ℕ
keys by_id = map (λ entry. entry.0) by_id

-- One for every concept and one for every prerequisite that is listed.
unfoldable pub size : Index → ℕ
size [] = 0
size ((i, c) ∷ rest) = 1 + length c.prereqs + size rest

abbrev pub start : Walk
start = record { colour = λ _. white; path = []; cycles = [] }

unfoldable pub search_cycles : Index → Option Walk
search_cycles by_id = walk_all by_id (2 + size by_id) (keys by_id) start

unfoldable pub check_concept_graph : List Concept → Option (List Finding)
check_concept_graph cs =
    let indexed = index_from [] [] cs in
    let by_id = indexed.0 in
    elim (search_cycles by_id) [
      | none ↦ none
      | some w ↦ some (indexed.1 ++ (check_entries by_id by_id ++ map cycle w.cycles))
    ]
